-- ===== src/Prelude/Maps.antt =====
-- Go maps as association lists, with the insertion that replaces a key in place.
use Prim.Native.Nat.{ℕ}
use mathlib.Core.Path.{◌≡◌, refl, subst}
use mathlib.Core.Logic.{◌↔◌, inl, inr}
use mathlib.Core.Bool.{Bool, true, ◌&&◌, false, ◌||◌, not}
use mathlib.Core.List.{List, [], ◌∷◌, ◌++◌}
use mathlib.Core.Option.{Option, none, some}
use native.Mathlib.Omega.{arith}
use le_cli.Prelude.Int.{ℤ, eqb_ℤ, eqb_ℤ_iff}
use le_cli.Prelude.Lists.{All}
use le_cli.Prelude.Tests.{◌==◌, if◌then◌else◌, ==_iff, Bool-cases}
use le_cli.Prelude.Text.{Bytes, str_eq, str_eq_iff}

-- Equality of keys as a Boolean test.
pub record Key {ℓ} (K : Type ℓ) : Type ℓ where
  pub same : K → K → Bool
  pub same_iff : (j k : K) → (same j k ≡ true) ↔ (j ≡ k)

abbrev nat_beq : ℕ → ℕ → Bool
nat_beq a b = a == b

instance abbrev pub nat_eq : Key ℕ
nat_eq = record { same = nat_beq; same_iff = ==_iff }

instance abbrev pub bytes_eq : Key Bytes
bytes_eq = record { same = str_eq; same_iff = str_eq_iff }

abbrev int_beq : ℤ → ℤ → Bool
int_beq = eqb_ℤ

instance abbrev pub int_eq : Key ℤ
int_eq = record { same = int_beq; same_iff = eqb_ℤ_iff }

abbrev pub Map {ℓ κ} : Type ℓ → Type κ → Type (ℓ ⊔ κ)
Map K V = List (K × V)

module _ {ℓ κ} {K : Type ℓ} {V : Type κ} ⦃e : Key K⦄ where
  unfoldable pub lookup : K → Map K V → Option V
  lookup k [] = none
  lookup k ((j, v) ∷ m) = if e.same j k then some v else lookup k m

  unfoldable pub insert : K → V → Map K V → Map K V
  insert key val [] = (key, val) ∷ []
  insert key val ((j, w) ∷ rest) =
      if e.same j key then (key, val) ∷ rest else (j, w) ∷ insert key val rest

  pub lookup-insert :
      (key at : K) (val : V) (table : Map K V)
      → lookup at (insert key val table) ≡ (if e.same key at then some val else lookup at table)
  unfolding lookup insert
  lookup-insert key at val [] = refl
  lookup-insert key at val ((i, w) ∷ rest) =
      ground
        (arith, e.same_iff i key, e.same_iff i at, e.same_iff key at, lookup-insert key at val rest)

  pub lookup-insert_self : (k : K) (v : V) (m : Map K V) → lookup k (insert k v m) ≡ some v
  lookup-insert_self k v m = ground (arith, lookup-insert k k v m, e.same_iff k k)

module _ {ℓ} {K : Type ℓ} ⦃e : Key K⦄ where
  unfoldable pub elem : K → List K → Bool
  elem k [] = false
  elem k (j ∷ js) = e.same j k || elem k js

  -- No key occurs twice.
  abbrev pub Distinct : List K → Type 0
  Distinct [] = Unit
  Distinct (k ∷ ks) = (elem k ks ≡ false) × Distinct ks

  pub elem-append : (k : K) (xs ys : List K) → elem k (xs ++ ys) ≡ (elem k xs || elem k ys)
  unfolding elem
  elem-append k [] ys = refl
  elem-append k (x ∷ xs) ys = ground (arith, elem-append k xs ys)

  pub Distinct-concat :
      (xs : List K) (k : K) → Distinct xs → elem k xs ≡ false → Distinct (xs ++ k ∷ [])
  unfolding elem
  Distinct-concat [] k d n = (refl, tt)
  Distinct-concat (x ∷ xs) k (h, d) n = (
    ground (arith, elem-append x xs (k ∷ []), e.same_iff k x, e.same_iff x k),
    Distinct-concat xs k d (ground arith),
  )

  -- The keys in their order, each at its first occurrence: the loops that fill a `seen` map.
  unfoldable pub dedup_from : List K → List K → List K
  dedup_from seen [] = []
  dedup_from seen (k ∷ ks) =
      let rest = dedup_from (k ∷ seen) ks in
      let skip = dedup_from seen ks in if elem k seen then skip else k ∷ rest

  unfoldable pub dedup : List K → List K
  unfolding dedup_from elem
  dedup ks = dedup_from [] ks

  dedup_from-elem :
      (k : K) (seen ks : List K) → elem k (dedup_from seen ks) ≡ (elem k ks && not (elem k seen))
  unfolding dedup_from elem
  dedup_from-elem k seen [] = refl
  dedup_from-elem k seen (j ∷ ks) =
      ground (arith, dedup_from-elem k seen ks, dedup_from-elem k (j ∷ seen) ks, e.same_iff j k)

  -- `dedup` keeps the members.
  pub elem-dedup : (k : K) (ks : List K) → elem k (dedup ks) ≡ elem k ks
  unfolding dedup elem
  elem-dedup k ks = ground (arith, dedup_from-elem k [] ks)

  dedup_from-Distinct : (seen ks : List K) → Distinct (dedup_from seen ks)
  unfolding dedup_from elem
  dedup_from-Distinct seen [] = tt
  dedup_from-Distinct seen (j ∷ ks) = ground (
    arith,
    dedup_from-Distinct seen ks,
    dedup_from-Distinct (j ∷ seen) ks,
    dedup_from-elem j (j ∷ seen) ks,
    e.same_iff j j,
  )

  pub dedup-Distinct : (ks : List K) → Distinct (dedup ks)
  unfolding dedup
  dedup-Distinct ks = dedup_from-Distinct [] ks

module _ {ℓ κ μ} {K : Type ℓ} {V : Type κ} ⦃e : Key K⦄ (P : V → Type μ) where
  -- A property of every value of a map.
  abbrev pub AllValues : Map K V → Type μ
  AllValues [] = Unit
  AllValues ((k, v) ∷ m) = P v × AllValues m

  pub insert-AllValues :
      (k : K) (v : V) (m : Map K V) → P v → AllValues m → AllValues (insert k v m)
  unfolding insert
  insert-AllValues k v [] p h = (p, tt)
  insert-AllValues k v ((j, w) ∷ m) p (q, h) = elim (Bool-cases (e.same j k)) [
    | inl b ↦ rw b (p, h)
    | inr b ↦ rw b (q, insert-AllValues k v m p h)
  ]

  pub lookup-AllValues : (k : K) {v : V} (m : Map K V) → AllValues m → lookup k m ≡ some v → P v
  unfolding lookup
  lookup-AllValues k [] h s = cc
  lookup-AllValues k {v} ((j, w) ∷ m) (q, h) s = elim (Bool-cases (e.same j k)) [
    | inl b ↦ let same : w ≡ v = ground arith in subst P same q
    | inr b ↦ lookup-AllValues k m h (rw b at s)
  ]

module _ {ℓ κ} {K : Type ℓ} ⦃e : Key K⦄ (P : K → Type κ) where
  dedup_from-All : (seen ks : List K) → All P ks → All P (dedup_from seen ks)
  unfolding dedup_from
  dedup_from-All seen [] h = tt
  dedup_from-All seen (k ∷ ks) (p, h) = elim (Bool-cases (elem k seen)) [
    | inl b ↦ rw b (dedup_from-All seen ks h)
    | inr b ↦ rw b (p, dedup_from-All (k ∷ seen) ks h)
  ]

  pub dedup-All : (ks : List K) → All P ks → All P (dedup ks)
  unfolding dedup
  dedup-All ks = dedup_from-All [] ks
