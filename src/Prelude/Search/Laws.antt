-- ===== src/Prelude/Search/Laws.antt =====
-- Where a text can begin in another one.
use le_cli.Prelude.Lists.{length, get_elem?, take, All}
use le_cli.Prelude.Tests.{Bool-cases, Option-cases, and_true, ◌==◌, ==_iff}
use le_cli.Prelude.Text.{Bytes, has_prefix}
use le_cli.Prelude.Search.{index}
use Prim.Native.Nat.{ℕ, zero, suc, ◌+◌, ◌≤◌, ◌<◌}
use mathlib.Core.Path.{◌≡◌, refl}
use mathlib.Core.Logic.{inl, inr}
use mathlib.Core.Bool.{true}
use mathlib.Core.List.{List, [], ◌∷◌, ◌++◌}
use mathlib.Core.Option.{some}
use native.Mathlib.Omega.{arith}

pub has_prefix-length : (s pre : Bytes) → has_prefix s pre ≡ true → length pre ≤ length s
unfolding has_prefix
has_prefix-length s [] h = omega arith
has_prefix-length [] (p ∷ ps) h = cc
has_prefix-length (c ∷ s) (p ∷ ps) h =
    omega (arith, has_prefix-length s ps (and_true (c == p) (has_prefix s ps) h).1)

-- The text that is found lies within the other one.
pub index-length : (s pat : Bytes) (i : ℕ) → index s pat ≡ some i → i + length pat ≤ length s
unfolding index
index-length [] pat i h = elim (Bool-cases (has_prefix [] pat)) [
  | inl e ↦ let z : 0 ≡ i = ground arith in omega (arith, has_prefix-length [] pat e, z)
  | inr e ↦ ground arith
]
index-length (c ∷ s) pat i h = elim (Bool-cases (has_prefix (c ∷ s) pat)) [
  | inl e ↦ let z : 0 ≡ i = ground arith in omega (arith, has_prefix-length (c ∷ s) pat e, z)
  | inr e ↦ (elim (Option-cases (index s pat)) [
    | inl n ↦ ground arith
    | inr (j, f) ↦ let z : suc j ≡ i = ground arith in omega (arith, index-length s pat j f, z)
  ])
]

module _ {ℓ} {A : Type ℓ} where
  pub get_elem?-some : (xs : List A) (i : ℕ) → i < length xs → (a : A) × (get_elem? xs i ≡ some a)
  get_elem?-some [] i h = absurd (omega (arith, h))
  get_elem?-some (x ∷ xs) zero h = (x, refl)
  get_elem?-some (x ∷ xs) (suc i) h = get_elem?-some xs i (omega (arith, h))

pub take-All {ℓ κ} :
    {A : Type ℓ} (P : A → Type κ) (n : ℕ) (xs : List A) → All P xs → All P (take n xs)
take-All P zero xs h = tt
take-All P (suc n) [] h = tt
take-All P (suc n) (x ∷ xs) (hx, h) = (hx, take-All P n xs h)

pub has_prefix-append : (n b : Bytes) → has_prefix (n ++ b) n ≡ true
unfolding has_prefix
has_prefix-append [] [] = refl
has_prefix-append [] (c ∷ b) = refl
has_prefix-append (c ∷ n) b = ground (arith, has_prefix-append n b)

pub has_prefix-split : (s n : Bytes) → has_prefix s n ≡ true → (b : Bytes) × (s ≡ n ++ b)
unfolding has_prefix
has_prefix-split s [] h = (s, refl)
has_prefix-split [] (m ∷ n) h = cc
has_prefix-split (c ∷ s) (m ∷ n) h =
    let (b, e) = has_prefix-split s n (and_true (c == m) (has_prefix s n) h).1 in
    let same = (==_iff c m).0 (and_true (c == m) (has_prefix s n) h).0 in (b, rw (same, e) refl)
