-- ===== src/Prelude/Sort.antt =====
-- `sort.Slice` by a strict weak order. Go leaves the order of elements that compare equal open; the
-- model keeps their order.
use le_cli.Prelude.Lists.{All}
use le_cli.Prelude.Tests.{if◌then◌else◌, Bool-cases}
use le_cli.Prelude.Maps.{Key, elem, Distinct}
use mathlib.Core.Path.{◌≡◌, refl, ◌∙◌}
use mathlib.Core.Logic.{inl, inr}
use mathlib.Core.Bool.{Bool, true, false}
use mathlib.Core.List.{List, [], ◌∷◌, Perm}
use mathlib.Core.List.Perm
use native.Mathlib.Omega.{arith}

-- What Go asks of `less`.
pub record IsWeakOrder {ℓ} {A : Type ℓ} (less : A → A → Bool) : Type ℓ where
  pub asym : (a b : A) → less a b ≡ true → less b a ≡ false
  pub trans : (a b c : A) → less b a ≡ false → less c b ≡ false → less c a ≡ false

module _ {ℓ} {A : Type ℓ} (less : A → A → Bool) where
  unfoldable pub insert : A → List A → List A
  insert x [] = x ∷ []
  insert x (y ∷ ys) = if less y x then y ∷ insert x ys else x ∷ (y ∷ ys)

  unfoldable pub sort : List A → List A
  unfolding insert
  sort [] = []
  sort (x ∷ xs) = insert x (sort xs)

  -- No later element is less than an earlier one.
  abbrev pub IsSorted : List A → Type 0
  IsSorted [] = Unit
  IsSorted (x ∷ xs) = All (λ y. less y x ≡ false) xs × IsSorted xs

  insert-perm : (x : A) (xs : List A) → Perm (insert x xs) (x ∷ xs)
  unfolding insert
  insert-perm x [] = Perm.refl _
  insert-perm x (y ∷ ys) = elim (Bool-cases (less y x)) [
    | inl b ↦ rw b (Perm.trans (Perm.cons y (insert-perm x ys)) (Perm.swap _ _ _))
    | inr b ↦ rw b (Perm.refl _)
  ]

  -- Sorting permutes.
  pub sort-perm : (xs : List A) → Perm (sort xs) xs
  unfolding sort
  sort-perm [] = Perm.refl _
  sort-perm (x ∷ xs) = Perm.trans (insert-perm x (sort xs)) (Perm.cons x (sort-perm xs))

module _ {ℓ κ} {A : Type ℓ} (less : A → A → Bool) (P : A → Type κ) where
  insert-All : (x : A) (ys : List A) → P x → All P ys → All P (insert less x ys)
  unfolding insert
  insert-All x [] px h = (px, tt)
  insert-All x (y ∷ ys) px (py, h) = elim (Bool-cases (less y x)) [
    | inl b ↦ rw b (py, insert-All x ys px h)
    | inr b ↦ rw b (px, (py, h))
  ]

  pub sort-All : (xs : List A) → All P xs → All P (sort less xs)
  unfolding sort
  sort-All [] h = tt
  sort-All (x ∷ xs) (px, h) = insert-All x (sort less xs) px (sort-All xs h)

module _ {ℓ} {A : Type ℓ} (less : A → A → Bool) (w : IsWeakOrder less) where
  All-trans :
      (x y : A) (ys : List A)
      → less y x ≡ false
      → All (λ z. less z y ≡ false) ys
      → All (λ z. less z x ≡ false) ys
  All-trans x y [] h hs = tt
  All-trans x y (z ∷ zs) h (hz, hs) = (w.trans x y z h hz, All-trans x y zs h hs)

  insert-IsSorted : (x : A) (xs : List A) → IsSorted less xs → IsSorted less (insert less x xs)
  unfolding insert
  insert-IsSorted x [] h = (tt, tt)
  insert-IsSorted x (y ∷ ys) (hy, h) = elim (Bool-cases (less y x)) [
    | inl b ↦
        rw b
          (insert-All less (λ z. less z y ≡ false) x ys (w.asym y x b) hy, insert-IsSorted x ys h)
    | inr b ↦ rw b ((b, All-trans x y ys b hy), (hy, h))
  ]

  pub sort-IsSorted : (xs : List A) → IsSorted less (sort less xs)
  unfolding sort
  sort-IsSorted [] = tt
  sort-IsSorted (x ∷ xs) = insert-IsSorted x (sort less xs) (sort-IsSorted xs)

module _ {ℓ} {A : Type ℓ} ⦃e : Key A⦄ (less : A → A → Bool) where
  elem-insert : (k x : A) (ys : List A) → elem k (insert less x ys) ≡ elem k (x ∷ ys)
  unfolding insert elem
  elem-insert k x [] = refl
  elem-insert k x (y ∷ ys) = ground (arith, elem-insert k x ys)

  pub elem-sort : (k : A) (xs : List A) → elem k (sort less xs) ≡ elem k xs
  unfolding sort elem
  elem-sort k [] = refl
  elem-sort k (x ∷ xs) = ground (arith, elem-insert k x (sort less xs), elem-sort k xs)

  insert-Distinct :
      (x : A) (ys : List A) → elem x ys ≡ false → Distinct ys → Distinct (insert less x ys)
  unfolding insert elem
  insert-Distinct x [] h d = (refl, tt)
  insert-Distinct x (y ∷ ys) h (n, d) =
      ground (arith, insert-Distinct x ys, elem-insert y x ys, e.same_iff x y, e.same_iff y x)

  pub sort-Distinct : (xs : List A) → Distinct xs → Distinct (sort less xs)
  unfolding sort elem
  sort-Distinct [] d = tt
  sort-Distinct (x ∷ xs) (n, d) =
      insert-Distinct x (sort less xs) (elem-sort x xs ∙ n) (sort-Distinct xs d)
