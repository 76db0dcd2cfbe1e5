-- ===== src/Ui/View/Laws.antt =====
-- ui/ui.go: what the filter and the order of the rows keep.
use le_cli.Prelude.{
  Bytes, Bool, true, false, List, [], ◌∷◌, ◌++◌, ◌≡◌, Bool-cases, inl, inr, ◌⊎◌, All, contains,
  codes, join, is_empty, has_prefix, or_true, or_right, ◌||◌, refl, ap, ◌∙◌,
}
use mathlib.Core.List.{Perm}
use mathlib.Core.List.Perm
use le_cli.Prelude.Search.Laws.{has_prefix-append, has_prefix-split}
use le_cli.Prelude.Sort.{sort, sort-perm}
use le_cli.Prelude.Space.{trim_space}
use le_cli.Ui.Items.{is_favorite}
use le_cli.Ui.Row.{Row}
use le_cli.Ui.View.{Viewing, before, with_favorite, sort_view, haystack, matching, apply_filter}

-- Below a row that is not pinned, no row is pinned.
abbrev pub IsPinnedFirst : {F : Type 0} → List Bytes → List (Row F) → Type 0
IsPinnedFirst favs [] = Unit
IsPinnedFirst favs (r ∷ rs) =
    ((is_favorite favs r ≡ true) × IsPinnedFirst favs rs)
    ⊎ All (λ s. is_favorite favs s ≡ false) (r ∷ rs)

module _ {F : Type 0} where
  with_favorite-false :
      (favs : List Bytes) (rs : List (Row F))
      → All (λ s. is_favorite favs s ≡ false) (with_favorite false favs rs)
  unfolding with_favorite
  with_favorite-false favs [] = tt
  with_favorite-false favs (r ∷ rs) = elim (Bool-cases (is_favorite favs r)) [
    | inl e ↦ rw e (with_favorite-false favs rs)
    | inr e ↦ rw e (e, with_favorite-false favs rs)
  ]

  none_pinned :
      (favs : List Bytes) (rs : List (Row F))
      → All (λ s. is_favorite favs s ≡ false) rs
      → IsPinnedFirst favs rs
  none_pinned favs [] h = tt
  none_pinned favs (r ∷ rs) h = inr h

  with_favorite-IsPinnedFirst :
      (favs : List Bytes) (rs rest : List (Row F))
      → All (λ s. is_favorite favs s ≡ false) rest
      → IsPinnedFirst favs (with_favorite true favs rs ++ rest)
  unfolding with_favorite
  with_favorite-IsPinnedFirst favs [] rest h = none_pinned favs rest h
  with_favorite-IsPinnedFirst favs (r ∷ rs) rest h = elim (Bool-cases (is_favorite favs r)) [
    | inl e ↦ rw e (inl (e, with_favorite-IsPinnedFirst favs rs rest h))
    | inr e ↦ rw e (with_favorite-IsPinnedFirst favs rs rest h)
  ]

  move : (x : Row F) (xs ys : List (Row F)) → Perm (xs ++ x ∷ ys) (x ∷ (xs ++ ys))
  move x [] ys = Perm.refl _
  move x (z ∷ xs) ys = Perm.trans (Perm.cons z (move x xs ys)) (Perm.swap _ _ _)

  with_favorite-perm :
      (favs : List Bytes) (rs : List (Row F))
      → Perm (with_favorite true favs rs ++ with_favorite false favs rs) rs
  unfolding with_favorite
  with_favorite-perm favs [] = Perm.refl _
  with_favorite-perm favs (r ∷ rs) = elim (Bool-cases (is_favorite favs r)) [
    | inl e ↦ rw e (Perm.cons r (with_favorite-perm favs rs))
    | inr e ↦ rw e (
        Perm.trans (move r (with_favorite true favs rs) (with_favorite false favs rs))
          (Perm.cons r (with_favorite-perm favs rs)))
  ]

-- The words stand somewhere in the text.
abbrev pub Holds : Bytes → Bytes → Type 0
Holds text words = (a : Bytes) × ((b : Bytes) × (text ≡ a ++ (words ++ b)))

-- The rows of a list that satisfy `P`, each where it stands.
pub data Selects {F : Type 0} (P : Row F → Type 0) : List (Row F) → List (Row F) → Type 0 where
  nothing : Selects P [] []
  kept :
      (r : Row F) (rows found : List (Row F))
      → P r
      → Selects P rows found
      → Selects P (r ∷ rows) (r ∷ found)
  dropped :
      (r : Row F) (rows found : List (Row F))
      → ¬ P r
      → Selects P rows found
      → Selects P (r ∷ rows) found

-- What the filter looks through: the ports, the identity, the command, the command line, the working
-- directory and the source of a row, with a blank between two of them.
abbrev pub searched : {F : Type 0} → Row F → Bytes
searched r =
    join (codes " ") r.l.ports
    ++ (codes " "
        ++ (r.p.identity
            ++ (codes " "
                ++ (r.l.command
                    ++ (codes " "
                        ++ (r.l.command_line
                            ++ (codes " " ++ (r.l.cwd ++ (codes " " ++ r.p.source)))))))))

contains-Holds : (s pat : Bytes) → contains s pat ≡ true → Holds s pat
unfolding contains
contains-Holds [] pat h = let (b, split) = has_prefix-split [] pat h in ([], (b, split))
contains-Holds (c ∷ s) pat h = elim (or_true (has_prefix (c ∷ s) pat) (contains s pat) h) [
  | inl here ↦ let (b, split) = has_prefix-split (c ∷ s) pat here in ([], (b, split))
  | inr later ↦ let (a, (b, e)) = contains-Holds s pat later in (c ∷ a, (b, ap (◌∷◌ c) e))
]

contains_at : (a pat b : Bytes) → contains (a ++ (pat ++ b)) pat ≡ true
unfolding contains
contains_at [] [] [] = unfold has_prefix in refl
contains_at [] [] (c ∷ b) = unfold has_prefix in refl
contains_at [] (p ∷ pat) b =
    ap (λ x. x || contains (pat ++ b) (p ∷ pat)) (has_prefix-append (p ∷ pat) b)
contains_at (c ∷ a) pat b = or_right _ _ (contains_at a pat b)

Holds-contains : (s pat : Bytes) → Holds s pat → contains s pat ≡ true
Holds-contains s pat (a, (b, e)) = ap (λ t. contains t pat) e ∙ contains_at a pat b

module _ {F : Type 0} (lower : Bytes → Bytes) (less_float : F → F → Bool) where
  -- In small letters, the words stand in what is looked through.
  abbrev pub Matches : Bytes → Row F → Type 0
  Matches q r = Holds (lower (searched r)) q

  hit-Matches :
      (q : Bytes) (r : Row F)
      → (is_empty q || contains (haystack lower less_float r) q) ≡ true
      → Matches q r
  unfolding haystack join
  hit-Matches [] r h = ([], (lower (searched r), refl))
  hit-Matches (c ∷ q) r h = contains-Holds (lower (searched r)) (c ∷ q) h

  Matches-hit :
      (q : Bytes) (r : Row F)
      → Matches q r
      → (is_empty q || contains (haystack lower less_float r) q) ≡ true
  unfolding haystack join
  Matches-hit q r h = or_right (is_empty q) _ (Holds-contains (lower (searched r)) q h)

  matching-Selects :
      (q : Bytes) (rows : List (Row F))
      → Selects (Matches q) rows (matching lower less_float q rows)
  unfolding matching
  matching-Selects q [] = nothing
  matching-Selects q (r ∷ rows) =
      let hit = is_empty q || contains (haystack lower less_float r) q in
      elim (Bool-cases hit) [
        | inl e ↦ rw e (kept r rows _ (hit-Matches q r e) (matching-Selects q rows))
        | inr e ↦
            rw e (dropped r rows _ (λ h. let t = Matches-hit q r h in cc) (matching-Selects q rows))
      ]

  -- The view holds the rows whose ports, identity, command, command line, directory and source hold,
  -- in small letters, what is typed into the filter but for blanks around it, each as often as it was
  -- scanned; and the pinned rows stand first.
  pub apply_filter-IsPinnedFirst :
      (m : Viewing) (rows : List (Row F))
      → ((found : List (Row F)) × Selects (Matches (lower (trim_space m.filter))) rows found
          × Perm (apply_filter lower less_float m rows) found)
        × IsPinnedFirst m.favs (apply_filter lower less_float m rows)
  unfolding apply_filter sort_view
  apply_filter-IsPinnedFirst m rows =
      let q = lower (trim_space m.filter) in
      let found = matching lower less_float q rows in
      let sorted = sort (before lower less_float m) found in
      (
        (
          found,
          matching-Selects q rows,
          Perm.trans (with_favorite-perm m.favs sorted)
              (sort-perm (before lower less_float m) found),
        ),
        with_favorite-IsPinnedFirst m.favs sorted (with_favorite false m.favs sorted)
            (with_favorite-false m.favs sorted),
      )
