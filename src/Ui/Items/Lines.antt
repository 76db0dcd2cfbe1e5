-- ===== src/Ui/Items/Lines.antt =====
-- ui/group.go: which row of the view has which line of the list.
use le_cli.Prelude.{
  ℕ, zero, suc, ◌+◌, ◌<◌, Bytes, Bool, true, false, length, get_elem?, List, [], ◌∷◌, ◌++◌, map,
  some, if◌then◌else◌, ◌==◌, str_eq, str_eq_iff, ◌≡◌, refl, sym, ◌∙◌, ap, arith, Bool-cases, inl,
  inr, subst, ◌||◌,
}
use le_cli.Prelude.Maps.{bytes_eq, elem, Distinct, dedup, dedup-Distinct, elem-dedup}
use le_cli.Prelude.Space.{all_space}
use le_cli.Ui.Items.{
  Folding, is_collapsed, owner_of, indexed, entries, owned, rows_of, group_items, groups,
  build_items,
}
use le_cli.Ui.Items.Laws.{
  shown, hidden, build_items_complete, build_items_count, build_items_search,
}
use le_cli.Ui.Row.{Row, ListItem, header, entry}

-- How many lines show the row at a position of the view.
abbrev pub lines_of : {F : Type 0} → ℕ → List (ListItem F) → ℕ
lines_of i [] = 0
lines_of i (header o c h ∷ items) = lines_of i items
lines_of i (entry r j ∷ items) = (if j == i then 1 else 0) + lines_of i items

-- How many headers of an owner hide rows.
abbrev pub folds : {F : Type 0} → Bytes → List (ListItem F) → ℕ
folds owner [] = 0
folds owner (header o c h ∷ items) =
    (if str_eq o owner then (if h == 0 then 0 else 1) else 0) + folds owner items
folds owner (entry r j ∷ items) = folds owner items

-- How often a position stands among pairs of a row and its position.
abbrev places : {F : Type 0} → ℕ → List (Row F × ℕ) → ℕ
places i [] = 0
places i ((r, j) ∷ rows) = (if j == i then 1 else 0) + places i rows

lines_of-append :
    {F : Type 0} (i : ℕ) (xs ys : List (ListItem F))
    → lines_of i (xs ++ ys) ≡ lines_of i xs + lines_of i ys
lines_of-append i [] ys = omega arith
lines_of-append i (header o c h ∷ xs) ys = lines_of-append i xs ys
lines_of-append i (entry r j ∷ xs) ys = omega (arith, lines_of-append i xs ys)

folds-append :
    {F : Type 0} (o : Bytes) (xs ys : List (ListItem F))
    → folds o (xs ++ ys) ≡ folds o xs + folds o ys
folds-append o [] ys = omega arith
folds-append o (header p c h ∷ xs) ys = omega (arith, folds-append o xs ys)
folds-append o (entry r j ∷ xs) ys = folds-append o xs ys

entries_lines :
    {F : Type 0} (i : ℕ) (o : Bytes) (rows : List (Row F × ℕ))
    → (lines_of i (entries rows) ≡ places i rows) × (folds o (entries rows) ≡ 0)
entries_lines i o [] = (refl, refl)
entries_lines i o ((r, j) ∷ rows) =
    (ap (λ n. (if j == i then 1 else 0) + n) (entries_lines i o rows).0, (entries_lines i o rows).1)

places-length : {F : Type 0} (i : ℕ) (rows : List (Row F × ℕ)) → length rows ≡ 0 → places i rows ≡ 0
places-length i [] h = refl
places-length i ((r, j) ∷ rows) h = omega (arith, h)

places_early : {F : Type 0} (i j : ℕ) (view : List (Row F)) → i < j → places i (indexed j view) ≡ 0
places_early i j [] h = refl
places_early i j (r ∷ view) h =
    let rest = places_early i (suc j) view (omega (arith, h)) in ground (arith, rest, h)

owned_early :
    {F : Type 0} (o : Bytes) (i j : ℕ) (view : List (Row F))
    → i < j
    → places i (owned o (indexed j view)) ≡ 0
unfolding owned
owned_early o i j [] h = refl
owned_early o i j (r ∷ view) h =
    let rest = owned_early o i (suc j) view (omega (arith, h)) in ground (arith, rest, h)

-- Each position stands once.
indexed_place :
    {F : Type 0} (k j : ℕ) (view : List (Row F)) (r : Row F)
    → get_elem? view k ≡ some r
    → places (j + k) (indexed j view) ≡ 1
indexed_place k j [] r h = ground (arith, h)
indexed_place zero j (s ∷ view) r h =
    let rest = places_early (j + 0) (suc j) view (omega arith) in ground (arith, rest)
indexed_place (suc k) j (s ∷ view) r h =
    let rest : places (j + suc k) (indexed (suc j) view) ≡ 1 =
      subst (λ n. places n (indexed (suc j) view) ≡ 1) (omega arith)
        (indexed_place k (suc j) view r h) in
    ground (arith, rest)

-- It stands among the rows of the owner of its row.
owned_place :
    {F : Type 0} (o : Bytes) (k j : ℕ) (view : List (Row F)) (r : Row F)
    → get_elem? view k ≡ some r
    → places (j + k) (owned o (indexed j view)) ≡ (if str_eq (owner_of r) o then 1 else 0)
unfolding owned
owned_place o k j [] r h = ground (arith, h)
owned_place o zero j (s ∷ view) r h =
    let rest = owned_early o (j + 0) (suc j) view (omega arith) in
    let same : owner_of s ≡ owner_of r = ap owner_of (one h) in rw (sym same) (ground (arith, rest))
  where
    one : some s ≡ some r → s ≡ r
    one e = cc
owned_place o (suc k) j (s ∷ view) r h =
    let rest : places (j + suc k) (owned o (indexed (suc j) view))
        ≡ (if str_eq (owner_of r) o then 1 else 0) =
      subst
        (λ n. places n (owned o (indexed (suc j) view)) ≡ (if str_eq (owner_of r) o then 1 else 0))
        (omega arith) (owned_place o k (suc j) view r h) in
    ground (arith, rest)

elem-owners :
    {F : Type 0} (k : ℕ) (view : List (Row F)) (r : Row F)
    → get_elem? view k ≡ some r
    → elem (owner_of r) (map owner_of view) ≡ true
unfolding elem
elem-owners k [] r h = ground (arith, h)
elem-owners zero (s ∷ view) r h =
    let same : s ≡ r = cc in
    let e : str_eq (owner_of s) (owner_of r) ≡ true =
      (str_eq_iff (owner_of s) (owner_of r)).1 (ap owner_of same) in
    ground (arith, e)
elem-owners (suc k) (s ∷ view) r h = ground (arith, elem-owners k view r h)

module _ {F : Type 0} (m : Folding) (i : ℕ) (owner : Bytes) where
  -- The lines and the folds of one group.
  group_items_lines :
      (o : Bytes) (group : List (Row F × ℕ))
      → places i group ≡ (if str_eq owner o then 1 else 0)
      → lines_of i (group_items m o group) + folds owner (group_items m o group)
        ≡ (if str_eq owner o then 1 else 0)
  unfolding group_items
  group_items_lines o group h = elim (Bool-cases (is_collapsed m o (rows_of group))) [
    | inl c ↦
        rw c (ground (arith, h, places-length i group, str_eq_iff o owner, str_eq_iff owner o))
    | inr c ↦
        rw c (ground (arith, h, (entries_lines i owner group).0, (entries_lines i owner group).1))
  ]

  groups_lines :
      (os : List Bytes) (rows : List (Row F × ℕ))
      → Distinct os
      → ((o : Bytes) → places i (owned o rows) ≡ (if str_eq owner o then 1 else 0))
      → lines_of i (groups m os rows) + folds owner (groups m os rows)
        ≡ (if elem owner os then 1 else 0)
  unfolding groups elem
  groups_lines [] rows d h = refl
  groups_lines (o ∷ os) rows (new, d) h =
      let first = group_items_lines o (owned o rows) (h o) in
      let rest = groups_lines os rows d h in
      let lines = lines_of-append i (group_items m o (owned o rows)) (groups m os rows) in
      let folded = folds-append owner (group_items m o (owned o rows)) (groups m os rows) in
      let one : lines_of i (group_items m o (owned o rows) ++ groups m os rows)
            + folds owner (group_items m o (owned o rows) ++ groups m os rows)
          ≡ (if str_eq owner o then 1 else 0) + (if elem owner os then 1 else 0) =
        omega (arith, first, rest, lines, folded) in
      one
      ∙ once (str_eq owner o) (str_eq o owner) (elem owner os)
          (λ e. (str_eq_iff o owner).1 (sym ((str_eq_iff owner o).0 e)))
          (λ e. (str_eq_iff owner o).1 (sym ((str_eq_iff o owner).0 e)))
          (λ e. ap (λ k. elem k os) ((str_eq_iff owner o).0 e) ∙ new)
    where
      once :
          (a b c : Bool)
          → (a ≡ true → b ≡ true)
          → (b ≡ true → a ≡ true)
          → (a ≡ true → c ≡ false)
          → (if a then 1 else 0) + (if c then 1 else 0) ≡ (if b || c then 1 else 0)
      once a b c f g n = ground (arith, f, g, n)

no_folds :
    {F : Type 0} (o : Bytes) (items : List (ListItem F)) → hidden items ≡ 0 → folds o items ≡ 0
no_folds o [] h = refl
no_folds o (header p c n ∷ items) h =
    let rest = no_folds o items (omega (arith, h)) in ground (arith, h, rest)
no_folds o (entry r j ∷ items) h = no_folds o items h

module _ {F : Type 0} (m : Folding) (view : List (Row F)) where
  build_items_lines :
      (i : ℕ) (r : Row F)
      → get_elem? view i ≡ some r
      → lines_of i (build_items m view) + folds (owner_of r) (build_items m view) ≡ 1
  unfolding build_items
  build_items_lines i r h =
      let from_zero : 0 + i ≡ i = omega arith in
      elim (Bool-cases m.grouped) [
        | inl g ↦
            let there : elem (owner_of r) (dedup (map owner_of view)) ≡ true =
              elem-dedup (owner_of r) (map owner_of view) ∙ elem-owners i view r h in
            simp g (
              groups_lines m i (owner_of r) (dedup (map owner_of view)) (indexed 0 view)
                (dedup-Distinct (map owner_of view))
                (λ o.
                  subst
                    (λ n.
                      places n (owned o (indexed 0 view))
                      ≡ (if str_eq (owner_of r) o then 1 else 0))
                    from_zero (owned_place o i 0 view r h))
              ∙ ap (λ b. if b then 1 else 0) there)
        | inr g ↦ simp g (
            omega (
              arith,
              (entries_lines i (owner_of r) (indexed 0 view)).0,
              (entries_lines i (owner_of r) (indexed 0 view)).1,
              subst (λ n. places n (indexed 0 view) ≡ 1) from_zero (indexed_place i 0 view r h),
            ))
      ]

  -- Every row of the view, by its position, has just one line of its own, or none, and then one
  -- header of its owner is folded; while something is typed into the filter, each has its line. The
  -- lines that show rows, and what the headers hide while nothing is typed, add up to the rows.
  pub build_items-lines_of :
      (shown (build_items m view) + (if all_space m.filter then hidden (build_items m view) else 0)
        ≡ length view)
      × ((i : ℕ) (r : Row F)
          → get_elem? view i ≡ some r
          → lines_of i (build_items m view)
              + (if all_space m.filter then folds (owner_of r) (build_items m view) else 0)
            ≡ 1)
  build_items-lines_of = (
    build_items_complete m view,
    λ i r h. elim (Bool-cases (all_space m.filter)) [
      | inl e ↦ rw e (build_items_lines i r h)
      | inr e ↦
          let none_hidden : hidden (build_items m view) ≡ 0 =
            omega (arith, build_items_count m view, build_items_search m view e) in
          rw e (
            omega (
              arith,
              build_items_lines i r h,
              no_folds (owner_of r) (build_items m view) none_hidden,
            ))
    ],
  )
