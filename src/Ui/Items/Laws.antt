-- ===== src/Ui/Items/Laws.antt =====
-- ui/group.go: the rows shown and hidden by the lines of the list, and lemmas on both.
use le_cli.Prelude.{
  ℕ, suc, ◌+◌, Bytes, true, false, length, get_elem?, List, [], ◌∷◌, ◌++◌, map, some, if◌then◌else◌,
  ◌≡◌, refl, sym, ◌∙◌, ap, arith, All, All-append, Bool-cases, inl, inr, ◌⊎◌, subst,
}
use le_cli.Prelude.Maps.{bytes_eq, elem, Distinct, dedup, dedup-Distinct, elem-dedup, lookup}
use le_cli.Prelude.Space.{all_space}
use le_cli.Prelude.{str_eq_iff}
use le_cli.Ui.Items.{
  Folding, any_favorite, any_actionable, default_collapsed, is_collapsed, owner_of, indexed,
  entries, owned, rows_of, group_items, groups, build_items,
}
use le_cli.Ui.Row.{Row, ListItem, header, entry}

-- The rows on screen, and the rows that the folded groups hide.
abbrev pub shown : {F : Type 0} → List (ListItem F) → ℕ
shown [] = 0
shown (header o c h ∷ items) = shown items
shown (entry r i ∷ items) = suc (shown items)

abbrev pub hidden : {F : Type 0} → List (ListItem F) → ℕ
hidden [] = 0
hidden (header o c h ∷ items) = h + hidden items
hidden (entry r i ∷ items) = hidden items

shown-append : {F : Type 0} (xs ys : List (ListItem F)) → shown (xs ++ ys) ≡ shown xs + shown ys
shown-append [] ys = omega arith
shown-append (header o c h ∷ xs) ys = shown-append xs ys
shown-append (entry r i ∷ xs) ys = omega (arith, shown-append xs ys)

hidden-append : {F : Type 0} (xs ys : List (ListItem F)) → hidden (xs ++ ys) ≡ hidden xs + hidden ys
hidden-append [] ys = omega arith
hidden-append (header o c h ∷ xs) ys = omega (arith, hidden-append xs ys)
hidden-append (entry r i ∷ xs) ys = hidden-append xs ys

entries_count :
    {F : Type 0} (rows : List (Row F × ℕ))
    → (shown (entries rows) ≡ length rows) × (hidden (entries rows) ≡ 0)
entries_count [] = (refl, refl)
entries_count ((r, i) ∷ rows) = (ap suc (entries_count rows).0, (entries_count rows).1)

length-indexed : {F : Type 0} (i : ℕ) (rows : List (Row F)) → length (indexed i rows) ≡ length rows
length-indexed i [] = refl
length-indexed i (r ∷ rows) = ap suc (length-indexed (suc i) rows)

-- The rows whose owner is one of these.
abbrev members : {F : Type 0} → List Bytes → List (Row F × ℕ) → ℕ
members os [] = 0
members os ((r, i) ∷ rows) = (if elem (owner_of r) os then 1 else 0) + members os rows

no_members : {F : Type 0} (rows : List (Row F × ℕ)) → members [] rows ≡ 0
unfolding elem
no_members [] = refl
no_members ((r, i) ∷ rows) = omega (arith, no_members rows)

members_cons :
    {F : Type 0} (o : Bytes) (os : List Bytes) (rows : List (Row F × ℕ))
    → elem o os ≡ false
    → members (o ∷ os) rows ≡ length (owned o rows) + members os rows
unfolding owned elem
members_cons o os [] n = refl
members_cons o os ((r, i) ∷ rows) n =
    ground (arith, members_cons o os rows n, str_eq_iff (owner_of r) o, str_eq_iff o (owner_of r))

members_all :
    {F : Type 0} (os : List Bytes) (i : ℕ) (view : List (Row F))
    → ((k : Bytes) → elem k (map owner_of view) ≡ true → elem k os ≡ true)
    → members os (indexed i view) ≡ length view
unfolding elem
members_all os i [] h = refl
members_all os i (r ∷ view) h = ground (
  arith,
  members_all os (suc i) view (λ k e. h k (ground arith)),
  h (owner_of r),
  str_eq_iff (owner_of r) (owner_of r),
)

module _ {F : Type 0} (m : Folding) where
  group_items_count :
      (owner : Bytes) (group : List (Row F × ℕ))
      → shown (group_items m owner group) + hidden (group_items m owner group) ≡ length group
  unfolding group_items
  group_items_count owner group = ground (arith, (entries_count group).0, (entries_count group).1)

  groups_count :
      (os : List Bytes) (rows : List (Row F × ℕ))
      → Distinct os
      → shown (groups m os rows) + hidden (groups m os rows) ≡ members os rows
  unfolding groups
  groups_count [] rows d = sym (no_members rows)
  groups_count (o ∷ os) rows (n, d) = omega (
    arith,
    shown-append (group_items m o (owned o rows)) (groups m os rows),
    hidden-append (group_items m o (owned o rows)) (groups m os rows),
    group_items_count o (owned o rows),
    groups_count os rows d,
    members_cons o os rows n,
  )

  -- Every row of the view is a line of its own or is counted as hidden by a folded group.
  pub build_items_count :
      (view : List (Row F)) → shown (build_items m view) + hidden (build_items m view) ≡ length view
  unfolding build_items
  build_items_count view = elim (Bool-cases m.grouped) [
    | inl g ↦ simp g (
        groups_count (dedup (map owner_of view)) (indexed 0 view)
          (dedup-Distinct (map owner_of view))
        ∙ members_all (dedup (map owner_of view)) 0 view
            (λ k e. elem-dedup k (map owner_of view) ∙ e))
    | inr g ↦ simp g (
        omega (
          arith,
          (entries_count (indexed 0 view)).0,
          (entries_count (indexed 0 view)).1,
          length-indexed 0 view,
        ))
  ]

  group_items_search :
      (owner : Bytes) (group : List (Row F × ℕ))
      → all_space m.filter ≡ false
      → hidden (group_items m owner group) ≡ 0
  unfolding group_items is_collapsed
  group_items_search owner group typed = ground (arith, (entries_count group).1)

  groups_search :
      (os : List Bytes) (rows : List (Row F × ℕ))
      → all_space m.filter ≡ false
      → hidden (groups m os rows) ≡ 0
  unfolding groups
  groups_search [] rows typed = refl
  groups_search (o ∷ os) rows typed = omega (
    arith,
    hidden-append (group_items m o (owned o rows)) (groups m os rows),
    group_items_search o (owned o rows) typed,
    groups_search os rows typed,
  )

  -- While something is typed into the filter, every row of the view is a line of its own.
  pub build_items_search :
      (view : List (Row F)) → all_space m.filter ≡ false → shown (build_items m view) ≡ length view
  unfolding build_items
  build_items_search view typed = ground (
    arith,
    build_items_count view,
    groups_search (dedup (map owner_of view)) (indexed 0 view) typed,
    (entries_count (indexed 0 view)).1,
  )

  -- Every row of the view is a line of its own or is counted as hidden by a folded group; while
  -- something is typed into the filter, none is hidden.
  pub build_items_complete :
      (view : List (Row F))
      → shown (build_items m view) + (if all_space m.filter then hidden (build_items m view) else 0)
        ≡ length view
  build_items_complete view = elim (Bool-cases (all_space m.filter)) [
    | inl e ↦ rw e (build_items_count view)
    | inr e ↦
        let z : shown (build_items m view) + 0 ≡ shown (build_items m view) = omega arith in
        rw e (z ∙ build_items_search view e)
  ]

-- A line that shows a row shows the one that the view has at that position. A header counts the
-- rows of its owner, and hides none of them, or all: then nothing is typed into the filter, none of
-- them is pinned, and the user has folded the group or nothing in it can be acted on.
abbrev pub IsHonest : {F : Type 0} → Folding → List (Row F) → ListItem F → Type 0
IsHonest m view (entry r i) = get_elem? view i ≡ some r
IsHonest m view (header o c h) =
    (c ≡ length (owned o (indexed 0 view)))
    × ((h ≡ 0)
        ⊎ ((h ≡ c)
            × (all_space m.filter ≡ true)
            × (any_favorite m.favs (rows_of (owned o (indexed 0 view))) ≡ false)
            × ((lookup o m.collapsed ≡ some true)
                ⊎ (any_actionable (rows_of (owned o (indexed 0 view))) ≡ false))))

abbrev Placed : {F : Type 0} → List (Row F) → Row F × ℕ → Type 0
Placed view (r, i) = get_elem? view i ≡ some r

indexed-Placed :
    {F : Type 0} (view : List (Row F)) (j : ℕ) (rows : List (Row F))
    → ((i : ℕ) → get_elem? view (j + i) ≡ get_elem? rows i)
    → All (Placed view) (indexed j rows)
indexed-Placed view j [] h = tt
indexed-Placed view j (r ∷ rows) h = (
  subst (λ n. get_elem? view n ≡ some r) (omega arith) (h 0),
  indexed-Placed view (suc j) rows
      (λ i. subst (λ n. get_elem? view n ≡ get_elem? rows i) (omega arith) (h (suc i))),
)

owned-Placed :
    {F : Type 0} (view : List (Row F)) (o : Bytes) (rows : List (Row F × ℕ))
    → All (Placed view) rows
    → All (Placed view) (owned o rows)
unfolding owned
owned-Placed view o [] h = tt
owned-Placed view o ((r, i) ∷ rows) (p, h) = ground (arith, owned-Placed view o rows h)

entries-IsHonest :
    {F : Type 0} (m : Folding) (view : List (Row F)) (rows : List (Row F × ℕ))
    → All (Placed view) rows
    → All (IsHonest m view) (entries rows)
entries-IsHonest m view [] h = tt
entries-IsHonest m view ((r, i) ∷ rows) (p, h) = (p, entries-IsHonest m view rows h)

module _ {F : Type 0} (m : Folding) (view : List (Row F)) where
  collapsed_why :
      (o : Bytes) (rows : List (Row F))
      → is_collapsed m o rows ≡ true
      → (all_space m.filter ≡ true)
        × (any_favorite m.favs rows ≡ false)
        × ((lookup o m.collapsed ≡ some true) ⊎ (any_actionable rows ≡ false))
  unfolding is_collapsed default_collapsed
  collapsed_why o rows h = (
    ground arith,
    ground arith,
    elim (Bool-cases (any_actionable rows)) [ inl a ↦ inl (ground arith) | inr a ↦ inr a ],
  )

  groups-IsHonest :
      (os : List Bytes)
      → All (Placed view) (indexed 0 view)
      → All (IsHonest m view) (groups m os (indexed 0 view))
  unfolding groups group_items
  groups-IsHonest [] placed = tt
  groups-IsHonest (o ∷ os) placed =
      let group = owned o (indexed 0 view) in
      let rest = groups-IsHonest os placed in
      elim (Bool-cases (is_collapsed m o (rows_of group))) [
        | inl b ↦
            let (blank, unpinned, why) = collapsed_why o (rows_of group) b in
            rw b ((refl, inr (refl, blank, unpinned, why)), rest)
        | inr b ↦ rw b (
          (refl, inl refl),
          All-append (IsHonest m view) (entries group) (groups m os (indexed 0 view))
              (entries-IsHonest m view group (owned-Placed view o (indexed 0 view) placed)) rest,
        )
      ]

  -- Every line that `buildItems` makes is honest. One that shows a row shows the one that the view
  -- has at its position. A header counts the rows of its owner, and hides none of them, or all:
  -- then nothing is typed into the filter, none of them is pinned, and the user has folded the
  -- group or nothing in it can be acted on.
  pub build_items-IsHonest : All (IsHonest m view) (build_items m view)
  unfolding build_items
  build_items-IsHonest =
      let placed =
        indexed-Placed view 0 view
          (λ i. subst (λ n. get_elem? view n ≡ get_elem? view i) (omega arith) refl) in
      elim (Bool-cases m.grouped) [
        | inl g ↦ simp g (groups-IsHonest (dedup (map owner_of view)) placed)
        | inr g ↦ simp g (entries-IsHonest m view (indexed 0 view) placed)
      ]
