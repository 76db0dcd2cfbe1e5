-- ===== src/Ui/Cursor/Laws.antt =====
-- ui/ui.go: lemmas on the cursor, the window and the restored selection.
use le_cli.Prelude.{
  ℕ, zero, suc, ◌≢◌, Option-cases, ◌<◌, max, ◌-◌, Bool, true, false, ◌||◌, if◌then◌else◌, Option,
  none, some, List, [], ◌∷◌, length, get_elem?, ◌≡◌, refl, arith, ◌⊎◌, inl, inr, ◌-◌, Bool-cases,
  ltb→lt, Option-cases,
}
use le_cli.Prelude.Int.{
  ℤ, pos, ◌+ℤ◌, ◌≤ℤ◌, ltb_ℤ, leb_ℤ, opp, add_parts, opp_parts, ltb-false, leb-false,
}
use le_cli.Ui.Row.{Row, ListItem, header, entry, same_process}
use le_cli.Ui.Cursor.{
  Screen, on_row, item_at, row_in, selected, selection, matches, find_line, later, restore_found,
  restore_selection, list_height, clamp_cursor, clamp_offset, clamp,
}

-- At least three lines are shown.
list_height_least : (h : ℤ) → pos 3 ≤ℤ list_height h
unfolding list_height ◌+ℤ◌
list_height_least h = ground arith

clamp_cursor_range :
    (c : ℤ) (n : ℕ) → (pos 0 ≤ℤ clamp_cursor c n) × (clamp_cursor c n ≤ℤ pos (max 1 n - 1))
unfolding clamp_cursor ◌+ℤ◌
clamp_cursor_range c n = ground arith

clip_range :
    (c d rows : ℤ)
    → pos 0 ≤ℤ c
    → pos 1 ≤ℤ rows
    → d ≤ℤ c
    → c +ℤ pos 1 ≤ℤ d +ℤ rows
    → let e = if ltb_ℤ d (pos 0) then pos 0 else d in
      (pos 0 ≤ℤ e) × (e ≤ℤ c) × (c +ℤ pos 1 ≤ℤ e +ℤ rows)
clip_range c d rows h k l m = elim (Bool-cases (ltb_ℤ d (pos 0))) [
  | inl e ↦ rw e (
    omega arith,
    h,
    omega (arith, ltb→lt _ _ e, add_parts c (pos 1), add_parts (pos 0) rows, add_parts d rows),
  )
  | inr e ↦ rw e (omega (arith, ltb-false _ _ e), l, m)
]

-- The first line of a window that ends with the given one.
ending_range :
    (c rows : ℤ)
    → pos 1 ≤ℤ rows
    → let d = c +ℤ opp rows +ℤ pos 1 in (d ≤ℤ c) × (c +ℤ pos 1 ≤ℤ d +ℤ rows)
ending_range c rows k = (
  omega (arith, add_parts c (opp rows), opp_parts rows, add_parts (c +ℤ opp rows) (pos 1)),
  omega (
    arith,
    add_parts c (opp rows),
    opp_parts rows,
    add_parts (c +ℤ opp rows) (pos 1),
    add_parts c (pos 1),
    add_parts (c +ℤ opp rows +ℤ pos 1) rows,
  ),
)

scroll_range :
    (c up rows : ℤ)
    → pos 1 ≤ℤ rows
    → up ≤ℤ c
    → let down = if leb_ℤ (up +ℤ rows) c then c +ℤ opp rows +ℤ pos 1 else up in
      (down ≤ℤ c) × (c +ℤ pos 1 ≤ℤ down +ℤ rows)
scroll_range c up rows k l = elim (Bool-cases (leb_ℤ (up +ℤ rows) c)) [
  | inl e ↦ rw e (ending_range c rows k)
  | inr e ↦ rw e (l, omega (arith, leb-false _ _ e, add_parts c (pos 1), add_parts up rows))
]

min_range : (c o : ℤ) → (if ltb_ℤ c o then c else o) ≤ℤ c
min_range c o = ground arith

clamp_offset_range :
    (c o rows : ℤ)
    → pos 0 ≤ℤ c
    → pos 1 ≤ℤ rows
    → let d = clamp_offset c o rows in (pos 0 ≤ℤ d) × (d ≤ℤ c) × (c +ℤ pos 1 ≤ℤ d +ℤ rows)
unfolding clamp_offset
clamp_offset_range c o rows h k =
    let up = if ltb_ℤ c o then c else o in
    let (l, m) = scroll_range c up rows k (min_range c o) in
    clip_range c (if leb_ℤ (up +ℤ rows) c then c +ℤ opp rows +ℤ pos 1 else up) rows h k l m

-- After any clamping the cursor is on a line, or at the top of an empty list, and the window, which
-- starts at no negative line, shows it.
clamp_window :
    {F : Type 0} (m : Screen F)
    → let n = clamp m in
      (pos 0 ≤ℤ n.cursor)
      × (n.cursor ≤ℤ pos (max 1 (length m.items) - 1))
      × (pos 0 ≤ℤ n.offset)
      × (n.offset ≤ℤ n.cursor)
      × (n.cursor +ℤ pos 1 ≤ℤ n.offset +ℤ list_height m.height)
unfolding clamp
clamp_window m =
    let range = clamp_cursor_range m.cursor (length m.items) in
    let window =
      clamp_offset_range (clamp_cursor m.cursor (length m.items)) m.offset (list_height m.height)
        range.0 (omega (arith, list_height_least m.height)) in
    (range.0, range.1, window.0, window.1, window.2)

-- A cursor that is on a line stays there.
clamp_cursor_on : (i n : ℕ) → i < n → clamp_cursor (pos i) n ≡ pos i
unfolding clamp_cursor
clamp_cursor_on i n h = ground arith

-- Whether a line shows the process of the row.
abbrev pub shows : {F : Type 0} → Row F → List (ListItem F) → Bool
shows r [] = false
shows r (header owner count hides ∷ items) = shows r items
shows r (entry s at ∷ items) = same_process r.l s.l || shows r items

later_none : (i : ℕ) → none ≢ some i
later_none i = ground arith

later_zero : (j : ℕ) → some (suc j) ≢ some 0
later_zero j = ground arith

some_zero : (i : ℕ) → some 0 ≢ some (suc i)
some_zero i = ground arith

-- The line at a position shows the process of the row.
abbrev pub ShowsAt : {F : Type 0} → Row F → List (ListItem F) → ℕ → Type 0
ShowsAt {F = F} r items i =
    (s : Row F) × ((row_in (get_elem? items i) ≡ some s)
      × (same_process r.l s.l ≡ true)
      × (i < length items))

-- A line that is found behind the first.
behind :
    {F : Type 0} (r : Row F) (it : ListItem F) (items : List (ListItem F)) (o : Option ℕ) (i : ℕ)
    → later o ≡ some i
    → ((j : ℕ) → o ≡ some j → ShowsAt r items j)
    → ShowsAt r (it ∷ items) i
behind r it items none i h below = elim (later_none i h) [ ]
behind r it items (some j) zero h below = elim (later_zero j h) [ ]
behind r it items (some j) (suc i) h below =
    let (s, (a, b, c)) = below i (ground arith) in (s, (a, b, omega (arith, c)))

top :
    {F : Type 0} (r s : Row F) (at : ℕ) (items : List (ListItem F)) (i : ℕ)
    → same_process r.l s.l ≡ true
    → some 0 ≡ some i
    → ShowsAt r (entry s at ∷ items) i
top r s at items zero e h = (s, (refl, e, omega arith))
top r s at items (suc i) e h = elim (some_zero i h) [ ]

find_line-some :
    {F : Type 0} (r : Row F) (items : List (ListItem F)) (i : ℕ)
    → find_line (on_row r) items ≡ some i
    → ShowsAt r items i
unfolding find_line matches
find_line-some r [] i h = elim (later_none i h) [ ]
find_line-some r (header owner count hides ∷ items) i h =
    behind r (header owner count hides) items _ i h (find_line-some r items)
find_line-some r (entry s at ∷ items) i h = elim (Bool-cases (same_process r.l s.l)) [
  | inl e ↦ top r s at items i e (rw e at h)
  | inr e ↦ behind r (entry s at) items _ i (rw e at h) (find_line-some r items)
]

find_line-none :
    {F : Type 0} (r : Row F) (items : List (ListItem F))
    → find_line (on_row r) items ≡ none
    → shows r items ≡ false
unfolding find_line matches
find_line-none r [] h = refl
find_line-none r (header owner count hides ∷ items) h = ground (arith, find_line-none r items)
find_line-none r (entry s at ∷ items) h = ground (arith, find_line-none r items)

selection_row :
    {F : Type 0} (m : Screen F) (r : Row F) → selected m ≡ some r → selection m ≡ on_row r
unfolding selection selected
selection_row m r h = ground arith

-- A row on which the cursor is put stays selected when the list is clamped.
selected_at :
    {F : Type 0} (n : Screen F) (r : Row F) (i : ℕ)
    → row_in (get_elem? n.items i) ≡ some r
    → i < length n.items
    → selected (clamp (record n { cursor = pos i; selection_lost = false })) ≡ some r
unfolding selected item_at clamp
selected_at n r i h k = rw (clamp_cursor_on i (length n.items) k, h) refl

selected_lost :
    {F : Type 0} (n : Screen F)
    → selected (clamp (record n { selection_lost = true; pane_focus = false })) ≡ none
unfolding selected clamp
selected_lost n = refl

-- After the rows on the screen are replaced, the selection is restored and the list is clamped, the
-- selected row, if there is one, is of the same process as the row selected before, and if nothing
-- is selected, no line
-- of the new list shows that process.
pub restore_selection-follows :
    {F : Type 0} (m n : Screen F) (r : Row F)
    → selected m ≡ some r
    → let after = clamp (restore_selection n (selection m)) in
      ((s : Row F) × ((selected after ≡ some s) × (same_process r.l s.l ≡ true)))
      ⊎ ((selected after ≡ none) × (shows r n.items ≡ false))
unfolding restore_selection restore_found
restore_selection-follows m n r h =
    rw (selection_row m r h) (elim (Option-cases (find_line (on_row r) n.items)) [
      | inl e ↦ rw e (inr (selected_lost n, find_line-none r n.items e))
      | inr (i, e) ↦
          let (s, (a, b, c)) = find_line-some r n.items i e in
          rw e (inl (s, (selected_at n s i a c, b)))
    ])
