-- ===== src/Ui/Cursor.antt =====
-- ui/ui.go: the cursor and the window of the list (`selected`, `selection`, `restoreSelection`,
-- `move`, `clamp`, `listHeight`), and `selectedGroup` of ui/group.go.
pub mod Laws
use le_cli.Prelude.{
  ℕ, zero, suc, ◌+◌, ◌%◌, ◌==◌, ltb, within, Bool, true, false, not, ◌&&◌, ◌||◌, if◌then◌else◌,
  Option, none, some, List, [], ◌∷◌, ◌++◌, map, length, take, drop, get_elem?, Bytes, codes, str_eq,
  is_empty, has_prefix, split, join,
}
use Prim.Native.Nat.{ℕ, suc}
use le_cli.Ui.Row.{Row, ListItem, header, entry, same_process}
use le_cli.Prelude.Int.{ℤ, pos, negsuc, ◌+ℤ◌, ltb_ℤ, leb_ℤ, opp, sub_ℕ}

pub record Screen (F : Type 0) : Type 0 where
  pub items : List (ListItem F)
  pub cursor : ℤ
  pub offset : ℤ
  pub height : ℤ
  pub selection_lost : Bool
  pub pane_focus : Bool
  pub pane_idx : ℤ

-- What is selected: lost, nothing, a row, or the group of an owner.
pub data Selection (F : Type 0) : Type 0 where
  lost : Selection F
  nothing : Selection F
  on_row : Row F → Selection F
  on_group : Bytes → Selection F

unfoldable pub item_at : {F : Type 0} → List (ListItem F) → ℤ → Option (ListItem F)
item_at items (pos i) = get_elem? items i
item_at items (negsuc i) = none

abbrev pub row_in : {F : Type 0} → Option (ListItem F) → Option (Row F)
row_in none = none
row_in (some (header owner count hides)) = none
row_in (some (entry r at)) = some r

abbrev pub owner_in : {F : Type 0} → Option (ListItem F) → Option Bytes
owner_in none = none
owner_in (some (header owner count hides)) = some owner
owner_in (some (entry r at)) = none

unfoldable pub selected : {F : Type 0} → Screen F → Option (Row F)
unfolding item_at
selected m = if m.selection_lost then none else row_in (item_at m.items m.cursor)

unfoldable pub selected_group : {F : Type 0} → Screen F → Option Bytes
unfolding item_at
selected_group m = if m.selection_lost then none else owner_in (item_at m.items m.cursor)

unfoldable pub selection : {F : Type 0} → Screen F → Selection F
unfolding selected selected_group
selection m = if m.selection_lost then lost else elim (selected m) [
  | some r ↦ on_row r
  | none ↦ elim (selected_group m) [ some owner ↦ on_group owner | none ↦ nothing ]
]

unfoldable pub matches : {F : Type 0} → Selection F → ListItem F → Bool
matches (on_group owner) (header o count hides) = str_eq o owner
matches (on_row r) (entry s at) = same_process r.l s.l
matches (on_group owner) (entry s at) = false
matches (on_row r) (header o count hides) = false
matches lost it = false
matches nothing it = false

-- The position in a list, from the one in its tail.
abbrev pub later : Option ℕ → Option ℕ
later none = none
later (some i) = some (suc i)

-- The first line that shows the selection.
unfoldable pub find_line : {F : Type 0} → Selection F → List (ListItem F) → Option ℕ
unfolding matches
find_line s [] = none
find_line s (it ∷ items) =
    let rest = find_line s items in if matches s it then some 0 else later rest

unfoldable pub restore_found : {F : Type 0} → Screen F → Option ℕ → Screen F
restore_found m (some i) = record m { cursor = pos i; selection_lost = false }
restore_found m none = record m { selection_lost = true; pane_focus = false }

unfoldable pub restore_selection : {F : Type 0} → Screen F → Selection F → Screen F
unfolding restore_found find_line
restore_selection m lost = record m { selection_lost = true; pane_focus = false }
restore_selection m nothing = m
restore_selection m (on_row r) = restore_found m (find_line (on_row r) m.items)
restore_selection m (on_group owner) = restore_found m (find_line (on_group owner) m.items)

abbrev pub detail_height : ℤ
detail_height = pos 12

unfoldable pub list_height : ℤ → ℤ
list_height h =
    let rows = h +ℤ negsuc 1 +ℤ negsuc 0 +ℤ opp detail_height +ℤ negsuc 0 in
    if ltb_ℤ rows (pos 3) then pos 3 else rows

unfoldable pub clamp_cursor : ℤ → ℕ → ℤ
clamp_cursor cursor items =
    let low = if ltb_ℤ cursor (pos 0) then pos 0 else cursor in
    let high = if ltb_ℤ (sub_ℕ items 1) low then sub_ℕ items 1 else low in
    if ltb_ℤ high (pos 0) then pos 0 else high

unfoldable pub clamp_offset : ℤ → ℤ → ℤ → ℤ
clamp_offset cursor offset rows =
    let up = if ltb_ℤ cursor offset then cursor else offset in
    let down = if leb_ℤ (up +ℤ rows) cursor then cursor +ℤ opp rows +ℤ pos 1 else up in
    if ltb_ℤ down (pos 0) then pos 0 else down

unfoldable pub clamp : {F : Type 0} → Screen F → Screen F
unfolding clamp_cursor clamp_offset list_height selected
clamp m =
    let cursor = clamp_cursor m.cursor (length m.items) in
    record m {
      pane_focus = elim (selected m) [ some r ↦ m.pane_focus | none ↦ false ];
      cursor = cursor;
      offset = clamp_offset cursor m.offset (list_height m.height);
    }

unfoldable pub move : {F : Type 0} → Screen F → ℤ → Screen F
unfolding clamp
move m d = elim m.items [
  | [] ↦ m
  | it ∷ items ↦ clamp (record m { selection_lost = false; cursor = m.cursor +ℤ d })
]
