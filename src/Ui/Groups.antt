-- ===== src/Ui/Groups.antt =====
-- ui/group.go: folding groups, and the text of a folded one.
use le_cli.Prelude.{
  ℕ, zero, suc, ◌+◌, ◌-◌, Bytes, codes, join, str_eq, Bool, true, false, not, ◌&&◌, ◌||◌, length,
  take, ltb, List, [], ◌∷◌, ◌++◌, if◌then◌else◌, ◌==◌,
}
use le_cli.Prelude.Decimal.{itoa}
use le_cli.Prelude.Int.{pos, ltb_ℤ}
use le_cli.Prelude.Maps.{Map, bytes_eq, insert}
use le_cli.Prelude.Sort
use le_cli.Ui.Items.{Folding, is_collapsed, owner_of}
use le_cli.Ui.Row.{Row, ListItem, header, entry}
use le_cli.Ui.View.{first_port_num}

unfoldable pub rows_owned : {F : Type 0} → Bytes → List (Row F) → List (Row F)
unfolding str_eq
rows_owned owner [] = []
rows_owned owner (r ∷ rs) =
    let rest = rows_owned owner rs in if str_eq (owner_of r) owner then r ∷ rest else rest

-- `toggleGroup`, up to the lines that are built anew
unfoldable pub toggle_group : {F : Type 0} → Folding → List (Row F) → Bytes → Folding
unfolding insert rows_owned
toggle_group m view owner = record m {
  collapsed = insert owner (not (is_collapsed m owner (rows_owned owner view))) m.collapsed;
}

fold_each : {F : Type 0} → Bool → Map Bytes Bool → List (Row F) → Map Bytes Bool
unfolding insert
fold_each state m [] = m
fold_each state m (r ∷ rs) = fold_each state (insert (owner_of r) state m) rs

-- `setAllGroups`, likewise
unfoldable pub set_all_groups : {F : Type 0} → Folding → List (Row F) → Bool → Folding
unfolding fold_each
set_all_groups m view state = record m { collapsed = fold_each state [] view }

-- `anyExpanded`
unfoldable pub any_expanded : {F : Type 0} → List (ListItem F) → Bool
any_expanded [] = false
any_expanded (header owner count hidden ∷ items) = hidden == 0 || any_expanded items
any_expanded (entry r i ∷ items) = any_expanded items

all_ports : {F : Type 0} → List (Row F) → List Bytes
all_ports [] = []
all_ports (r ∷ rs) = r.l.ports ++ all_ports rs

abbrev earlier_port : Bytes → Bytes → Bool
earlier_port p q = ltb_ℤ (first_port_num (p ∷ [])) (first_port_num (q ∷ []))

abbrev max_shown : ℕ
max_shown = 6

-- `summarize`
unfoldable pub summarize : {F : Type 0} → List (Row F) → Bytes → Bytes
unfolding rows_owned all_ports le_cli.Prelude.Sort.sort first_port_num itoa join
summarize view owner =
    let ports = le_cli.Prelude.Sort.sort earlier_port (all_ports (rows_owned owner view)) in
    let shown = join (codes ", ") (take max_shown ports) in
    if ltb max_shown (length ports)
    then shown ++ (codes ", +" ++ itoa (pos (length ports - max_shown)))
    else shown
