-- ===== src/Ui/Items.antt =====
-- ui/group.go: `buildItems`, `isCollapsed`, `defaultCollapsed`, and `isFavorite` of
-- ui/favorites.go.
pub mod Laws
pub mod Lines
use le_cli.Prelude.{
  str_eq, ℕ, zero, suc, ◌+◌, Bytes, Bool, true, false, not, ◌&&◌, ◌||◌, ltb, length, List, [], ◌∷◌,
  ◌++◌, map, Option, none, some, if◌then◌else◌,
}
use le_cli.Prelude.Maps.{Map, bytes_eq, lookup, dedup, elem}
use le_cli.Prelude.Space.{all_space}
use le_cli.Ui.Row.{Row, ListItem, header, entry, actionable}

-- The fields of `model` that decide how rows become lines. The favourites are the pinned ports.
pub record Folding : Type 0 where
  pub grouped : Bool
  pub filter : Bytes
  pub favs : List Bytes
  pub collapsed : Map Bytes Bool

unfoldable pub any_pinned : List Bytes → List Bytes → Bool
any_pinned favs [] = false
any_pinned favs (port ∷ ports) = elem port favs || any_pinned favs ports

unfoldable pub is_favorite : {F : Type 0} → List Bytes → Row F → Bool
unfolding any_pinned
is_favorite favs r = any_pinned favs r.l.ports

unfoldable pub any_favorite : {F : Type 0} → List Bytes → List (Row F) → Bool
any_favorite favs [] = false
any_favorite favs (r ∷ rs) = is_favorite favs r || any_favorite favs rs

unfoldable pub any_actionable : {F : Type 0} → List (Row F) → Bool
any_actionable [] = false
any_actionable (r ∷ rs) = actionable r || any_actionable rs

unfoldable pub default_collapsed : {F : Type 0} → List (Row F) → Bool
unfolding any_actionable
default_collapsed rows = if ltb (length rows) 3 then false else not (any_actionable rows)

unfoldable pub is_collapsed : {F : Type 0} → Folding → Bytes → List (Row F) → Bool
unfolding any_favorite
is_collapsed m owner rows =
    if not (all_space m.filter)
    then false
    else if any_favorite m.favs rows
    then false
    else elim (lookup owner m.collapsed) [ some state ↦ state | none ↦ default_collapsed rows ]

abbrev pub owner_of : {F : Type 0} → Row F → Bytes
owner_of r = r.p.source

-- The rows with their positions, from the given one on.
abbrev pub indexed : {F : Type 0} → ℕ → List (Row F) → List (Row F × ℕ)
indexed i [] = []
indexed i (r ∷ rs) = (r, i) ∷ indexed (suc i) rs

abbrev pub entries : {F : Type 0} → List (Row F × ℕ) → List (ListItem F)
entries [] = []
entries ((r, i) ∷ rs) = entry r i ∷ entries rs

-- `byOwner[owner]`
unfoldable pub owned : {F : Type 0} → Bytes → List (Row F × ℕ) → List (Row F × ℕ)
owned owner [] = []
owned owner ((r, i) ∷ rs) =
    if str_eq (owner_of r) owner then (r, i) ∷ owned owner rs else owned owner rs

abbrev pub rows_of : {F : Type 0} → List (Row F × ℕ) → List (Row F)
rows_of [] = []
rows_of ((r, i) ∷ rs) = r ∷ rows_of rs

-- One group: its header, and its rows if it is open.
unfoldable pub group_items : {F : Type 0} → Folding → Bytes → List (Row F × ℕ) → List (ListItem F)
group_items m owner group =
    if is_collapsed m owner (rows_of group)
    then header owner (length group) (length group) ∷ []
    else header owner (length group) 0 ∷ entries group

groups : {F : Type 0} → Folding → List Bytes → List (Row F × ℕ) → List (ListItem F)
unfolding group_items owned
groups m [] rows = []
groups m (owner ∷ owners) rows = group_items m owner (owned owner rows) ++ groups m owners rows

-- The groups stand in the order in which their owners first appear.
unfoldable pub build_items : {F : Type 0} → Folding → List (Row F) → List (ListItem F)
unfolding groups
build_items m view =
    if m.grouped
    then groups m (dedup (map owner_of view)) (indexed 0 view)
    else entries (indexed 0 view)
