-- ===== src/Ui/View.antt =====
-- ui/ui.go: the filter and the order of the rows, and pinning. `strings.ToLower`, which here meets
-- letters beyond ASCII, and the order of `float64` are parameters.
pub mod Laws
use le_cli.Prelude.{
  ℕ, ◌^◌, Bytes, codes, contains, is_empty, join, str_eq, Bool, true, false, not, ◌||◌, ltb, List,
  [], ◌∷◌, ◌++◌, Option, none, some, if◌then◌else◌, ◌==◌,
}
use le_cli.Prelude.Decimal.{atoi}
use le_cli.Prelude.Int.{ℤ, pos, ltb_ℤ}
use le_cli.Prelude.Maps.{elem, bytes_eq}
use le_cli.Prelude.Sort.{sort}
use le_cli.Prelude.Space.{trim_space}
use le_cli.Prelude.Utf8.{lit}
use le_cli.Ui.Items.{is_favorite}
use le_cli.Ui.Row.{Row}

-- `sortCol`, in the order of its constants
pub data SortCol : Type 0 where
  sort_port sort_pid sort_what sort_risk sort_owner sort_dir sort_cpu : SortCol

-- The fields of `model` that decide what is shown and in which order.
pub record Viewing : Type 0 where
  pub filter : Bytes
  pub sort_col : SortCol
  pub sort_asc : Bool
  pub favs : List Bytes

-- `<` on strings
unfoldable pub less_bytes : Bytes → Bytes → Bool
less_bytes s [] = false
less_bytes [] (d ∷ t) = true
less_bytes (c ∷ s) (d ∷ t) = if c == d then less_bytes s t else ltb c d

unfoldable pub risk_rank : Bytes → ℕ
unfolding str_eq
risk_rank r = if str_eq r (codes "low") then 0 else if str_eq r (codes "medium") then 1 else 2

unfoldable pub first_port_num : List Bytes → ℤ
first_port_num [] = pos (2 ^ 30)
first_port_num (p ∷ ps) = (atoi p).0

-- The rows that are pinned, or those that are not.
unfoldable pub with_favorite : {F : Type 0} → Bool → List Bytes → List (Row F) → List (Row F)
unfolding is_favorite
with_favorite pinned favs [] = []
with_favorite pinned favs (r ∷ rs) =
    let rest = with_favorite pinned favs rs in
    if is_favorite favs r
    then (if pinned then r ∷ rest else rest)
    else (if pinned then rest else r ∷ rest)

module _ {F : Type 0} (lower : Bytes → Bytes) (less_float : F → F → Bool) where
  unfoldable pub less : SortCol → Row F → Row F → Bool
  unfolding less_bytes risk_rank first_port_num
  less sort_pid a b = ltb_ℤ a.l.pid b.l.pid
  less sort_what a b = less_bytes (lower a.p.identity) (lower b.p.identity)
  less sort_risk a b = ltb (risk_rank a.p.risk) (risk_rank b.p.risk)
  less sort_owner a b = less_bytes a.p.source b.p.source
  less sort_dir a b = less_bytes (lower a.l.cwd) (lower b.l.cwd)
  less sort_cpu a b = less_float a.l.cpu b.l.cpu
  less sort_port a b = ltb_ℤ (first_port_num a.l.ports) (first_port_num b.l.ports)

  -- the function that `sort.SliceStable` is given
  unfoldable pub before : Viewing → Row F → Row F → Bool
  unfolding less
  before m a b = if m.sort_asc then less m.sort_col a b else less m.sort_col b a

  -- `sortView`
  unfoldable pub sort_view : Viewing → List (Row F) → List (Row F)
  unfolding sort before with_favorite
  sort_view m view =
      let sorted = sort (before m) view in
      with_favorite true m.favs sorted ++ with_favorite false m.favs sorted

  unfoldable pub haystack : Row F → Bytes
  unfolding join
  haystack r = lower (
      join (codes " ") (
        join (codes " ") r.l.ports
        ∷ r.p.identity
        ∷ r.l.command
        ∷ r.l.command_line
        ∷ r.l.cwd
        ∷ r.p.source
        ∷ []))

  unfoldable pub matching : Bytes → List (Row F) → List (Row F)
  unfolding haystack contains
  matching q [] = []
  matching q (r ∷ rs) =
      let rest = matching q rs in if is_empty q || contains (haystack r) q then r ∷ rest else rest

  -- `applyFilter`, without the lines that it builds of the rows
  unfoldable pub apply_filter : Viewing → List (Row F) → List (Row F)
  unfolding sort_view matching trim_space
  apply_filter m rows = sort_view m (matching (lower (trim_space m.filter)) rows)

unpinned : Bytes → List Bytes → List Bytes
unfolding str_eq
unpinned port [] = []
unpinned port (p ∷ ps) = let rest = unpinned port ps in if str_eq p port then rest else p ∷ rest

-- The map of pins and the message of `togglePin`; `save` is the error of storing the pins.
unfoldable pub toggle_pin :
    {F : Type 0} → (List Bytes → Option Bytes) → List Bytes → Row F → List Bytes × (Bytes × Bool)
unfolding elem unpinned
toggle_pin save favs r = elim r.l.ports [
  | [] ↦ (favs, (codes "no port to pin for " ++ r.p.identity, true))
  | port ∷ ports ↦
      let pinned = not (elem port favs) in
      let next = if pinned then favs ++ port ∷ [] else unpinned port favs in
      let pinned_text = codes "pinned :" ++ (port ++ codes " to the top (f again to unpin)") in
      (
        next,
        elim (save next) [
          | some e ↦ (lit "couldn't save favorites: " ++ e, true)
          | none ↦ (if pinned then pinned_text else codes "unpinned :" ++ port, false)
        ],
      )
]
