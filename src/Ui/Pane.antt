-- ===== src/Ui/Pane.antt =====
-- ui/panefocus.go: the fields of the detail pane and the cursor that walks them, with
-- `executablePath` and `isPathLike` of ui/ui.go. Whether a path exists on the disk is a parameter.
pub mod Laws
use le_cli.Prelude.{
  ℕ, zero, suc, ◌+◌, ◌%◌, ◌==◌, ltb, within, Bool, true, false, not, ◌&&◌, ◌||◌, if◌then◌else◌,
  Option, none, some, List, [], ◌∷◌, ◌++◌, map, length, take, drop, get_elem?, Bytes, codes, str_eq,
  is_empty, has_prefix, split, join,
}
use le_cli.Prelude.Int.{ℤ, pos, negsuc, ◌+ℤ◌, opp}
use le_cli.Prelude.Space.{trim_space}
use le_cli.Prelude.Letters.{index_byte}
use le_cli.Ui.Row.{Row}
use le_cli.Ui.Cursor.{Screen, selected, lost}

unfoldable pub is_drive : Bytes → Bool
is_drive (d ∷ (c ∷ (s ∷ rest))) =
    c == b':' && (s == b'\\' || s == b'/') && (within b'a' b'z' d || within b'A' b'Z' d)
is_drive (d ∷ (c ∷ [])) = false
is_drive (d ∷ []) = false
is_drive [] = false

unfoldable pub is_path_like : Bytes → Bool
unfolding is_drive
is_path_like s = has_prefix s (codes "/") || is_drive s

-- The longest prefix of at most the given number of words that is on the disk.
unfoldable pub longest_path : (Bytes → Bool) → List Bytes → ℕ → Bytes
longest_path exists words zero = []
longest_path exists words (suc i) =
    let candidate = join (codes " ") (take (suc i) words) in
    let rest = longest_path exists words i in if exists candidate then candidate else rest

unfoldable pub quoted_path : (Bytes → Bool) → Bytes → Bytes
unfolding is_path_like
quoted_path exists rest = elim (index_byte b'"' rest) [
  | none ↦ []
  | some end ↦ let p = take end rest in if ltb 0 end && is_path_like p && exists p then p else []
]

unfoldable pub executable_path : (Bytes → Bool) → Bytes → Bytes
unfolding trim_space is_path_like longest_path quoted_path
executable_path exists cmdline =
    let line = trim_space cmdline in
    if is_empty line
    then []
    else if has_prefix line (codes "\"")
    then quoted_path exists (drop 1 line)
    else if not (is_path_like line)
    then []
    else if exists line
    then line
    else let words = split b' ' line in longest_path exists words (length words)

-- A field and what it is about; the text that the pane shows beside it is left out.
pub data PaneField : Type 0 where
  field_port : Bytes → PaneField
  field_cmd : PaneField
  field_dir : PaneField
  field_stop : PaneField

unfoldable pub pane_fields : {F : Type 0} → (Bytes → Bool) → Row F → List PaneField
unfolding executable_path
pane_fields exists r =
    map field_port r.l.ports
    ++ ((if is_empty (executable_path exists r.l.command_line) then [] else field_cmd ∷ [])
        ++ ((if is_empty r.l.cwd then [] else field_dir ∷ []) ++ (field_stop ∷ [])))

abbrev pub field_at : List PaneField → ℤ → Option PaneField
field_at fields (pos i) = get_elem? fields i
field_at fields (negsuc i) = none

unfoldable pub focused_field : {F : Type 0} → (Bytes → Bool) → Screen F → Option PaneField
unfolding selected pane_fields
focused_field exists m =
    if not m.pane_focus
    then none
    else elim (selected m) [ none ↦ none | some r ↦ field_at (pane_fields exists r) m.pane_idx ]

unfoldable pub enter_pane_focus : {F : Type 0} → (Bytes → Bool) → Screen F → Screen F
unfolding selected pane_fields
enter_pane_focus exists m = elim (selected m) [
  | none ↦ m
  | some r ↦
      if length (pane_fields exists r) == 0
      then m
      else record m { pane_focus = true; pane_idx = pos 0 }
]

-- Go's `%` by a positive number: the sign is the dividend's.
abbrev pub rem : ℤ → ℕ → ℤ
rem (pos a) n = pos (a % n)
rem (negsuc a) n = opp (pos (suc a % n))

unfoldable pub move_pane_cursor : {F : Type 0} → (Bytes → Bool) → Screen F → ℤ → Screen F
unfolding selected pane_fields
move_pane_cursor exists m delta = elim (selected m) [
  | none ↦ m
  | some r ↦
      let n = length (pane_fields exists r) in
      if n == 0
      then record m { pane_focus = false }
      else record m { pane_idx = rem (rem (m.pane_idx +ℤ delta) n +ℤ pos n) n }
]
