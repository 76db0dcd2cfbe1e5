-- ===== src/Config.antt =====
-- config/config.go: the optional config file. What reading the file gives is a parameter.
pub mod Laws
mod Tests
use le_cli.Prelude.{
  ℕ, ◌*◌, Bool, true, false, ◌&&◌, ◌||◌, not, ◌==◌, if◌then◌else◌, Option, none, some, List, [],
  ◌∷◌, ◌++◌, ◌-◌, ◌+◌, length, take, drop, Bytes, codes, str_eq, is_empty, has_prefix, split, leb,
  get_elem?,
}
use le_cli.Prelude.Int.{ℤ, pos, negsuc, leb_ℤ, ltb_ℤ}
use le_cli.Prelude.Decimal.{atoi}
use le_cli.Prelude.Letters.{index_byte}
use le_cli.Prelude.Space.{trim_space}

abbrev pub default_interval_seconds : ℤ
default_interval_seconds = pos 3

pub record Config : Type 0 where
  pub interval_seconds : ℤ
  pub filter : Bytes
  pub theme : Bytes
  pub group : Bool

abbrev pub defaults : Config
defaults = record {
  interval_seconds = default_interval_seconds;
  filter = [];
  theme = [];
  group = false;
}

-- `(Config).Interval`, in seconds
unfoldable pub interval : Config → ℤ
interval c =
    if ltb_ℤ c.interval_seconds (pos 1) then default_interval_seconds else c.interval_seconds

-- The last byte, if there is one.
abbrev pub last : Bytes → Option ℕ
last [] = none
last (c ∷ []) = some c
last (c ∷ (d ∷ s)) = last (d ∷ s)

abbrev ends_with : ℕ → Option ℕ → Bool
ends_with q none = false
ends_with q (some c) = c == q

unfoldable pub unquote : Bytes → Bytes
unquote [] = []
unquote (q ∷ s) =
    if leb 2 (length (q ∷ s)) && (q == b'"' || q == b'\'') && ends_with q (last s)
    then take (length s - 1) s
    else q ∷ s

-- `n >= 1 && n <= 3600`
abbrev pub in_range : ℤ → Bool
in_range n = leb_ℤ (pos 1) n && leb_ℤ n (pos 3600)

unfoldable pub truthy : Bytes → Bool
unfolding str_eq
truthy val =
    str_eq val (codes "true")
    || str_eq val (codes "yes")
    || str_eq val (codes "1")
    || str_eq val (codes "on")

unfoldable pub set_interval : Config → Bytes → Config
unfolding atoi
set_interval c val =
    let (n, e) = atoi val in
    elim e [ none ↦ (if in_range n then record c { interval_seconds = n } else c) | some x ↦ c ]

-- The switch of `Load`; an unknown key changes nothing.
unfoldable pub set : Config → Bytes → Bytes → Config
unfolding set_interval truthy str_eq
set c key val =
    if str_eq key (codes "interval")
    then set_interval c val
    else if str_eq key (codes "filter")
    then record c { filter = val }
    else if str_eq key (codes "theme")
    then record c { theme = val }
    else if str_eq key (codes "group")
    then record c { group = truthy val }
    else c

unfoldable pub load_line : Config → Bytes → Config
unfolding set trim_space index_byte unquote
load_line c raw =
    let line = trim_space raw in
    if is_empty line || has_prefix line (codes "#") then c else elim (index_byte b'=' line) [
      | none ↦ c
      | some i ↦ set c (trim_space (take i line)) (unquote (trim_space (drop (i + 1) line)))
    ]

unfoldable pub load_lines : Config → List Bytes → Config
unfolding load_line
load_lines c [] = c
load_lines c (l ∷ ls) = load_lines (load_line c l) ls

-- `os.ReadFile`: the contents, no such file, or another error with its text.
pub data FileRead : Type 0 where
  contents : Bytes → FileRead
  missing : FileRead
  unreadable : Bytes → FileRead

-- The configuration, and the warning; its text is the path's and the error's.
unfoldable pub load : Bytes → FileRead → Config × Bytes
unfolding load_lines
load path (contents text) = (load_lines defaults (split b'\n' text), [])
load path missing = (defaults, [])
load path (unreadable e) =
    (defaults, codes "le: could not read config at " ++ (path ++ (codes ": " ++ e)))
