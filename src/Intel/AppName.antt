-- ===== src/Intel/AppName.antt =====
-- intel/appname.go: the product that a command line names. `none` stands for an index out of
-- range, which panics.
pub mod Laws
use le_cli.Prelude.{
  ℕ, ◌+◌, Bytes, codes, has_prefix, contains, contains_byte, is_empty, str_eq, Bool, false, not,
  ◌&&◌, ◌||◌, length, take, drop, ltb, List, [], ◌∷◌, ◌++◌, Option, none, some, if◌then◌else◌, ◌==◌,
}
use le_cli.Prelude.Letters.{to_lower, index_byte}
use le_cli.Prelude.Search.{index, after_last_any}
use le_cli.Prelude.Space.{trim_space}
use le_cli.Intel.Windows.{windows_argv0, first_argument}
use le_cli.Scan.Listener.{Listener}

-- `executableArg`
unfoldable pub executable_arg : Bytes → Bytes
unfolding has_prefix trim_space first_argument
executable_arg cmdline =
    let s = trim_space cmdline in
    if not (has_prefix s (codes "/")) then [] else take (first_argument s) s

-- `appBundleUnder`
unfoldable pub app_bundle_under : Bytes → Bytes → Bytes
unfolding has_prefix index contains_byte
app_bundle_under argv0 pre =
    let rest = drop (length pre) argv0 in
    if not (has_prefix argv0 pre) then [] else elim (index rest (codes ".app/")) [
      | none ↦ []
      | some end ↦ (if contains_byte b'/' (take end rest) then [] else take end rest)
    ]

-- What stands before the first such byte, if that is something.
segment : ℕ → Bytes → Bytes
unfolding index_byte
segment sep rest = elim (index_byte sep rest) [ none ↦ [] | some end ↦ take end rest ]

-- `segmentAfter`
unfoldable pub segment_after : Bytes → Bytes → Bytes
unfolding index segment
segment_after cmdline marker = elim (index cmdline marker) [
  | none ↦ []
  | some i ↦ segment b'/' (drop (i + length marker) cmdline)
]

-- `bundleName`
unfoldable pub bundle_name : Bytes → Bytes
unfolding index after_last_any contains
bundle_name cmdline = elim (index cmdline (codes ".app/")) [
  | none ↦ []
  | some i ↦
      let head = after_last_any (codes "/") (take i cmdline) in
      if is_empty head || contains head (codes " -") then [] else head
]

-- `segmentAfterFold`
unfoldable pub segment_after_fold : Bytes → Bytes → Option Bytes
unfolding index to_lower segment
segment_after_fold path marker = elim (index (to_lower path) marker) [
  | none ↦ some []
  | some i ↦
      let found = some (segment b'\\' (drop (i + length marker) path)) in
      if ltb (length path) (i + length marker) then none else found
]

-- The first root that names something.
unfoldable pub first_root : Bytes → List Bytes → Option Bytes
unfolding segment_after_fold
first_root argv0 [] = some []
first_root argv0 (root ∷ roots) =
    let rest = first_root argv0 roots in
    elim (segment_after_fold argv0 root) [
      | none ↦ none
      | some name ↦ (if is_empty name then rest else some name)
    ]

abbrev roots : List Bytes
roots =
    codes "\\program files\\"
    ∷ codes "\\program files (x86)\\"
    ∷ codes "\\appdata\\local\\programs\\"
    ∷ codes "\\appdata\\local\\"
    ∷ []

has_drive : Bytes → Bool
has_drive (d ∷ (c ∷ (s ∷ rest))) = c == b':' && s == b'\\'
has_drive _ = false

-- `windowsAppName`
unfoldable pub windows_app_name : Bytes → Option Bytes
unfolding windows_argv0 has_drive first_root
windows_app_name cmdline = elim (windows_argv0 cmdline) [
  | none ↦ none
  | some argv0 ↦
      let found = first_root argv0 roots in if not (has_drive argv0) then some [] else found
]

-- The rest of `AppName`, of a Unix command line.
unfoldable pub unix_app_name : Bytes → Bytes
unfolding executable_arg app_bundle_under segment_after bundle_name
unix_app_name cmdline =
    let argv0 = executable_arg cmdline in
    let here = app_bundle_under argv0 (codes "/Applications/") in
    let system = app_bundle_under argv0 (codes "/System/Applications/") in
    let vendor = segment_after argv0 (codes "/Application Support/") in
    if is_empty argv0
    then []
    else if not (is_empty here)
    then here
    else if not (is_empty system)
    then system
    else if not (is_empty vendor)
    then vendor
    else bundle_name argv0

-- `AppName`
unfoldable pub app_name : Bytes → Option Bytes
unfolding windows_app_name unix_app_name
app_name cmdline = elim (windows_app_name cmdline) [
  | none ↦ none
  | some name ↦ some (if not (is_empty name) then name else unix_app_name cmdline)
]

-- `helperSuffix`
unfoldable pub helper_suffix : {F : Type 0} → Listener F → Option Bytes
unfolding app_name trim_space str_eq
helper_suffix l =
    let name = trim_space l.command in
    if is_empty name then some [] else elim (app_name l.command_line) [
      | none ↦ none
      | some app ↦ some (if str_eq name app then [] else codes " Helper: " ++ (name ++ codes "."))
    ]
