-- ===== src/Intel/Windows.antt =====
-- intel/windows.go: the executable of a Windows command line, and the system's own processes.
-- `none` stands for an index out of range, which panics.
pub mod Laws
use le_cli.Prelude.{
  ℕ, zero, suc, ◌+◌, Bytes, codes, has_prefix, contains, Bool, true, false, not, ◌&&◌, length, take,
  get_elem?, leb, List, [], ◌∷◌, Option, none, some, if◌then◌else◌, ◌==◌, min,
}
use le_cli.Prelude.Letters.{to_lower, index_byte}
use le_cli.Prelude.Search.{index, after_last_any}
use le_cli.Prelude.Maps.{elem, bytes_eq}
use le_cli.Prelude.Space.{trim_space}

-- The first place of one of the texts, or the end.
unfoldable pub cut_at : Bytes → List Bytes → ℕ
unfolding index
cut_at s [] = length s
cut_at s (sep ∷ seps) =
    let rest = cut_at s seps in elim (index s sep) [ none ↦ rest | some i ↦ min i rest ]

-- Where an argument other than the first one begins.
unfoldable pub first_argument : Bytes → ℕ
unfolding cut_at
first_argument s = cut_at s (codes " -" ∷ codes " /" ∷ [])

-- `cmd[:end]`
unfoldable pub slice_to : Bytes → ℕ → Option Bytes
slice_to s end = if leb end (length s) then some (take end s) else none

-- The loop over the places of ".exe" in the lower case of the text, which is read from the place
-- `at` on. The second number counts the bytes that an earlier ".exe" passes over.
unfoldable pub exe_from : Bytes → ℕ → ℕ → Bytes → Option Bytes
unfolding has_prefix first_argument slice_to
exe_from cmd at k [] = slice_to cmd (first_argument cmd)
exe_from cmd at (suc k) (c ∷ lower) = exe_from cmd (at + 1) k lower
exe_from cmd at zero (c ∷ lower) =
    let next = exe_from cmd (at + 1) 0 lower in
    let behind = exe_from cmd (at + 1) 3 lower in
    if not (has_prefix (c ∷ lower) (codes ".exe"))
    then next
    else if at + 4 == length cmd
    then slice_to cmd (at + 4)
    else (elim (get_elem? cmd (at + 4)) [
      | none ↦ none
      | some d ↦ (if d == b' ' then slice_to cmd (at + 4) else behind)
    ])

quoted : Bytes → Bytes
unfolding index_byte
quoted s = elim (index_byte b'"' s) [ none ↦ s | some end ↦ take end s ]

argv0_of : Bytes → Option Bytes
unfolding exe_from quoted to_lower
argv0_of [] = some []
argv0_of (c ∷ s) =
    let unquoted = exe_from (c ∷ s) 0 0 (to_lower (c ∷ s)) in
    if c == b'"' then some (quoted s) else unquoted

-- `windowsArgv0`
unfoldable pub windows_argv0 : Bytes → Option Bytes
unfolding argv0_of trim_space
windows_argv0 cmd = argv0_of (trim_space cmd)

-- `baseAny`
unfoldable pub base_any : Bytes → Bytes
unfolding after_last_any
base_any p = after_last_any (codes "/\\") p

abbrev system_names : List Bytes
system_names =
    codes "system"
    ∷ codes "system idle process"
    ∷ codes "svchost.exe"
    ∷ codes "wininit.exe"
    ∷ codes "services.exe"
    ∷ codes "lsass.exe"
    ∷ codes "csrss.exe"
    ∷ codes "smss.exe"
    ∷ codes "winlogon.exe"
    ∷ codes "spoolsv.exe"
    ∷ codes "dns.exe"
    ∷ []

abbrev service_accounts : List Bytes
service_accounts =
    codes "nt authority\\system"
    ∷ codes "nt authority\\local service"
    ∷ codes "nt authority\\network service"
    ∷ []

runs_system : Bytes → Bytes → Bool
unfolding contains elem base_any
runs_system exe user =
    if contains exe (codes ":\\windows\\")
    then true
    else if elem (base_any exe) system_names
    then true
    else if elem user service_accounts
    then not (contains exe (codes "\\program files")) && not (contains exe (codes "\\users\\"))
    else false

-- `isWindowsSystem`, of a command line and a user in lower case
unfoldable pub is_windows_system : Bytes → Bytes → Option Bool
unfolding windows_argv0 runs_system
is_windows_system cmd user = elim (windows_argv0 cmd) [
  | none ↦ none
  | some exe ↦ some (runs_system exe user)
]
