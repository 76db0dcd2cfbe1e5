-- ===== src/Intel/System.antt =====
-- intel/intel.go: `classifyKind`, `isSystem` and the other readings of a listener. `none` stands
-- for an index out of range, which panics.
use le_cli.Prelude.{
  Bytes, codes, has_prefix, contains, str_eq, is_empty, Bool, true, false, not, ◌&&◌, ◌||◌, List,
  [], ◌∷◌, ◌++◌, Option, none, some, if◌then◌else◌,
}
use le_cli.Prelude.Letters.{to_lower, base}
use le_cli.Prelude.Maps.{elem, bytes_eq}
use le_cli.Prelude.Space.{fields}
use le_cli.Intel.Number.{itoa}
use le_cli.Intel.Profile.{Profile}
use le_cli.Intel.Windows.{base_any, is_windows_system}
use le_cli.Intel.Words.{any_word}
use le_cli.Scan.Listener.{Listener}

unfoldable pub any_contains : Bytes → List Bytes → Bool
unfolding contains
any_contains s [] = false
any_contains s (p ∷ ps) = contains s p || any_contains s ps

unfoldable pub any_prefix : Bytes → List Bytes → Bool
unfolding has_prefix
any_prefix s [] = false
any_prefix s (p ∷ ps) = has_prefix s p || any_prefix s ps

-- `argv0Base`
unfoldable pub argv0_base : Bytes → Bytes
unfolding base_any fields
argv0_base cmd = elim (fields cmd) [ [] ↦ [] | f ∷ fs ↦ base_any f ]

abbrev pub system_paths : List Bytes
system_paths = codes "/system/" ∷ codes "/usr/libexec/" ∷ codes "/usr/sbin/" ∷ codes "/sbin/" ∷ []

abbrev daemons : List Bytes
daemons =
    codes "rapportd"
    ∷ codes "sharingd"
    ∷ codes "controlcenter"
    ∷ codes "launchd"
    ∷ codes "mdnsresponder"
    ∷ []

-- The last test, on the processes of the superuser
root_daemon : Bytes → Bytes → Bool
unfolding str_eq any_contains elem argv0_base
root_daemon user c =
    str_eq user (codes "root")
    && not (any_contains c (codes "/cellar/" ∷ codes "/users/" ∷ []))
    && elem (argv0_base c) daemons

module _ {F : Type 0} (l : Listener F) where
  unfoldable pub is_system : Option Bool
  unfolding any_prefix is_windows_system root_daemon to_lower
  is_system =
      let c = to_lower l.command_line in
      if any_prefix c system_paths
      then some true
      else (elim (is_windows_system c (to_lower l.user)) [
        | none ↦ none
        | some windows ↦ some (windows || root_daemon l.user c)
      ])

  unfoldable pub is_background_app : Bool
  unfolding contains to_lower
  is_background_app = contains (to_lower l.command_line) (codes ".app/contents")

  -- the cases of `classifyKind` below those on the text
  unfoldable pub by_owner : Option Bytes
  unfolding is_system is_background_app
  by_owner = elim is_system [
    | none ↦ none
    | some system ↦ some (
        if system
        then codes "macos"
        else (if is_background_app then codes "app" else codes "other"))
  ]

  unfoldable pub classify_kind : Option Bytes
  unfolding any_word any_contains by_owner to_lower
  classify_kind =
      let t = to_lower (l.command ++ (codes " " ++ l.command_line)) in
      if any_word t (codes "redis" ∷ codes "mongod" ∷ [])
        || any_contains t
            (codes "postgres" ∷ codes "postmaster" ∷ codes "mysql" ∷ codes "mariadb" ∷ [])
      then some (codes "database")
      else if any_word t (codes "ollama" ∷ [])
      then some (codes "ai")
      else if any_contains t (
          codes "language_server"
          ∷ codes "language-server"
          ∷ codes "code helper"
          ∷ codes "antigravity"
          ∷ [])
      then some (codes "editor")
      else if any_word t (codes "python" ∷ codes "python3" ∷ [])
          || any_contains t (codes ".py" ∷ [])
      then some (codes "python")
      else if any_word t
            (codes "node" ∷ codes "npm" ∷ codes "pnpm" ∷ codes "yarn" ∷ codes "bun" ∷ [])
          || any_contains t (codes ".js" ∷ codes ".mjs" ∷ [])
      then some (codes "node")
      else by_owner

  -- the first field of a blank text is out of range
  unfoldable pub display_name : Option Bytes
  unfolding base fields itoa
  display_name =
      if not (is_empty l.command)
      then some l.command
      else if not (is_empty l.command_line)
      then (elim (fields l.command_line) [ [] ↦ none | f ∷ fs ↦ some (base f) ])
      else (elim (itoa l.pid) [ none ↦ none | some digits ↦ some (codes "pid " ++ digits) ])

  unfoldable pub source_for : Profile → Bool → Bool → Bool → Bytes
  unfolding str_eq
  source_for p brew system bg_app =
      if brew
      then codes "homebrew"
      else if system
      then codes "macos"
      else if str_eq p.kind (codes "editor")
      then codes "ide"
      else if bg_app
      then codes "app"
      else if not (is_empty l.cwd) || not (is_empty l.command_line)
      then codes "terminal"
      else codes "unknown"

-- `hasWildcard`
unfoldable pub has_wildcard : List Bytes → Bool
unfolding any_prefix
has_wildcard [] = false
has_wildcard (a ∷ addrs) =
    any_prefix a (codes "*:" ∷ codes "0.0.0.0:" ∷ codes "[::]:" ∷ []) || has_wildcard addrs
