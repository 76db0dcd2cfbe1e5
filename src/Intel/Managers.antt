-- ===== src/Intel/Managers.antt =====
-- intel/intel.go, intel/context.go and intel/launchd_lookup.go: what `brew services list` and
-- `launchctl list` report. What a command prints is a parameter; `none` is its failure.
pub mod Laws
use le_cli.Prelude.{
  ℕ, ◌+◌, ◌-◌, Bytes, codes, split, join, str_eq, is_empty, Bool, true, false, not, ◌&&◌, ◌||◌,
  length, take, ltb, List, [], ◌∷◌, ◌++◌, Option, none, some, if◌then◌else◌,
}
use le_cli.Bounded.{Fault, output_limit, context}
use le_cli.Prelude.Decimal.{atoi, itoa}
use le_cli.Prelude.Int.{ℤ, pos, leb_ℤ, eqb_ℤ, ltb_ℤ}
use le_cli.Prelude.Maps.{Map, lookup, insert, bytes_eq, int_eq}
use le_cli.Prelude.Space.{fields, all_space, trim_space}

-- A publication of a container; nothing collects them.
pub record DockerContainer : Type 0 where
  pub name : Bytes
  pub id : Bytes

pub record Env : Type 0 where
  pub brew_started : Map Bytes Bool
  pub docker_by_port : Map Bytes DockerContainer
  pub launchd_by_pid : Map ℤ Bytes

-- The lines below the header.
abbrev below_header : List Bytes → List Bytes
below_header [] = []
below_header (h ∷ ls) = ls

unfoldable pub brew_row : Map Bytes Bool → List Bytes → Map Bytes Bool
unfolding insert str_eq
brew_row m (name ∷ (status ∷ fs)) =
    if str_eq status (codes "started") || str_eq status (codes "scheduled")
    then insert name true m
    else m
brew_row m _ = m

unfoldable pub brew_lines : Map Bytes Bool → List Bytes → Map Bytes Bool
unfolding brew_row
brew_lines m [] = m
brew_lines m (l ∷ ls) = brew_lines (if all_space l then m else brew_row m (fields l)) ls

unfoldable pub parse_brew_started : Bytes → Map Bytes Bool
unfolding brew_lines
parse_brew_started out = brew_lines [] (below_header (split b'\n' out))

-- What a line of `launchctl list` adds, of its columns
unfoldable pub launchd_row : Map ℤ Bytes → List Bytes → Map ℤ Bytes
unfolding insert join
launchd_row m (first ∷ (status ∷ (l ∷ ls))) =
    let (pid, e) = atoi (trim_space first) in
    let label = trim_space (join (codes "\t") (l ∷ ls)) in
    let bad : Bool = elim e [ none ↦ leb_ℤ pid (pos 0) | some x ↦ true ] in
    if bad || is_empty label then m else insert pid label m
launchd_row m _ = m

-- The columns are those between tabs, or else those between spaces.
unfoldable pub columns : Bytes → List Bytes
columns line = if ltb (length (split b'\t' line)) 3 then fields line else split b'\t' line

unfoldable pub launchd_lines : Map ℤ Bytes → List Bytes → Map ℤ Bytes
unfolding launchd_row columns
launchd_lines m [] = m
launchd_lines m (l ∷ ls) = launchd_lines (if all_space l then m else launchd_row m (columns l)) ls

unfoldable pub parse_launchd_list : Bytes → Map ℤ Bytes
unfolding launchd_lines
parse_launchd_list out = launchd_lines [] (below_header (split b'\n' out))

-- `brewStarted` and `launchdByPID`: a command that fails has printed nothing.
unfoldable pub brew_started : Option Bytes → Map Bytes Bool
unfolding parse_brew_started
brew_started none = []
brew_started (some out) = parse_brew_started out

unfoldable pub launchd_by_pid : Option Bytes → Map ℤ Bytes
unfolding parse_launchd_list
launchd_by_pid none = []
launchd_by_pid (some out) = parse_launchd_list out

-- `Detect`, of what the two commands print
unfoldable pub detect : Option Bytes → Option Bytes → Env
unfolding brew_started launchd_by_pid
detect brew launchd = record {
  brew_started = brew_started brew;
  docker_by_port = [];
  launchd_by_pid = launchd_by_pid launchd;
}

-- `LaunchdDomainTarget`, for the user with this number
unfoldable pub launchd_domain_target : ℤ → Bytes → Bytes
launchd_domain_target uid label = codes "gui/" ++ (itoa uid ++ (codes "/" ++ label))

first_is : Bytes → List Bytes → Bool
first_is name [] = false
first_is name (f ∷ fs) = str_eq f name

any_line : Bytes → List Bytes → Bool
unfolding first_is
any_line name [] = false
any_line name (l ∷ ls) = not (all_space l) && first_is name (fields l) || any_line name ls

-- `BrewServiceKnown`
unfoldable pub brew_service_known : Bytes → Option Bytes → Bool
unfolding any_line
brew_service_known formula none = true
brew_service_known formula (some out) = any_line formula (below_header (split b'\n' out))

any_line_context : Bytes → List Bytes → Bool
unfolding first_is
any_line_context name [] = false
any_line_context name (l ∷ ls) = first_is name (fields l) || any_line_context name ls

-- `BrewServiceKnownContext`; `none` is its error.
unfoldable pub brew_service_known_context : Bytes → Option Bytes → Option Bool
unfolding any_line_context
brew_service_known_context formula none = none
brew_service_known_context formula (some out) =
    some (any_line_context formula (below_header (split b'\n' out)))

unfoldable pub collect : Bytes → ℤ → Map ℤ Bytes → ℤ × Bool
collect label found [] = (found, ltb_ℤ (pos 0) found)
collect label found ((pid, l) ∷ m) =
    let same = collect label pid m in
    let next = collect label found m in
    if str_eq l label then (if not (eqb_ℤ found (pos 0)) then (pos 0, false) else same) else next

-- `lookupLaunchdLabelPID`. Go ranges over a map in any order: `order` gives the one it takes.
unfoldable pub lookup_launchd_label_pid :
    (Map ℤ Bytes → Map ℤ Bytes) → Bytes → Option Bytes → ℤ × Bool
unfolding collect
lookup_launchd_label_pid order label none = (pos 0, false)
lookup_launchd_label_pid order label (some out) =
    collect label (pos 0) (order (parse_launchd_list out))

first_label : Bytes → Map ℤ Bytes → ℤ × Bool
first_label label [] = (pos 0, false)
first_label label ((pid, l) ∷ m) =
    let next = first_label label m in if str_eq l label then (pid, true) else next

-- `LaunchdLabelPIDContext`; `none` is its error.
unfoldable pub launchd_label_pid_context :
    (Map ℤ Bytes → Map ℤ Bytes) → Bytes → Option Bytes → Option (ℤ × Bool)
unfolding first_label
launchd_label_pid_context order label none = none
launchd_label_pid_context order label (some out) =
    some (first_label label (order (parse_launchd_list out)))

-- The bytes that a lookup reads from `launchctl`, at most
abbrev pub launchd_lookup_output_limit : ℕ
launchd_lookup_output_limit = 1048576

pub record LaunchdOutput : Type 0 where
  pub buffer : Bytes
  pub exceeded : Bool
  pub cancelled : Bool

-- `Write`, with the number of bytes that it returns
unfoldable pub write : LaunchdOutput → Bytes → LaunchdOutput × ℕ
write out p =
    let room = launchd_lookup_output_limit - length out.buffer in
    let n = length p in
    if ltb room n
    then (record { buffer = out.buffer ++ take room p; exceeded = true; cancelled = true }, n)
    else (record out { buffer = out.buffer ++ p }, n)

-- `fatalContextError`: what `ctx.Err()` says, and the error of the command
unfoldable pub fatal_context_error : Option Bytes → Option Fault → Option Fault
fatal_context_error (some m) e = some (context m)
fatal_context_error none (some output_limit) = some output_limit
fatal_context_error none _ = none

printed : Bytes × Option Fault → Bytes
printed (out, none) = out
printed (out, some e) = []

-- `DetectContext`: `ctx.Err()` after each command, and what `boundedexec.Output` returns for it
unfoldable pub detect_context :
    Option Bytes → Bytes × Option Fault → Option Bytes → Bytes × Option Fault → Env × Option Fault
unfolding fatal_context_error printed parse_brew_started parse_launchd_list
detect_context after_brew brew after_launchd launchd =
    let empty : Env = record { brew_started = []; docker_by_port = []; launchd_by_pid = [] } in
    let started : Env = record empty { brew_started = parse_brew_started (printed brew) } in
    let full : Env = record started { launchd_by_pid = parse_launchd_list (printed launchd) } in
    elim (fatal_context_error after_brew brew.1) [
      | some e ↦ (empty, some e)
      | none ↦ (elim (fatal_context_error after_launchd launchd.1) [
        | some e ↦ (started, some e)
        | none ↦ (full, none)
      ])
    ]
