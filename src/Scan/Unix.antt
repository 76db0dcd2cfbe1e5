-- ===== src/Scan/Unix.antt =====
-- scan/scan_unix.go: `scanWithRunner`, the whole enumeration on macOS and Linux. The runner answers
-- each command line by its output and its error; the concurrent calls do not share anything.
pub mod Laws
use le_cli.Prelude.{
  Bytes, codes, Bool, true, false, not, ◌||◌, is_empty, join, List, [], ◌∷◌, map, Option, none,
  some, if◌then◌else◌, ◌&&◌,
}
use le_cli.Prelude.Decimal.{itoa}
use le_cli.Prelude.Int.{ℤ, pos, eqb_ℤ}
use le_cli.Prelude.Maps.{Map, int_eq, lookup}
use le_cli.Prelude.Space.{all_space}
use le_cli.Scan.Listener.{Listener}
use le_cli.Scan.Lsof.{Acc, State, parse_lsof, read_cwd}
use le_cli.Scan.Ports.{dedup, ports_of}
use le_cli.Scan.Ps.{PsRow, row_of, read_ps}

-- `exit` is an *exec.ExitError, with its code and what the command wrote to stderr.
pub data RunError : Type 0 where
  exit : ℤ → Bytes → RunError
  other : Bytes → RunError

abbrev pub Runner : Type 0
Runner = Bytes → List Bytes → Bytes × Option RunError

pub data Scanned (F : Type 0) : Type 0 where
  found : List (Listener F) → Scanned F
  failed : RunError → Scanned F

abbrev pub lsof_args : List Bytes
lsof_args = codes "-nP" ∷ codes "-iTCP" ∷ codes "-sTCP:LISTEN" ∷ codes "-FpcnPT" ∷ []

abbrev ps_args : Bytes → Bytes → List Bytes
ps_args csv columns = codes "-ww" ∷ codes "-p" ∷ csv ∷ codes "-o" ∷ columns ∷ []

abbrev cwd_args : Bytes → List Bytes
cwd_args csv = codes "-a" ∷ codes "-d" ∷ codes "cwd" ∷ codes "-p" ∷ csv ∷ codes "-Fpn" ∷ []

-- The error that means that nothing matched: a silent exit 1 with no output.
unfoldable pub no_match : Bytes → RunError → Bool
unfolding all_space eqb_ℤ
no_match out (exit code stderr) = eqb_ℤ code (pos 1) && is_empty stderr && all_space out
no_match out (other m) = false

-- `len(a.addrs) == 0`
abbrev no_addrs : List Bytes → Bool
no_addrs [] = true
no_addrs (x ∷ xs) = false

module _ {F : Type 0} (zero_float : F) where
  make_listener : Map ℤ (PsRow F) → Map ℤ Bytes → ℤ → Acc → Listener F
  unfolding row_of dedup ports_of
  make_listener ps cwds pid a =
      let r = row_of zero_float pid ps in
      record {
        pid = pid;
        command = a.command;
        command_line = if is_empty r.command then a.command else r.command;
        command_line_fallback = is_empty r.command;
        user = r.user;
        start_time = r.start;
        cwd = elim (lookup pid cwds) [ none ↦ [] | some d ↦ d ];
        cpu = r.cpu;
        rss = r.rss;
        addrs = dedup a.addrs;
        ports = ports_of a.addrs;
      }

  -- A process with no local address is left out.
  add_listener :
      Map ℤ (PsRow F) → Map ℤ Bytes → ℤ → Option Acc → List (Listener F) → List (Listener F)
  unfolding make_listener
  add_listener ps cwds pid none rest = rest
  add_listener ps cwds pid (some a) rest =
      if no_addrs a.addrs then rest else make_listener ps cwds pid a ∷ rest

  make_listeners : Map ℤ (PsRow F) → Map ℤ Bytes → Map ℤ Acc → List ℤ → List (Listener F)
  unfolding add_listener
  make_listeners ps cwds by_pid [] = []
  make_listeners ps cwds by_pid (pid ∷ order) =
      add_listener ps cwds pid (lookup pid by_pid) (make_listeners ps cwds by_pid order)

  -- what follows the parsing of lsof's output
  describe : (Bytes → F) → Runner → State → List (Listener F)
  unfolding make_listeners read_ps read_cwd itoa join
  describe parse_float run s =
      let csv = join (codes ",") (map itoa s.order) in
      let ps =
        read_ps zero_float parse_float
          (run (codes "ps") (ps_args csv (codes "pid=,lstart=,user="))).0
          (run (codes "ps") (ps_args csv (codes "pid=,command="))).0
          (run (codes "ps") (ps_args csv (codes "pid=,%cpu=,rss="))).0 in
      make_listeners ps (read_cwd (run (codes "lsof") (cwd_args csv)).0) s.by_pid s.order

  after_lsof : (Bytes → F) → Runner → Bytes → Scanned F
  unfolding all_space parse_lsof describe
  after_lsof parse_float run out =
      found (if all_space out then [] else describe parse_float run (parse_lsof out))

  unfoldable pub scan_with_runner : (Bytes → F) → Runner → Scanned F
  unfolding no_match after_lsof
  scan_with_runner parse_float run =
      let r = run (codes "lsof") lsof_args in
      elim r.1 [
        | none ↦ after_lsof parse_float run r.0
        | some e ↦ if no_match r.0 e then after_lsof parse_float run r.0 else failed e
      ]
