-- ===== src/Scan/Lsof.antt =====
-- scan/scan_unix.go: lsof's field output, read line by line by `scanWithRunner` (the listening
-- sockets) and by `readCwdWithRunner` (the working directories).
pub mod Laws
use le_cli.Prelude.{
  Bytes, Bool, true, false, not, ◌&&◌, is_empty, split, List, [], ◌∷◌, ◌++◌, Option, none, some,
  ◌==◌, if◌then◌else◌,
}
use le_cli.Prelude.Decimal.{atoi, NumError}
use le_cli.Prelude.Int.{ℤ, pos, negsuc, eqb_ℤ}
use le_cli.Prelude.Maps.{Map, int_eq, lookup, insert}
use le_cli.Scan.Ports.{is_local_endpoint}
use le_cli.Scan.Unescape.{unescape_lsof}

-- `acc`: what is known of one process.
pub record Acc : Type 0 where
  pub command : Bytes
  pub addrs : List Bytes

pub record State : Type 0 where
  pub by_pid : Map ℤ Acc
  pub order : List ℤ
  pub cur : ℤ

abbrev pub initial : State
initial = record { by_pid = []; order = []; cur = negsuc 0 }

unfoldable pub start_process : State → ℤ → State
start_process s pid = elim (lookup pid s.by_pid) [
  | some a ↦ record s { cur = pid }
  | none ↦ record {
    by_pid = insert pid (record { command = []; addrs = [] }) s.by_pid;
    order = s.order ++ pid ∷ [];
    cur = pid;
  }
]

-- `if a := byPID[cur]; a != nil { … }`
unfoldable pub update_current : State → (Acc → Acc) → State
update_current s f = elim (lookup s.cur s.by_pid) [
  | none ↦ s
  | some a ↦ record s { by_pid = insert s.cur (f a) s.by_pid }
]

unfoldable pub lsof_line : State → Bytes → State
unfolding start_process update_current
lsof_line s [] = s
lsof_line s (tag ∷ val) =
    if tag == b'p'
    then (elim (atoi val).1 [ none ↦ start_process s (atoi val).0 | some e ↦ s ])
    else if tag == b'c'
    then update_current s (λ a. record a { command = unescape_lsof val })
    else if tag == b'n' && not (is_empty val) && is_local_endpoint val
    then update_current s (λ a. record a { addrs = a.addrs ++ val ∷ [] })
    else s

unfoldable pub lsof_lines : State → List Bytes → State
lsof_lines s [] = s
lsof_lines s (x ∷ xs) = lsof_lines (lsof_line s x) xs

unfoldable pub parse_lsof : Bytes → State
unfolding lsof_lines lsof_line split
parse_lsof out = lsof_lines initial (split b'\n' out)

pub record CwdState : Type 0 where
  pub cwds : Map ℤ Bytes
  pub at : ℤ

unfoldable pub cwd_line : CwdState → Bytes → CwdState
unfolding eqb_ℤ
cwd_line s [] = s
cwd_line s (tag ∷ val) =
    if tag == b'p'
    then (elim (atoi val).1 [ none ↦ record s { at = (atoi val).0 } | some e ↦ s ])
    else if tag == b'n' && not (eqb_ℤ s.at (negsuc 0))
    then record s { cwds = insert s.at val s.cwds }
    else s

cwd_lines : CwdState → List Bytes → CwdState
cwd_lines s [] = s
cwd_lines s (x ∷ xs) = cwd_lines (cwd_line s x) xs

unfoldable pub read_cwd : Bytes → Map ℤ Bytes
unfolding cwd_lines cwd_line split
read_cwd out = (cwd_lines (record { cwds = []; at = negsuc 0 }) (split b'\n' out)).cwds
