-- ===== src/Scan/Netstat.antt =====
-- scan/netstat.go: the listeners in the table of `netstat -ano`, and the rows that the query for
-- processes on Windows gives. `json.Unmarshal` is a parameter.
pub mod Laws
use le_cli.Prelude.{
  Bytes, codes, has_prefix, str_eq, is_empty, split, Bool, true, false, not, ◌&&◌, ◌||◌, List, [],
  ◌∷◌, ◌++◌, Option, none, some, if◌then◌else◌,
}
use le_cli.Prelude.Decimal.{atoi, NumError}
use le_cli.Prelude.Int.{ℤ, pos, leb_ℤ}
use le_cli.Prelude.Maps.{Map, int_eq, lookup, insert}
use le_cli.Prelude.Search.{trim_prefix}
use le_cli.Prelude.Space.{fields, all_space, trim_space}
use le_cli.Scan.Ps.{PsRow}
use le_cli.Scan.Ports.{is_local_endpoint}

-- `netAcc` is its one field, the addresses; the map and the order, in which the processes came.
pub record Table : Type 0 where
  pub by_pid : Map ℤ (List Bytes)
  pub order : List ℤ

is_zero_endpoint : Bytes → Bool
unfolding str_eq
is_zero_endpoint foreign = str_eq foreign (codes "0.0.0.0:0") || str_eq foreign (codes "[::]:0")

abbrev checked_pid : Bytes → ℤ × Option NumError → Option (ℤ × Bytes)
checked_pid local (pid, none) = if leb_ℤ pid (pos 0) then none else some (pid, local)
checked_pid local (pid, some e) = none

-- The process and the address of a row that is no `continue`.
unfoldable pub listener_row : List Bytes → Option (ℤ × Bytes)
unfolding has_prefix is_zero_endpoint str_eq
listener_row (proto ∷ (local ∷ (foreign ∷ (state ∷ (pid ∷ rest))))) =
    if not (has_prefix proto (codes "TCP"))
    then none
    else if not (is_zero_endpoint foreign || str_eq state (codes "LISTENING"))
        || not (is_local_endpoint local)
    then none
    else checked_pid local (atoi pid)
listener_row _ = none

unfoldable pub add_listener : Table → ℤ → Bytes → Table
unfolding lookup insert
add_listener t pid local = elim (lookup pid t.by_pid) [
  | none ↦ record { by_pid = insert pid (local ∷ []) t.by_pid; order = t.order ++ pid ∷ [] }
  | some addrs ↦ record t { by_pid = insert pid (addrs ++ local ∷ []) t.by_pid }
]

unfoldable pub netstat_lines : Table → List Bytes → Table
unfolding listener_row add_listener fields
netstat_lines t [] = t
netstat_lines t (line ∷ lines) = elim (listener_row (fields line)) [
  | none ↦ netstat_lines t lines
  | some (pid, local) ↦ netstat_lines (add_listener t pid local) lines
]

-- `parseNetstat`
unfoldable pub parse_netstat : Bytes → Table
unfolding netstat_lines split
parse_netstat out = netstat_lines (record { by_pid = []; order = [] }) (split b'\n' out)

-- `winProc`, a row of the query's JSON
pub record WinProc (F : Type 0) : Type 0 where
  pub pid : ℤ
  pub name : Bytes
  pub cmd : Bytes
  pub exe : Bytes
  pub start : Bytes
  pub user : Bytes
  pub cpu : F
  pub rss : ℤ

first_filled : Bytes → Bytes → Bytes → Bytes
first_filled cmd exe name =
    if not (is_empty cmd) then cmd else if not (is_empty exe) then exe else name

unfoldable pub win_row : {F : Type 0} → WinProc F → PsRow F
unfolding all_space first_filled
win_row p = record {
  start = p.start;
  user = p.user;
  command = first_filled p.cmd p.exe p.name;
  command_fallback = all_space p.cmd;
  cpu = p.cpu;
  rss = p.rss;
  name = p.name;
}

unfoldable pub win_rows : {F : Type 0} → Map ℤ (PsRow F) → List (WinProc F) → Map ℤ (PsRow F)
unfolding win_row insert
win_rows rows [] = rows
win_rows rows (p ∷ ps) =
    win_rows (if leb_ℤ p.pid (pos 0) then rows else insert p.pid (win_row p) rows) ps

module _ {F : Type 0} (decode_rows : Bytes → Option (List (WinProc F)))
    (decode_row : Bytes → Option (WinProc F)) where
  decoded : Bytes → List (WinProc F)
  decoded json = elim (decode_rows json) [
    | some ps ↦ ps
    | none ↦ (elim (decode_row json) [ none ↦ [] | some p ↦ p ∷ [] ])
  ]

  -- `parseWinProcs`
  unfoldable pub parse_win_procs : Bytes → Map ℤ (PsRow F)
  unfolding win_rows decoded trim_space trim_prefix str_eq
  parse_win_procs json =
      let text = trim_space (trim_prefix json (0xEF ∷ 0xBB ∷ 0xBF ∷ [])) in
      if is_empty text || str_eq text (codes "null") then [] else win_rows [] (decoded text)
