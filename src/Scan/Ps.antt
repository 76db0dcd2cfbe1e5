-- ===== src/Scan/Ps.antt =====
-- scan/scan_unix.go: what ps prints for a set of PIDs, read by `readPSWithRunner`. `F` is Go's
-- `float64`, with its zero and the value that `strconv.ParseFloat` returns.
pub mod Laws
use le_cli.Prelude.{
  differ, ℕ, Bytes, codes, Bool, true, false, not, length, take, drop, ltb, join, split, List, [],
  ◌∷◌, Option, none, some, ◌==◌, if◌then◌else◌,
}
use le_cli.Prelude.Decimal.{atoi, NumError}
use le_cli.Prelude.Int.{ℤ, pos}
use le_cli.Prelude.Maps.{Map, int_eq, lookup, insert, elem}
use le_cli.Prelude.Space.{fields}
use le_cli.Scan.Unescape.{unescape_ps}

-- `psRow`; `name` is set on Windows only.
pub record PsRow (F : Type 0) : Type 0 where
  pub start : Bytes
  pub user : Bytes
  pub command : Bytes
  pub command_fallback : Bool
  pub cpu : F
  pub rss : ℤ
  pub name : Bytes

read_pid : Bytes → List Bytes → Option (ℤ × List Bytes)
read_pid f rest = elim (atoi f).1 [ none ↦ some ((atoi f).0, rest) | some e ↦ none ]

-- The first field as a PID, with the fields behind it, if there are at least `n` fields.
pid_fields : ℕ → List Bytes → Option (ℤ × List Bytes)
unfolding read_pid atoi
pid_fields n [] = none
pid_fields n (f ∷ fs) = if ltb (length (f ∷ fs)) n then none else read_pid f fs

module _ {F : Type 0} (zero_float : F) where
  -- `rows[pid]`, with the zero row for a PID that has none
  unfoldable pub row_of : ℤ → Map ℤ (PsRow F) → PsRow F
  row_of pid rows = elim (lookup pid rows) [
    | some r ↦ r
    | none ↦ record {
      start = [];
      user = [];
      command = [];
      command_fallback = false;
      cpu = zero_float;
      rss = pos 0;
      name = [];
    }
  ]

  -- A round of the loops of `parsePSUserLines` and `parsePSCommandLines`: the rows, and the PIDs
  -- that were seen.
  user_line : Map ℤ (PsRow F) × List ℤ → Bytes → Map ℤ (PsRow F) × List ℤ
  unfolding row_of pid_fields
  user_line (rows, seen) line = elim (pid_fields 7 (fields line)) [
    | none ↦ (rows, seen)
    | some f ↦ (
      insert f.0
          (record (row_of f.0 rows) {
            start = join (codes " ") (take 5 f.1);
            user = join (codes " ") (drop 5 f.1);
          })
          rows,
      f.0 ∷ seen,
    )
  ]

  command_values : List Bytes → PsRow F → PsRow F
  command_values [] r = r
  command_values (w ∷ ws) r = record r { command = unescape_ps (join (codes " ") (w ∷ ws)) }

  command_line : Map ℤ (PsRow F) × List ℤ → Bytes → Map ℤ (PsRow F) × List ℤ
  unfolding row_of pid_fields command_values
  command_line (rows, seen) line = elim (pid_fields 1 (fields line)) [
    | none ↦ (rows, seen)
    | some f ↦ (insert f.0 (command_values f.1 (row_of f.0 rows)) rows, f.0 ∷ seen)
  ]

  resource_values : (Bytes → F) → List Bytes → PsRow F → PsRow F
  unfolding atoi
  resource_values parse_float (c ∷ (m ∷ fs)) r = record r { cpu = parse_float c; rss = (atoi m).0 }
  resource_values parse_float fs r = r

  resource_line : (Bytes → F) → Map ℤ (PsRow F) → Bytes → Map ℤ (PsRow F)
  unfolding row_of pid_fields resource_values
  resource_line parse_float rows line = elim (pid_fields 3 (fields line)) [
    | none ↦ rows
    | some f ↦ insert f.0 (resource_values parse_float f.1 (row_of f.0 rows)) rows
  ]

  user_lines : Map ℤ (PsRow F) × List ℤ → List Bytes → Map ℤ (PsRow F) × List ℤ
  user_lines st [] = st
  user_lines st (x ∷ xs) = user_lines (user_line st x) xs

  command_lines : Map ℤ (PsRow F) × List ℤ → List Bytes → Map ℤ (PsRow F) × List ℤ
  command_lines st [] = st
  command_lines st (x ∷ xs) = command_lines (command_line st x) xs

  resource_lines : (Bytes → F) → Map ℤ (PsRow F) → List Bytes → Map ℤ (PsRow F)
  resource_lines parse_float rows [] = rows
  resource_lines parse_float rows (x ∷ xs) =
      resource_lines parse_float (resource_line parse_float rows x) xs

-- `dropPartialRows`
drop_partial_rows : {F : Type 0} → List ℤ → List ℤ → Map ℤ (PsRow F) → Map ℤ (PsRow F)
unfolding elem
drop_partial_rows seen_user seen_command [] = []
drop_partial_rows seen_user seen_command ((pid, r) ∷ rows) =
    let rest = drop_partial_rows seen_user seen_command rows in
    if differ (elem pid seen_user) (elem pid seen_command) then rest else (pid, r) ∷ rest

-- `readPSWithRunner` on the outputs of its three ps calls
unfoldable pub read_ps : {F : Type 0} → F → (Bytes → F) → Bytes → Bytes → Bytes → Map ℤ (PsRow F)
unfolding user_lines command_lines resource_lines user_line command_line resource_line
    drop_partial_rows
read_ps zero_float parse_float out1 out2 out3 =
    let users = user_lines zero_float ([], []) (split b'\n' out1) in
    let commands = command_lines zero_float (users.0, []) (split b'\n' out2) in
    let rows = resource_lines zero_float parse_float commands.0 (split b'\n' out3) in
    drop_partial_rows users.1 commands.1 rows
