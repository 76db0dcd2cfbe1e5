-- ===== src/Ui/Scans.antt =====
-- ui/ui.go: the background scans, that is `requestScan` and the cases of `update` and `onKey` that
-- start, finish, pause and refresh them. A command is named by its id; time is a number.
pub mod Laws
use le_cli.Prelude.{
  ℕ, suc, ◌+◌, ◌%◌, ◌^◌, Bool, true, false, not, ◌&&◌, ◌||◌, ltb, Option, none, some, ◌==◌,
  if◌then◌else◌,
}

pub record Scans : Type 0 where
  pub paused : Bool
  pub in_flight : Bool
  pub next_id : ℕ
  pub active_id : ℕ
  pub apply_active : Bool
  pub active_manual : Bool
  pub loading : Bool
  pub pending : Bool
  pub pending_manual : Bool
  pub last_scan : ℕ

-- `New`
abbrev pub initial : Scans
initial = record {
  paused = false;
  in_flight = false;
  next_id = 0;
  active_id = 0;
  apply_active = false;
  active_manual = false;
  loading = true;
  pending = false;
  pending_manual = false;
  last_scan = 0;
}

-- The new state, and the id of the scan that is started, if one is.
unfoldable pub request_scan : Scans → Bool → Scans × Option ℕ
request_scan m manual =
    if m.paused && not manual
    then (m, none)
    else if m.in_flight
    then (record m { pending = true; pending_manual = m.pending_manual || manual }, none)
    else let id = (m.next_id + 1) % 2 ^ 64 in
      (
        record m {
          next_id = id;
          active_id = id;
          in_flight = true;
          apply_active = true;
          active_manual = manual;
          loading = true;
        },
        some id,
      )

-- Whether the outcome of the active scan may still be shown.
unfoldable pub accepts : Scans → ℕ → Bool
accepts m at = m.apply_active && (not m.paused || m.active_manual) && not (ltb at m.last_scan)

-- `case scannedMsg`: the flags tell whether the scan failed, and (in the result) whether its rows
-- replace the ones on screen.
unfoldable pub scanned : Scans → ℕ → ℕ → Bool → Scans × Bool × Option ℕ
unfolding request_scan accepts
scanned m id at error =
    if not m.in_flight || not (id == m.active_id)
    then (m, false, none)
    else let shows = accepts m at && not error in
      let released = record m {
        in_flight = false;
        loading = false;
        last_scan = if shows then at else m.last_scan;
        pending = false;
        pending_manual = false;
      } in
      if m.pending
      then (let (next, cmd) = request_scan released m.pending_manual in (next, shows, cmd))
      else (released, shows, none)

-- `case "p"`
unfoldable pub toggle_pause : Scans → Scans × Option ℕ
unfolding request_scan
toggle_pause m =
    if not m.paused
    then (
      record m {
        paused = true;
        apply_active = false;
        pending = false;
        pending_manual = false;
        loading = false;
      },
      none,
    )
    else request_scan (record m { paused = false }) false
