-- ===== src/Ui/Tests.antt =====
-- ui/ on a list of two rows of one owner, and on the scans that a start, a tick and a refresh make.
use mathlib.Core.List.{Perm}
use le_cli.Prelude.{Bool, length}
use le_cli.Prelude.Letters.{to_lower}
use le_cli.Prelude.Space.{trim_space}
use le_cli.Ui.View.{Viewing, sort_pid, apply_filter}
use le_cli.Ui.View.Laws.{IsPinnedFirst, Selects, Matches, apply_filter-IsPinnedFirst}
use le_cli.Ui.Groups.{summarize}
use le_cli.Prelude.Int.{eqb_ℤ}
use le_cli.Prelude.{
  ℕ, get_elem?, ◌+◌, ◌-◌, ◌≤◌, max, ◌≡◌, codes, Bytes, Bool, List, [], ◌∷◌, true, false, none, some,
  refl, All, ◌⊎◌, length, is_empty, str_eq, if◌then◌else◌,
}
use le_cli.Prelude.Int.{pos}
use le_cli.Prelude.Space.{all_space}
use le_cli.Intel.Profile.{Profile, no_profile, stop_term}
use le_cli.Scan.Listener.{Listener}
use le_cli.Intel.Evidence.{has_command_line}
use le_cli.Ui.Row.{Row, header, entry, same_process, same_process_sound}
use le_cli.Ui.Items.{Folding, owner_of, build_items}
use le_cli.Ui.Items.Laws.{shown, hidden, IsHonest, build_items-IsHonest}
use le_cli.Ui.Items.Lines.{lines_of, folds, build_items-lines_of}
use le_cli.Ui.Cursor.{Screen, selected, selection, restore_selection, clamp}
use le_cli.Ui.Cursor.Laws.{shows, restore_selection-follows}
use le_cli.Ui.Scans.{initial, request_scan, scanned}
use le_cli.Ui.Scans.Laws.{
  System, tick, refresh, Reach, here, next, boot, IsCoherent, Reach-IsCoherent, answer_serves,
}

abbrev node : Listener ℕ
node = record {
  pid = pos 7;
  command = codes "node";
  command_line = codes "/usr/bin/node app.js";
  command_line_fallback = false;
  user = codes "al";
  start_time = codes "Mon Jan 5 10:00:00 2026";
  cwd = codes "/srv";
  cpu = 0;
  rss = pos 100;
  addrs = codes "*:3000" ∷ [];
  ports = codes "3000" ∷ [];
}

abbrev terminal : Profile
terminal = record no_profile {
  identity = codes "Node.js";
  source = codes "Terminal";
  risk = codes "low";
  stop_kind = stop_term;
  stop_arg = [];
}

abbrev first : Row ℕ
first = record { l = node; p = terminal }

abbrev second : Row ℕ
second = record { l = record node { pid = pos 8; command_line = codes "node" }; p = terminal }

abbrev view : List (Row ℕ)
view = first ∷ second ∷ []

abbrev folding : Folding
folding = record { grouped = true; filter = codes "node"; favs = []; collapsed = [] }

abbrev screen : Screen ℕ
screen = record {
  items = header (codes "Terminal") 2 0 ∷ entry first 0 ∷ entry second 1 ∷ [];
  cursor = pos 1;
  offset = pos 0;
  height = pos 40;
  selection_lost = false;
  pane_focus = true;
  pane_idx = pos 0;
}

abbrev swapped : Screen ℕ
swapped = record screen {
  items = header (codes "Terminal") 2 0 ∷ entry second 0 ∷ entry first 1 ∷ [];
}

abbrev only_node : Bytes → Bool
only_node path = str_eq path (codes "/usr/bin/node")

same : same_process node (record node { cpu = 3 }) ≡ true
unfolding same_process eqb_ℤ str_eq
same = refl

same_process_sound_example :
    (pos 7 ≡ pos 7)
    × (node.start_time ≡ node.start_time)
    × (is_empty node.start_time ≡ true
        → (node.command_line ≡ node.command_line) × (has_command_line node ≡ true))
same_process_sound_example = same_process_sound node (record node { cpu = 3 }) same

build_items-lines_of_example :
    (shown (build_items folding view)
        + (if all_space folding.filter then hidden (build_items folding view) else 0)
      ≡ 2)
    × ((i : ℕ) (r : Row ℕ)
        → get_elem? view i ≡ some r
        → lines_of i (build_items folding view)
            + (if all_space folding.filter
                then folds (owner_of r) (build_items folding view)
                else 0)
          ≡ 1)
build_items-lines_of_example = build_items-lines_of folding view

build_items-IsHonest_example : All (IsHonest folding view) (build_items folding view)
build_items-IsHonest_example = build_items-IsHonest folding view

on_first : selected screen ≡ some first
unfolding selected
on_first = refl

restore_selection-follows_example :
    let after = clamp (restore_selection swapped (selection screen)) in
    ((s : Row ℕ) × ((selected after ≡ some s) × (same_process first.l s.l ≡ true)))
    ⊎ ((selected after ≡ none) × (shows first swapped.items ≡ false))
restore_selection-follows_example = restore_selection-follows screen swapped first on_first

-- A scan runs, and a refresh waits for it.
abbrev waiting : System
waiting = record {
  ui = record initial {
    in_flight = true;
    next_id = 1;
    active_id = 1;
    apply_active = true;
    pending = true;
    pending_manual = true;
  };
  running = 1 ∷ [];
}

waiting_reached : Reach boot waiting
unfolding request_scan
waiting_reached = next (next here tick) refresh

Reach-IsCoherent_example : IsCoherent waiting
Reach-IsCoherent_example = Reach-IsCoherent waiting_reached

answer_serves_example :
    let after = scanned waiting.ui 1 5 false in
    (after.0.in_flight ≡ true) × (after.0.pending ≡ false) × (after.2 ≡ some after.0.active_id)
answer_serves_example = answer_serves 5 false waiting_reached refl

abbrev by_pid : Viewing
by_pid = record {
  filter = codes "node";
  sort_col = sort_pid;
  sort_asc = false;
  favs = codes "3000" ∷ [];
}

abbrev no_order : ℕ → ℕ → Bool
no_order a b = false

both_shown : length (apply_filter to_lower no_order by_pid view) ≡ 2
unfolding apply_filter all_space to_lower le_cli.Prelude.Maps.elem
both_shown = refl

apply_filter-IsPinnedFirst_example :
    ((found : List (Row ℕ)) × Selects
        (Matches to_lower no_order (to_lower (trim_space by_pid.filter)))
        view
        found
      × Perm (apply_filter to_lower no_order by_pid view) found)
    × IsPinnedFirst by_pid.favs (apply_filter to_lower no_order by_pid view)
apply_filter-IsPinnedFirst_example = apply_filter-IsPinnedFirst to_lower no_order by_pid view

folded_text : summarize view (codes "Terminal") ≡ codes "3000, 3000"
unfolding summarize le_cli.Prelude.Decimal.atoi
folded_text = refl
