-- ===== src/Ui/Confirm/Tests.antt =====
-- ui/ui.go: the dialog about one of two rows.
use le_cli.Intel.Profile.{is_stop_avoid}
use le_cli.Intel.Docker.{is_docker_helper}
use le_cli.Intel.Profile.{is_stop_docker}
use le_cli.Prelude.{ℕ, codes, true, false, none, some, [], ◌∷◌, ◌≡◌, refl}
use le_cli.Prelude.Int.{pos}
use le_cli.Intel.Profile.{Profile, no_profile, stop_term}
use le_cli.Scan.Listener.{Listener}
use le_cli.Ui.Row.{Row, actionable}
use le_cli.Ui.Confirm.{request_stop, confirm_key}
use le_cli.Ui.Confirm.Laws.{
  System, changes, requests, Reach, here, next, start, Among, confirm_key-asked,
}

abbrev node : Listener ℕ
node = record {
  pid = pos 7;
  command = codes "node";
  command_line = codes "/usr/bin/node app.js";
  command_line_fallback = false;
  user = codes "al";
  start_time = codes "Mon Jan 5 10:00:00 2026";
  cwd = codes "/srv";
  cpu = 0;
  rss = pos 100;
  addrs = codes "*:3000" ∷ [];
  ports = codes "3000" ∷ [];
}

abbrev terminal : Profile
terminal = record no_profile {
  identity = codes "Node.js";
  source = codes "Terminal";
  risk = codes "low";
  stop_kind = stop_term;
  stop_arg = [];
}

abbrev first : Row ℕ
first = record { l = node; p = terminal }

abbrev second : Row ℕ
second = record { l = record node { pid = pos 8; command_line = codes "node" }; p = terminal }

-- The list changes while the dialog about the first row is open.
abbrev asking : System ℕ
asking = record {
  dialog = record { confirm = true; confirmed = first; refusal = none };
  selected = some second;
  menu = none;
  asked = first ∷ [];
}

asking_reached : Reach (start second) asking
unfolding request_stop is_stop_docker is_docker_helper is_stop_avoid
asking_reached =
    next (next (next here (changes (some first))) (requests first refl refl))
      (changes (some second))

confirmed_first : (confirm_key (codes "y") asking.dialog).1 ≡ some first
unfolding confirm_key
confirmed_first = refl

confirm_key-asked_example :
    Among first asking.asked
    × (actionable first ≡ true)
    × ((confirm_key (codes "y") asking.dialog).0.confirm ≡ false)
confirm_key-asked_example = confirm_key-asked (codes "y") first asking_reached refl confirmed_first
