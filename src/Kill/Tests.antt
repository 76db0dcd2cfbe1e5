-- ===== src/Kill/Tests.antt =====
-- kill/ on a Homebrew service and on a process stopped by a signal, with an outside that agrees.
use le_cli.Prelude.{ℕ, ◌<◌, codes, [], ◌∷◌, true, false, none, ◌≡◌, ◌≢◌, arith, All}
use le_cli.Prelude.Int.{pos}
use le_cli.Intel.Docker.{is_docker_helper}
use le_cli.Intel.Profile.{Profile, no_profile, stop_term, stop_brew, stop_docker, stop_avoid}
use le_cli.Kill.World.{World, text, mutations, Tally}
use le_cli.Kill.Identity.{still_same, same_start, normalize_ws}
use le_cli.Kill.Guarded.{action_context, term_result}
use le_cli.Kill.Guarded.Safety.{
  Verified, Owned, IsAimed, action_context-Tally, action_context-IsAimed, action_context-Verified,
  action_context-Owned,
}
use le_cli.Intel.Tests.{web, gathered, advice, made}
use le_cli.Kill.Advice.{IsMeant, make-action_context}
use le_cli.Kill.Legacy.{stop, restart}
use le_cli.Kill.Legacy.Safety.{Identified, stop-Identified, restart-Identified}
use le_cli.Scan.Listener.{Listener}

abbrev agreeing : World
agreeing = record {
  ctx_err = λ t. none;
  start_time = λ t pid. text (codes "Mon Jan  5 10:00:00 2026");
  command_line = λ t pid. text (codes "postgres -D data");
  signal = λ t pid. none;
  brew_known = λ t name. (true, none);
  launchd_pid = λ t label. (pos 42, true, none);
  run_command = λ t name args. ([], none);
  uid = pos 501;
}

abbrev postgres : Listener ℕ
postgres = record {
  pid = pos 42;
  command = codes "postgres";
  command_line = codes "postgres -D data";
  command_line_fallback = false;
  user = codes "al";
  start_time = codes "Mon Jan 5 10:00:00 2026";
  cwd = [];
  cpu = 0;
  rss = pos 100;
  addrs = codes "127.0.0.1:5432" ∷ [];
  ports = codes "5432" ∷ [];
}

abbrev service : Profile
service = record no_profile {
  identity = codes "PostgreSQL";
  source = codes "Homebrew";
  risk = codes "low";
  stop_kind = stop_brew;
  stop_arg = codes "postgresql@16";
}

abbrev by_hand : Profile
by_hand = record service { stop_kind = stop_term; stop_arg = [] }

acts : 0 < mutations (action_context agreeing postgres service false []).1
unfolding action_context le_cli.Intel.Profile.is_stop_docker is_docker_helper
    le_cli.Kill.Guarded.supported normalize_ws le_cli.Kill.Guarded.manager_arg
acts = omega arith

action_context-Verified_example : Verified agreeing postgres service false
action_context-Verified_example = action_context-Verified agreeing postgres service false acts

action_context-Owned_example : Owned agreeing postgres service
action_context-Owned_example = action_context-Owned agreeing postgres service false acts (λ e. cc)

action_context-IsAimed_example :
    All
      (IsAimed agreeing postgres service false)
      (action_context agreeing postgres service false []).1
action_context-IsAimed_example = action_context-IsAimed agreeing postgres service false

stops : 0 < mutations (stop agreeing postgres by_hand []).1
unfolding stop is_docker_helper still_same same_start normalize_ws
stops = omega arith

restarts : 0 < mutations (restart agreeing postgres service []).1
unfolding restart is_docker_helper still_same same_start normalize_ws
restarts = omega arith

stop-Identified_example :
    (is_docker_helper postgres ≡ false)
    × (by_hand.stop_kind ≢ stop_avoid)
    × (by_hand.stop_kind ≢ stop_docker)
    × Identified agreeing postgres
stop-Identified_example = stop-Identified agreeing postgres by_hand stops

restart-Identified_example : (service.stop_kind ≡ stop_brew) × Identified agreeing postgres
restart-Identified_example = restart-Identified agreeing postgres service restarts

action_context-Tally_example :
    Tally
      (action_context agreeing postgres service false []).0
      (mutations (action_context agreeing postgres service false []).1)
action_context-Tally_example = action_context-Tally agreeing postgres service false

make-action_context_example :
    All (IsMeant agreeing web gathered false) (action_context agreeing web advice false []).1
make-action_context_example = make-action_context agreeing web gathered advice false made
