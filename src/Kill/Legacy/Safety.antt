-- ===== src/Kill/Legacy/Safety.antt =====
-- kill/kill.go: the identity that `Stop` and `Restart` check, stated of the outside's answers.
use le_cli.Prelude.{◌≤◌, ◌<◌, Bytes, true, false, is_empty, str_eq_iff, [], ◌≡◌, ◌≢◌, refl, arith}
use le_cli.Intel.Docker.{is_docker_helper}
use le_cli.Intel.Profile.{stop_brew, stop_docker, stop_avoid, Profile, is_stop_docker}
use le_cli.Kill.Identity.{normalize_ws, same_start, same_command, still_same}
use le_cli.Kill.Legacy.{stop, restart}
use le_cli.Kill.World.{World, Reply, text, fault, mutations, Tally}
use le_cli.Scan.Listener.{Listener}

-- The process has the identity that was scanned: the start time if one was captured, and the whole
-- command line otherwise.
pub record Identified {F : Type 0} (w : World) (l : Listener F) : Type 0 where
  pub by_start :
      l.start_time ≢ []
      → (out : Bytes) × (w.start_time [] l.pid ≡ text out)
        × (normalize_ws out ≡ normalize_ws l.start_time)
  pub by_command :
      l.start_time ≡ []
      → (out : Bytes) × (w.command_line [] l.pid ≡ text out)
        × (normalize_ws out ≡ normalize_ws l.command_line)
        × (is_empty (normalize_ws out) ≡ false)

same_start_text :
    (captured : Bytes) (r : Reply)
    → same_start captured r ≡ true
    → (out : Bytes) × (r ≡ text out) × (normalize_ws out ≡ normalize_ws captured)
unfolding same_start
same_start_text captured (text out) h = (out, refl, (str_eq_iff _ _).0 h)
same_start_text captured (fault e) h = cc

same_command_text :
    (captured : Bytes) (r : Reply)
    → same_command captured r ≡ true
    → (out : Bytes) × (r ≡ text out)
      × (normalize_ws out ≡ normalize_ws captured)
      × (is_empty (normalize_ws out) ≡ false)
unfolding same_command
same_command_text captured (text out) h =
    (out, refl, (str_eq_iff _ _).0 (ground arith), ground arith)
same_command_text captured (fault e) h = cc

still_same-Identified :
    {F : Type 0} (w : World) (l : Listener F)
    → (l.start_time ≢ [] → same_start l.start_time (w.start_time [] l.pid) ≡ true)
    → (l.start_time ≡ [] → same_command l.command_line (w.command_line [] l.pid) ≡ true)
    → Identified w l
still_same-Identified w l h k = record {
  by_start = λ ne. same_start_text _ _ (h ne);
  by_command = λ e. same_command_text _ _ (k e);
}

module _ {F : Type 0} (w : World) (l : Listener F) (p : Profile) where
  -- If `Stop` makes a call that stops anything, then the listener is no Docker helper, the advice
  -- was not to avoid it, and the process still has the identity that was scanned.
  pub stop-Identified :
      0 < mutations (stop w l p []).1
      → (is_docker_helper l ≡ false)
        × (p.stop_kind ≢ stop_avoid)
        × (p.stop_kind ≢ stop_docker)
        × Identified w l
  unfolding stop still_same is_stop_docker
  stop-Identified h = (
    ground arith,
    ground arith,
    ground arith,
    still_same-Identified w l (λ ne. ground arith) (λ e. ground arith),
  )

  -- If `Restart` makes a call that stops or restarts anything, then the strategy is Homebrew and
  -- the
  -- process still has the identity that was scanned.
  pub restart-Identified :
      0 < mutations (restart w l p []).1 → (p.stop_kind ≡ stop_brew) × Identified w l
  unfolding restart still_same is_stop_docker
  restart-Identified h =
      (ground arith, still_same-Identified w l (λ ne. ground arith) (λ e. ground arith))

  -- Whatever the outside answers, `Stop` makes at most one call that stops anything.
  pub stop_once : mutations (stop w l p []).1 ≤ 1
  unfolding stop still_same is_stop_docker
  stop_once = ground arith

  -- Whatever the outside answers, a success of `Stop` has made exactly one call that stops something,
  -- a refusal none, and any other failure at most one.
  pub stop-Tally : Tally (stop w l p []).0 (mutations (stop w l p []).1)
  unfolding stop still_same is_stop_docker
  stop-Tally = ground arith
