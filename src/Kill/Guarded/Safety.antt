-- ===== src/Kill/Guarded/Safety.antt =====
-- kill/context.go: the checks of `actionContext`, stated of the outside's answers and of the
-- calls.
use le_cli.Prelude.{
  ◌≤◌, Bytes, codes, Bool, true, false, is_empty, str_eq, str_eq_iff, [], ◌∷◌, ◌++◌, none, ◌≡◌,
  refl, ◌⊎◌, arith, ◌<◌, ◌≢◌, All, ap,
}
use le_cli.Prelude.Int.{ℤ, pos, ltb_ℤ, eqb_ℤ_iff}
use le_cli.Prelude.Space.{all_space}
use le_cli.Intel.Docker.{is_docker_helper}
use le_cli.Intel.Profile.{stop_term, stop_brew, stop_launchd, Profile, is_stop_docker, is_stop_brew}
use le_cli.Kill.Guarded.{
  manager_arg, supported, action_context, term, run, verb_of, launchd_domain_target, Option, some,
}
use le_cli.Kill.Identity.{normalize_ws, launchd_guard_ok}
use le_cli.Kill.World.{World, OpError, text, check, start, brew, mutations, Call, Tally}
use le_cli.Scan.Listener.{Listener}

-- What was established about the process before anything was done to it.
pub record Verified {F : Type 0} (w : World) (l : Listener F) (p : Profile) (restart : Bool)
    : Type 0 where
  pub no_docker : is_docker_helper l ≡ false
  pub real_pid : ltb_ℤ (pos 1) l.pid ≡ true
  pub captured : all_space l.start_time ≡ false
  pub known_strategy : supported p.stop_kind ≡ true
  pub restart_needs_brew : restart ≡ true → p.stop_kind ≡ stop_brew
  pub current : Bytes
  pub read_again : w.start_time (check ∷ []) l.pid ≡ text current
  pub same_process : normalize_ws current ≡ normalize_ws l.start_time
  pub not_blank : is_empty (normalize_ws current) ≡ false

-- What was established about the service that is stopped or restarted for the process. The lists
-- are the calls made before each lookup.
pub record Owned {F : Type 0} (w : World) (l : Listener F) (p : Profile) : Type 0 where
  pub plain_arg : manager_arg p.stop_arg ≡ true
  pub registered :
      p.stop_kind ≡ stop_brew → w.brew_known (check ∷ start l.pid ∷ []) p.stop_arg ≡ (true, none)
  pub brew_owner :
      p.stop_kind ≡ stop_brew
      → w.launchd_pid
          (check ∷ start l.pid ∷ brew p.stop_arg ∷ check ∷ [])
          (codes "homebrew.mxcl." ++ p.stop_arg)
        ≡ (l.pid, true, none)
  pub launchd_owner :
      p.stop_kind ≡ stop_launchd
      → w.launchd_pid (check ∷ start l.pid ∷ []) p.stop_arg ≡ (l.pid, true, none)

-- The calls that may change something are aimed at the process, or at its service.
abbrev pub IsAimed : {F : Type 0} → World → Listener F → Profile → Bool → Call → Type 0
IsAimed w l p restart (term pid) = (pid ≡ l.pid) × (p.stop_kind ≡ stop_term)
IsAimed w l p restart (run name args) =
    ((p.stop_kind ≡ stop_brew)
      × (name ≡ codes "brew")
      × (args ≡ codes "services" ∷ verb_of restart ∷ p.stop_arg ∷ []))
    ⊎ ((p.stop_kind ≡ stop_launchd)
        × (restart ≡ false)
        × (name ≡ codes "launchctl")
        × (args ≡ codes "bootout" ∷ launchd_domain_target w p.stop_arg ∷ []))
IsAimed w l p restart _ = Unit

is_none : {A : Type 0} → Option A → Bool
is_none none = true
is_none (some a) = false

owner_of :
    (pid : ℤ) (r : ℤ × Bool × Option OpError)
    → is_none r.2 ≡ true
    → launchd_guard_ok pid r.0 r.1 ≡ true
    → r ≡ (pid, true, none)
unfolding launchd_guard_ok is_none
owner_of pid (c, true, none) n h = ap (λ x. (x, true, none)) ((eqb_ℤ_iff c pid).0 h)
owner_of pid (c, false, none) n h = cc
owner_of pid (c, b, some e) n h = cc

known_of : (r : Bool × Option OpError) → is_none r.1 ≡ true → r.0 ≡ true → r ≡ (true, none)
unfolding is_none
known_of (true, none) n h = refl
known_of (false, none) n h = cc
known_of (b, some e) n h = cc

module _ {F : Type 0} (w : World) (l : Listener F) (p : Profile) (restart : Bool) where
  -- Whatever the outside answers, at most one call stops or restarts anything.
  pub action_context_once : mutations (action_context w l p restart []).1 ≤ 1
  unfolding action_context is_stop_docker supported is_stop_brew
  action_context_once = ground arith

  -- Whatever the outside answers, the only process that is signalled is the listener's, and the
  -- only commands are `brew services stop` or `restart` of its formula for a Homebrew service and
  -- `launchctl bootout` of its label for a launchd job that is to be stopped.
  pub action_context-IsAimed : All (IsAimed w l p restart) (action_context w l p restart []).1
  unfolding action_context is_stop_docker supported is_stop_brew
  action_context-IsAimed = ground arith

  reread :
      0 < mutations (action_context w l p restart []).1
      → (out : Bytes) × (w.start_time (check ∷ []) l.pid ≡ text out)
        × (str_eq (normalize_ws out) (normalize_ws l.start_time) ≡ true)
        × (is_empty (normalize_ws out) ≡ false)
  unfolding action_context is_stop_docker supported is_stop_brew
  reread h = ground arith

  guards :
      0 < mutations (action_context w l p restart []).1
      → (is_docker_helper l ≡ false)
        × (ltb_ℤ (pos 1) l.pid ≡ true)
        × (all_space l.start_time ≡ false)
        × (supported p.stop_kind ≡ true)
        × (restart ≡ true → p.stop_kind ≡ stop_brew)
  unfolding action_context is_stop_docker supported is_stop_brew
  guards h = ground arith

  -- If a call is made that stops or restarts anything, then before it all the checks had passed:
  -- the listener is no Docker helper, its PID is above 1, it had a start time when it was scanned,
  -- the strategy is a signal, Homebrew or launchd, a restart is Homebrew's, and the start time read
  -- again is the captured one up to white space, and not blank.
  pub action_context-Verified :
      0 < mutations (action_context w l p restart []).1 → Verified w l p restart
  action_context-Verified h =
      let (out, read, same, full) = reread h in
      let (docker, real, captured, known, brews) = guards h in
      record {
        no_docker = docker;
        real_pid = real;
        captured = captured;
        known_strategy = known;
        restart_needs_brew = brews;
        current = out;
        read_again = read;
        same_process = (str_eq_iff _ _).0 same;
        not_blank = full;
      }

  -- If a call is made that stops or restarts anything, and the strategy is not a signal, then the
  -- service's name has the plain form, and launchd had just reported that the service's job is
  -- this PID; a Homebrew formula was also known to brew.
  pub action_context-Owned :
      0 < mutations (action_context w l p restart []).1 → p.stop_kind ≢ stop_term → Owned w l p
  unfolding action_context is_stop_docker supported is_stop_brew is_none
  action_context-Owned h ne = record {
    plain_arg = ground arith;
    registered = λ k. known_of _ (ground arith) (ground arith);
    brew_owner = λ k. owner_of _ _ (ground arith) (ground arith);
    launchd_owner = λ k. owner_of _ _ (ground arith) (ground arith);
  }

  -- Whatever the outside answers, a success has made exactly one call that stops or restarts
  -- something, a refusal none, and any other failure at most one.
  pub action_context-Tally :
      Tally (action_context w l p restart []).0 (mutations (action_context w l p restart []).1)
  unfolding action_context is_stop_docker supported is_stop_brew
  action_context-Tally = ground arith
