-- ===== src/Kill/Guarded.antt =====
-- kill/context.go: `actionContext`, the stricter stop and restart.
pub mod Safety
use le_cli.Prelude.{
  ℕ, Bytes, codes, Bool, true, false, not, ◌&&◌, ◌||◌, is_empty, str_eq, length, within, leb,
  contains_byte, List, [], ◌∷◌, ◌++◌, Option, none, some, if◌then◌else◌, ◌≡◌, refl,
}
use le_cli.Prelude.Decimal.{itoa}
use le_cli.Prelude.Int.{ℤ, pos, leb_ℤ}
use le_cli.Prelude.Space.{all_space}
use le_cli.Intel.Docker.{is_docker_helper}
use le_cli.Intel.Profile.{
  StopKind, stop_term, stop_brew, stop_docker, stop_launchd, stop_avoid, other, Profile,
  is_stop_docker, is_stop_brew,
}
use le_cli.Intel.Managers
use le_cli.Kill.Identity.{normalize_ws, launchd_guard_ok}
use le_cli.Kill.World.{
  World, OpError, output_limit, op_failed, Error, refused, context, operation, failed, Outcome,
  done, err, Reply, text, fault, M, ◌>>=◌, pure, ask, check, start, term, brew, launchd, run,
}
use le_cli.Scan.Listener.{Listener}

alnum : ℕ → Bool
alnum c = within b'A' b'Z' c || within b'a' b'z' c || within b'0' b'9' c

arg_char : ℕ → Bool
unfolding alnum
arg_char c = alnum c || contains_byte c (codes "_@./+:-")

all_arg_char : Bytes → Bool
unfolding arg_char
all_arg_char [] = true
all_arg_char (c ∷ s) = arg_char c && all_arg_char s

-- `managerArg`: ^[A-Za-z0-9][A-Za-z0-9_@./+:-]{0,255}$
unfoldable pub manager_arg : Bytes → Bool
unfolding alnum all_arg_char
manager_arg [] = false
manager_arg (c ∷ s) = alnum c && leb (length s) 255 && all_arg_char s

abbrev pub refuse : Bytes → M Outcome
refuse message = pure (err (refused message))

-- The strategies that `actionContext` can carry out.
unfoldable pub supported : StopKind → Bool
supported stop_term = true
supported stop_brew = true
supported stop_launchd = true
supported _ = false

-- `intel.LaunchdDomainTarget`, for the user that runs the program
unfoldable pub launchd_domain_target : World → Bytes → Bytes
launchd_domain_target w label = le_cli.Intel.Managers.launchd_domain_target w.uid label

-- `termResult` on Unix
unfoldable pub term_result : ℤ → Bytes
term_result pid = codes "sent SIGTERM to " ++ itoa pid

unfoldable pub verb_of : Bool → Bytes
verb_of restart = if restart then codes "restart" else codes "stop"

module _ (w : World) where
  -- `if err := ctx.Err(); err != nil { return "", err }`, and what follows it
  unless_cancelled : M Outcome → M Outcome
  unless_cancelled rest = do
    e ← ask check w.ctx_err
    (elim e [ none ↦ rest | some m ↦ pure (err (context m)) ])

  -- what follows the switch: the last check, and the command
  run_manager : Bytes → Bytes → List Bytes → M Outcome
  unfolding unless_cancelled
  run_manager verb command args = unless_cancelled (do
    r ← ask (run command args) (λ t. w.run_command t command args)
    (elim r.1 [
      | none ↦ pure (
          done (
            codes "Service manager accepted the "
            ++ (verb ++ codes " operation; refresh to inspect current state.")))
      | some e ↦ unless_cancelled (
          pure (
            err (elim e [
              | output_limit ↦ operation output_limit
              | op_failed m ↦
                  failed
                    (codes "service manager operation failed; refresh to inspect current state")
            ])))
    ]))

  -- the lookup of a label, and what follows if it still belongs to the process
  verify_owner : ℤ → Bytes → Bytes → M Outcome → M Outcome
  unfolding unless_cancelled launchd_guard_ok
  verify_owner pid label message rest = do
    r ← ask (launchd label) (λ t. w.launchd_pid t label)
    unless_cancelled (
        if (elim r.2 [ none ↦ true | some e ↦ false ]) && launchd_guard_ok pid r.0 r.1
        then rest
        else refuse message)

  stop_by_signal : ℤ → M Outcome
  unfolding unless_cancelled
  stop_by_signal pid = unless_cancelled (do
    e ← ask (term pid) (λ t. w.signal t pid)
    (elim e [ none ↦ pure (done (term_result pid)) | some x ↦ pure (err (operation x)) ]))

  by_brew : ℤ → Bytes → Bool → M Outcome
  unfolding verify_owner run_manager
  by_brew pid arg restart =
      if not (manager_arg arg) then refuse (codes "service identifier unavailable") else do
        known ← ask (brew arg) (λ t. w.brew_known t arg)
        unless_cancelled (
            if (elim known.1 [ none ↦ true | some e ↦ false ]) && known.0
            then verify_owner pid (codes "homebrew.mxcl." ++ arg)
                (codes "Homebrew user service no longer owns the selected process; refresh")
                (run_manager (verb_of restart) (codes "brew")
                  (codes "services" ∷ verb_of restart ∷ arg ∷ []))
            else refuse (codes "service manager could not verify the captured service; refresh"))

  by_launchd : ℤ → Bytes → Bool → M Outcome
  unfolding verify_owner run_manager
  by_launchd pid arg restart =
      if not (manager_arg arg)
      then refuse (codes "service identifier unavailable")
      else verify_owner pid arg (codes "launchd identity changed or is unavailable; refresh") (
          run_manager (verb_of restart) (codes "launchctl")
            (codes "bootout" ∷ launchd_domain_target w arg ∷ []))

  -- the switch; no other strategy reaches it
  carry_out : StopKind → ℤ → Bytes → Bool → M Outcome
  unfolding stop_by_signal by_brew by_launchd
  carry_out stop_term pid arg restart = stop_by_signal pid
  carry_out stop_brew pid arg restart = by_brew pid arg restart
  carry_out stop_launchd pid arg restart = by_launchd pid arg restart
  carry_out _ pid arg restart = run_manager (verb_of restart) [] []

  -- the start time read again, against the captured one
  verify_start : ℤ → Bytes → M Outcome → M Outcome
  unfolding unless_cancelled
  verify_start pid captured rest = do
    out ← ask (start pid) (λ t. w.start_time t pid)
    (elim out [
      | fault e ↦
          unless_cancelled (refuse (codes "process identity could not be verified; refresh"))
      | text s ↦
          (if is_empty (normalize_ws s) || not (str_eq (normalize_ws s) (normalize_ws captured))
            then refuse (codes "process exited or changed; refresh")
            else rest)
    ])

  unfoldable pub action_context : {F : Type 0} → Listener F → Profile → Bool → M Outcome
  unfolding unless_cancelled carry_out verify_start launchd_domain_target term_result verb_of
  action_context l p restart = unless_cancelled (
      if is_stop_docker p.stop_kind || is_docker_helper l
      then refuse (
          codes
            "Docker engine and local listener ownership are unverified; use Docker directly in the intended context")
      else if leb_ℤ l.pid (pos 1) || all_space l.start_time
      then refuse (codes "reliable process start identity unavailable; refresh")
      else if not (supported p.stop_kind)
      then refuse (codes "no safe automatic action")
      else if restart && not (is_stop_brew p.stop_kind)
      then refuse (codes "restart requires a supported service manager")
      else verify_start l.pid l.start_time (carry_out p.stop_kind l.pid p.stop_arg restart))
