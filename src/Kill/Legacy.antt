-- ===== src/Kill/Legacy.antt =====
-- kill/kill.go: `Stop` and `Restart`.
pub mod Safety
use le_cli.Prelude.{
  Bytes, codes, Bool, true, false, not, ◌||◌, is_empty, [], ◌∷◌, ◌++◌, List, none, some,
  if◌then◌else◌,
}
use le_cli.Prelude.Decimal.{itoa}
use le_cli.Prelude.Int.{ℤ}
use le_cli.Prelude.Space.{trim_space}
use le_cli.Intel.Docker.{is_docker_helper}
use le_cli.Intel.Profile.{
  StopKind, stop_term, stop_brew, stop_docker, stop_launchd, stop_avoid, other, Profile,
  is_stop_docker,
}
use le_cli.Kill.Guarded.{launchd_domain_target, term_result}
use le_cli.Kill.Identity.{launchd_guard_ok, still_same}
use le_cli.Kill.World.{
  World, OpError, output_limit, op_failed, Error, failed, Outcome, done, err, M, ◌>>=◌, pure, ask,
  term, brew, launchd, run, Reason, docker_manual, no_safe_restart, avoid_inspect, recycled,
  declined, label_moved, formula_unknown, brew_not_owner,
}
use le_cli.Scan.Listener.{Listener}

abbrev fail : Reason → M Outcome
fail why = pure (err (declined why))

error_text : OpError → Bytes
error_text output_limit = codes "subprocess output limit exceeded"
error_text (op_failed m) = m

-- `cmdErr`
unfoldable pub cmd_err : Bytes → Bytes → OpError → Error
unfolding error_text trim_space
cmd_err action out e =
    let msg = trim_space out in
    failed (action ++ (codes ": " ++ (if is_empty msg then error_text e else msg)))

-- `runCombined`, and the result of a command whose text is `action`
run_combined : World → Bytes → Bytes → List Bytes → M Outcome
unfolding cmd_err
run_combined w action name args = do
  r ← ask (run name args) (λ t. w.run_command t name args)
  elim r.1 [ none ↦ pure (done action) | some e ↦ pure (err (cmd_err action r.0 e)) ]

-- `case intel.StopBrew` of both functions; the verb is "stop" or "restart"
through_brew : World → ℤ → Bytes → Bytes → M Outcome
unfolding run_combined launchd_guard_ok
through_brew w pid arg verb = do
  known ← ask (brew arg) (λ t. w.brew_known t arg)
  elim known.0 [
    | false ↦ fail (formula_unknown arg)
    | true ↦ do
      r ←
          ask (launchd (codes "homebrew.mxcl." ++ arg))
            (λ t. w.launchd_pid t (codes "homebrew.mxcl." ++ arg))
      elim (launchd_guard_ok pid r.0 r.1) [
        | false ↦ fail brew_not_owner
        | true ↦
            run_combined w (codes "brew services " ++ (verb ++ (codes " " ++ arg))) (codes "brew")
              (codes "services" ∷ verb ∷ arg ∷ [])
      ]
  ]

through_launchd : World → ℤ → Bytes → M Outcome
unfolding run_combined launchd_guard_ok
through_launchd w pid arg = do
  r ← ask (launchd arg) (λ t. w.launchd_pid t arg)
  elim (launchd_guard_ok pid r.0 r.1) [
    | false ↦ fail (label_moved arg pid)
    | true ↦
        run_combined w (codes "launchctl bootout " ++ launchd_domain_target w arg)
          (codes "launchctl") (codes "bootout" ∷ launchd_domain_target w arg ∷ [])
  ]

by_signal : World → ℤ → M Outcome
unfolding error_text
by_signal w pid = do
  e ← ask (term pid) (λ t. w.signal t pid)
  (elim e [
    | none ↦ pure (done (term_result pid))
    | some x ↦
        pure (err (failed (codes "kill -TERM " ++ (itoa pid ++ (codes ": " ++ error_text x)))))
  ])

-- the switch of `Stop`: its default case signals the process
stop_by : World → StopKind → ℤ → Bytes → M Outcome
unfolding through_brew through_launchd by_signal
stop_by w stop_brew pid arg = through_brew w pid arg (codes "stop")
stop_by w stop_launchd pid arg = through_launchd w pid arg
stop_by w stop_avoid pid arg = fail avoid_inspect
stop_by w _ pid arg = by_signal w pid

restart_by : World → StopKind → ℤ → Bytes → Bytes → M Outcome
unfolding through_brew
restart_by w stop_brew pid arg identity = through_brew w pid arg (codes "restart")
restart_by w _ pid arg identity = fail (no_safe_restart identity)

-- the two guards that `Stop` and `Restart` begin with
guarded : {F : Type 0} → World → Listener F → Profile → M Outcome → M Outcome
unfolding is_stop_docker
guarded w l p rest =
    if is_stop_docker p.stop_kind || is_docker_helper l
    then fail docker_manual
    else do same ← still_same w l; if not same then fail (recycled l.pid) else rest

unfoldable pub stop : {F : Type 0} → World → Listener F → Profile → M Outcome
unfolding guarded stop_by
stop w l p = guarded w l p (stop_by w p.stop_kind l.pid p.stop_arg)

unfoldable pub restart : {F : Type 0} → World → Listener F → Profile → M Outcome
unfolding guarded restart_by
restart w l p = guarded w l p (restart_by w p.stop_kind l.pid p.stop_arg p.identity)
