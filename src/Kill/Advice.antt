-- ===== src/Kill/Advice.antt =====
-- kill/context.go on the advice of intel/intel.go.
use le_cli.Prelude.{
  Bytes, codes, Bool, false, [], ◌∷◌, none, some, ◌≡◌, ap, ◌∙◌, subst, ◌⊎◌, inl, inr, All,
  All-map_imp,
}
use le_cli.Prelude.Maps.{lookup, int_eq}
use le_cli.Intel.Brew.{brew_formula}
use le_cli.Intel.Make.{make}
use le_cli.Intel.Make.Cases.{Holds-some}
use le_cli.Intel.Make.Stop.{IsSound, make-IsSound}
use le_cli.Intel.Managers.{Env}
use le_cli.Intel.Profile.{Profile, StopKind, stop_term, stop_brew, stop_launchd}
use le_cli.Kill.Guarded.{action_context, launchd_domain_target, verb_of}
use le_cli.Kill.Guarded.Safety.{IsAimed, action_context-IsAimed}
use le_cli.Kill.World.{World, Call, check, start, command, term, brew, launchd, run}
use le_cli.Scan.Listener.{Listener}

-- A call that changes something is aimed at the process itself, which launchd does not supervise, at
-- the Homebrew formula in the path of its command, or at the label under which launchd runs it.
abbrev pub IsMeant : {F : Type 0} → World → Listener F → Env → Bool → Call → Type 0
IsMeant w l env restart (term pid) = (pid ≡ l.pid) × (lookup l.pid env.launchd_by_pid ≡ none)
IsMeant w l env restart (run name args) =
    ((name ≡ codes "brew")
      × (args ≡ codes "services" ∷ verb_of restart ∷ brew_formula l.command_line ∷ []))
    ⊎ ((label : Bytes) × ((lookup l.pid env.launchd_by_pid ≡ some label)
          × (restart ≡ false)
          × (name ≡ codes "launchctl")
          × (args ≡ codes "bootout" ∷ launchd_domain_target w label ∷ [])))
IsMeant w l env restart _ = Unit

module _ {F : Type 0} (w : World) (l : Listener F) (env : Env) (p : Profile) (restart : Bool) where
  of_kind-IsSound :
      (k : StopKind)
      → p.stop_kind ≡ k
      → IsSound l env p.stop_kind p.stop_arg
      → IsSound l env k p.stop_arg
  of_kind-IsSound k e s = subst (λ j. IsSound l env j p.stop_arg) e s

  aimed-IsMeant :
      IsSound l env p.stop_kind p.stop_arg
      → (c : Call) → IsAimed w l p restart c
      → IsMeant w l env restart c
  aimed-IsMeant s (term pid) (same, k) = (same, of_kind-IsSound stop_term k s)
  aimed-IsMeant s (run name args) (inl (k, n, a)) = inl (
    n,
    a ∙ ap (λ x. codes "services" ∷ verb_of restart ∷ x ∷ []) (of_kind-IsSound stop_brew k s).0,
  )
  aimed-IsMeant s (run name args) (inr (k, r, n, a)) =
      inr (p.stop_arg, (of_kind-IsSound stop_launchd k s, r, n, a))
  aimed-IsMeant s check a = tt
  aimed-IsMeant s (start pid) a = tt
  aimed-IsMeant s (command pid) a = tt
  aimed-IsMeant s (brew name) a = tt
  aimed-IsMeant s (launchd label) a = tt

  -- If `Make` advises on a listener and the advice is carried out, whatever the outside answers, then
  -- every call that changes something is a signal to that process, which launchd did not supervise
  -- when the environment was gathered, or a stop or restart of the Homebrew formula in the path of its
  -- command, or a bootout of the label under which launchd ran it.
  pub make-action_context :
      make w.uid l env ≡ some p → All (IsMeant w l env restart) (action_context w l p restart []).1
  make-action_context made =
      let sound =
        Holds-some (λ q. IsSound l env q.stop_kind q.stop_arg) (make-IsSound w.uid l env) made in
      All-map_imp (aimed-IsMeant sound) (action_context w l p restart []).1
        (action_context-IsAimed w l p restart)
