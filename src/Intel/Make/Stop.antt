-- ===== src/Intel/Make/Stop.antt =====
-- intel/intel.go: the way to stop a process that `Make` advises.
use le_cli.Prelude.{
  Bytes, is_empty, Bool, true, false, [], none, some, if◌then◌else◌, ◌≡◌, ◌≢◌, refl, sym, ap, ◌∙◌,
  subst, Bool-cases, Option-cases, inl, inr,
}
use le_cli.Prelude.Int.{ℤ}
use le_cli.Prelude.Maps.{lookup, int_eq}
use le_cli.Intel.Advice.{apply_rule, docker_advice}
use le_cli.Intel.System.{classify_kind, is_system, display_name}
use le_cli.Intel.Number.{itoa}
use le_cli.Intel.Brew.{brew_formula}
use le_cli.Intel.Docker.{is_docker_helper}
use le_cli.Intel.Evidence.{evidence_for}
use le_cli.Intel.Make.Cases.{
  Holds, Holds->>=, Holds-some, Advised, AdvisedBy, rule_of-brewed, rule_of-docker_helper,
  apply_rule-Advised, complete-Advised,
}
use le_cli.Intel.Managers.{Env}
use le_cli.Intel.Make.{initial, complete, supervise, override, make}
use le_cli.Intel.Profile.{
  Profile, StopKind, is_stop_avoid, stop_term, stop_brew, stop_docker, stop_launchd, stop_avoid,
  other,
}
use le_cli.Intel.Rules.{Facts, facts_of, rule_of}
use le_cli.Scan.Listener.{Listener}

-- The strategies that are advised: a plain signal only to a process that launchd does not
-- supervise, Homebrew only for a formula that the command line names, and launchd only for the
-- label under which it runs the process.
abbrev pub IsSound : {F : Type 0} → Listener F → Env → StopKind → Bytes → Type 0
IsSound l env stop_term arg = lookup l.pid env.launchd_by_pid ≡ none
IsSound l env stop_brew arg = (arg ≡ brew_formula l.command_line) × (arg ≢ [])
IsSound l env stop_launchd arg = lookup l.pid env.launchd_by_pid ≡ some arg
IsSound l env stop_avoid arg = Unit
IsSound l env _ arg = ⊥

-- The same, for a listener that is no Docker helper.
abbrev pub IsSafe : {F : Type 0} → Listener F → Env → StopKind → Bytes → Type 0
IsSafe l env stop_avoid arg = Unit
IsSafe l env k arg = (is_docker_helper l ≡ false) × IsSound l env k arg

module _ {F : Type 0} (uid : ℤ) (l : Listener F) (env : Env) where
  abbrev SoundFor : Profile → Type 0
  SoundFor p = IsSound l env p.stop_kind p.stop_arg

  unsupervised :
      (k : StopKind) (arg : Bytes)
      → lookup l.pid env.launchd_by_pid ≡ none
      → Advised (brew_formula l.command_line) k arg
      → IsSound l env k arg
  unsupervised stop_term arg e h = e
  unsupervised stop_brew arg e h = h
  unsupervised stop_avoid arg e h = tt
  unsupervised stop_docker arg e h = h
  unsupervised stop_launchd arg e h = absurd h
  unsupervised (other s) arg e h = h

  supervise-SoundFor :
      (label : Bytes) (p : Profile) (k : StopKind)
      → p.stop_kind ≡ k
      → lookup l.pid env.launchd_by_pid ≡ some label
      → Advised (brew_formula l.command_line) k p.stop_arg
      → SoundFor (supervise uid label p k)
  unfolding supervise
  supervise-SoundFor label p stop_term e found h = found
  supervise-SoundFor label p stop_avoid e found h = rw e tt
  supervise-SoundFor label p stop_brew e found h = rw e h
  supervise-SoundFor label p stop_docker e found h = absurd h
  supervise-SoundFor label p stop_launchd e found h = absurd h
  supervise-SoundFor label p (other s) e found h = absurd h

  override-SoundFor :
      (p : Profile)
      → Advised (brew_formula l.command_line) p.stop_kind p.stop_arg
      → SoundFor (override uid l env p)
  unfolding override
  override-SoundFor p h = elim (Option-cases (lookup l.pid env.launchd_by_pid)) [
    | inl e ↦ rw (e, override) (unsupervised p.stop_kind p.stop_arg e h)
    | inr (label, e) ↦ rw (e, override) (supervise-SoundFor label p p.stop_kind refl e h)
  ]

  -- What `Make` returns, of the profile that the switch and its completion leave.
  pub make-Holds {ℓ} :
      (Q : Profile → Type ℓ)
      → ((kind : Bytes) (system : Bool) (digits : Bytes) (p q : Profile)
          → (let f = facts_of l env kind system in
              apply_rule l f digits (initial kind digits) (rule_of l f) ≡ some p)
          → complete l (facts_of l env kind system) p ≡ some q
          → Q (record (override uid l env q) {
            evidence = evidence_for l (override uid l env q) env;
          }))
      → Holds Q (make uid l env)
  unfolding make
  make-Holds Q k = Holds->>= Q (classify_kind l) _ (λ kind _.
      Holds->>= Q (is_system l) _ (λ system _. Holds->>= Q (itoa l.pid) _ (λ digits _.
        let f = facts_of l env kind system in
        Holds->>= Q (apply_rule l f digits (initial kind digits) (rule_of l f)) _
          (λ p x. Holds->>= Q (complete l f p) _ (λ q y. k kind system digits p q x y)))))

  formula_of :
      (kind : Bytes) (system : Bool)
      → (facts_of l env kind system).formula ≡ brew_formula l.command_line
  unfolding facts_of
  formula_of kind system = refl

  starts_with_term : (kind digits : Bytes) → (initial kind digits).stop_kind ≡ stop_term
  unfolding initial
  starts_with_term kind digits = refl

  -- The advice is sound: a signal only
  -- if launchd does not supervise the process, Homebrew only for the formula in the path of the
  -- command, launchd only for the label under which it runs the process, or no way at all; never
  -- Docker.
  pub make-IsSound : Holds (λ p. IsSound l env p.stop_kind p.stop_arg) (make uid l env)
  make-IsSound = make-Holds SoundFor (λ kind system digits p q x y.
      let f = facts_of l env kind system in
      let advised =
        apply_rule-Advised l f digits (initial kind digits) (rule_of l f)
          (starts_with_term kind digits) (rule_of-brewed l f) in
      let completed = complete-Advised l f p (Holds-some (AdvisedBy f) advised x) in
      override-SoundFor q (
        subst (λ formula. Advised formula q.stop_kind q.stop_arg) (formula_of kind system)
          (Holds-some (AdvisedBy f) completed y)))

  docker_rule :
      (f : Facts) (digits : Bytes) (p : Profile)
      → is_docker_helper l ≡ true
      → Holds (λ q. q.stop_kind ≡ stop_avoid) (apply_rule l f digits p (rule_of l f))
  unfolding apply_rule
  docker_rule f digits p h = rw (rule_of-docker_helper l f h) (unfold docker_advice in refl)

  complete_kind :
      (f : Facts) (p : Profile) → Holds (λ q. q.stop_kind ≡ p.stop_kind) (complete l f p)
  unfolding complete
  complete_kind f p =
      Holds->>= (λ q. q.stop_kind ≡ p.stop_kind)
        (if is_empty p.identity then display_name l else some p.identity) _ (λ identity _. refl)

  override_avoid :
      (q : Profile) → q.stop_kind ≡ stop_avoid → (override uid l env q).stop_kind ≡ stop_avoid
  unfolding override supervise
  override_avoid q h = elim (Option-cases (lookup l.pid env.launchd_by_pid)) [
    | inl e ↦ rw (e, override) h
    | inr (label, e) ↦ rw (e, override, h) refl
  ]

  pub make-docker_helper :
      is_docker_helper l ≡ true → Holds (λ p. p.stop_kind ≡ stop_avoid) (make uid l env)
  make-docker_helper h =
      make-Holds (λ p. p.stop_kind ≡ stop_avoid)
        (λ kind system digits p q x y.
          let f = facts_of l env kind system in
          let avoided =
            Holds-some (λ r. r.stop_kind ≡ stop_avoid)
              (docker_rule f digits (initial kind digits) h) x in
          override_avoid q
            (Holds-some (λ r. r.stop_kind ≡ p.stop_kind) (complete_kind f p) y ∙ avoided))

  avoided_only :
      (k : StopKind)
      → is_stop_avoid k ≡ false
      → (is_docker_helper l ≡ true → k ≡ stop_avoid)
      → is_docker_helper l ≡ false
  unfolding is_stop_avoid
  avoided_only k n a = elim (Bool-cases (is_docker_helper l)) [
    | inl e ↦ absurd (clash (sym n ∙ ap is_stop_avoid (a e)))
    | inr e ↦ e
  ]
    where
      clash : false ≡ true → ⊥
      clash c = cc

  safe :
      (k : StopKind) (arg : Bytes)
      → (is_docker_helper l ≡ true → k ≡ stop_avoid)
      → IsSound l env k arg
      → IsSafe l env k arg
  safe stop_avoid arg a s = tt
  safe stop_term arg a s = (avoided_only stop_term (unfold is_stop_avoid in refl) a, s)
  safe stop_brew arg a s = (avoided_only stop_brew (unfold is_stop_avoid in refl) a, s)
  safe stop_launchd arg a s = (avoided_only stop_launchd (unfold is_stop_avoid in refl) a, s)
  safe stop_docker arg a s = absurd s
  safe (other t) arg a s = absurd s

  -- If `Make` returns a profile, then its advice is not to stop the process, or the listener is no
  -- Docker helper and the way to stop it is a signal, and launchd does not supervise the process, or
  -- Homebrew, with the formula in the path of the command, or launchd, with the label under which it
  -- runs the process.
  pub make-IsSafe : (p : Profile) → make uid l env ≡ some p → IsSafe l env p.stop_kind p.stop_arg
  make-IsSafe p made =
      safe p.stop_kind p.stop_arg
        (λ h. Holds-some (λ q. q.stop_kind ≡ stop_avoid) (make-docker_helper h) made)
        (Holds-some SoundFor make-IsSound made)
