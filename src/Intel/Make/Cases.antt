-- ===== src/Intel/Make/Cases.antt =====
-- intel/intel.go: the cases of the switch in `Make`, and the strategies that they write.
use le_cli.Prelude.{
  Bytes, codes, str_eq, str_eq_iff, is_empty, Bool, true, false, not, ◌&&◌, ◌||◌, [], ◌∷◌, Option,
  none, some, if◌then◌else◌, ◌≡◌, ◌≢◌, refl, ap, subst, arith, Bool-cases, inl, inr, and_true,
}
use le_cli.Prelude.Int.{ℤ}
use le_cli.Prelude.Maps.{int_eq}
use le_cli.Intel.Advice.{
  ◌>>=◌, apply_rule, by_brew, database, dev_server, docker_advice, kubectl_advice,
  cloudflared_advice, ollama_advice, interpreter_advice, editor_advice, brew_advice, owned_advice,
  open_advice, plain_advice,
}
use le_cli.Intel.AppName.{app_name, helper_suffix}
use le_cli.Intel.System.{display_name}
use le_cli.Intel.Docker.{is_docker_helper}
use le_cli.Intel.Make.{complete}
use le_cli.Intel.Profile.{Profile, StopKind, stop_term, stop_brew, stop_avoid}
use le_cli.Intel.Rules.{
  Rule, docker_helper, kubectl, cloudflared, redis, mongodb, postgres, mysql, ollama, fastapi,
  django, flask, mkdocs, web, interpreter, node, python, editor, brewed, owned, open_listener,
  plain, Facts, fallback, by_interpreter, by_framework, rule_of,
}
use le_cli.Scan.Listener.{Listener}

-- A property of the result, if there is one.
abbrev pub Holds {ℓ} : {A : Type 0} → (A → Type ℓ) → Option A → Type ℓ
Holds P none = Unit
Holds P (some a) = P a

pub Holds->>= {ℓ} :
    {A B : Type 0} (Q : B → Type ℓ) (m : Option A) (f : A → Option B)
    → ((a : A) → m ≡ some a → Holds Q (f a))
    → Holds Q (m >>= f)
Holds->>= Q none f k = tt
Holds->>= Q (some a) f k = k a refl

pub Holds-some {ℓ} :
    {A : Type 0} (P : A → Type ℓ) {m : Option A} {a : A} → Holds P m → m ≡ some a → P a
Holds-some P h e = subst (Holds P) e h

-- A strategy and its argument, before launchd is considered.
abbrev pub Advised : Bytes → StopKind → Bytes → Type 0
Advised formula stop_brew arg = (arg ≡ formula) × (arg ≢ [])
Advised formula stop_term arg = Unit
Advised formula stop_avoid arg = Unit
Advised formula _ arg = ⊥

abbrev is_brewed : Rule → Bool
is_brewed brewed = true
is_brewed _ = false

-- The other cases do not lead to `brewed`.
pass {ℓ} :
    {P : Type ℓ} (b : Bool) (r : Rule) {s : Rule}
    → is_brewed r ≡ false
    → (s ≡ brewed → P)
    → (if b then r else s) ≡ brewed
    → P
pass true r n k h = absurd (clash (ap is_brewed h))
  where
    clash : is_brewed r ≡ true → ⊥
    clash e = cc
pass false r n k h = k h

fallback-brewed : (f : Facts) → fallback f ≡ brewed → is_empty f.formula ≡ false
unfolding fallback
fallback-brewed f =
    pass _ node refl (pass _ python refl (pass _ editor refl (by_formula (is_empty f.formula))))
  where
    by_formula :
        (b : Bool)
        → (if not b
            then brewed
            else (if f.system || f.bg_app
                then owned
                else (if f.wildcard then open_listener else plain)))
          ≡ brewed
        → b ≡ false
    by_formula false h = refl
    by_formula true h =
        pass (f.system || f.bg_app) owned refl (pass f.wildcard open_listener refl (λ e. cc)) h

by_interpreter-brewed :
    (command_line : Bytes) (f : Facts)
    → by_interpreter command_line f ≡ brewed
    → is_empty f.formula ≡ false
unfolding by_interpreter
by_interpreter-brewed command_line f h = ground (arith, fallback-brewed f)

by_framework-brewed :
    (command_line : Bytes) (f : Facts)
    → by_framework command_line f ≡ brewed
    → is_empty f.formula ≡ false
unfolding by_framework
by_framework-brewed command_line f = pass _ fastapi refl (
    pass _ django refl (
      pass _ flask refl
        (pass _ mkdocs refl (pass _ web refl (by_interpreter-brewed command_line f)))))

pub rule_of-brewed :
    {F : Type 0} (l : Listener F) (f : Facts) → rule_of l f ≡ brewed → is_empty f.formula ≡ false
unfolding rule_of
rule_of-brewed l f = pass _ docker_helper refl (
    pass _ kubectl refl (
      pass _ cloudflared refl (
        pass _ redis refl (
          pass _ mongodb refl (
            pass _ postgres refl
              (pass _ mysql refl (pass _ ollama refl (by_framework-brewed l.command_line f))))))))

pub rule_of-docker_helper :
    {F : Type 0} (l : Listener F) (f : Facts)
    → is_docker_helper l ≡ true
    → rule_of l f ≡ docker_helper
unfolding rule_of
rule_of-docker_helper l f h = rw h refl

abbrev pub AdvisedBy : Facts → Profile → Type 0
AdvisedBy f p = Advised f.formula p.stop_kind p.stop_arg

nonempty : (s : Bytes) → is_empty s ≡ false → s ≢ []
nonempty [] h = cc
nonempty (c ∷ s) h = λ e. cc

database-Advised :
    (f : Facts) (digits : Bytes) (p : Profile) (id : Bytes) (conf : ℤ) (explain : Bytes)
    → AdvisedBy f (database f digits p id conf explain)
unfolding database by_brew
database-Advised f digits p id conf explain = elim (Bool-cases (is_empty f.formula)) [
  | inl e ↦ rw e tt
  | inr e ↦ rw e (refl, nonempty f.formula e)
]

ollama-Advised :
    (f : Facts) (p : Profile) → p.stop_kind ≡ stop_term → AdvisedBy f (ollama_advice f p)
unfolding ollama_advice by_brew
ollama-Advised f p h = elim (Bool-cases (is_empty f.formula)) [
  | inl e ↦ rw (e, h) tt
  | inr e ↦ rw e (refl, nonempty f.formula e)
]

cloudflared-Advised :
    (command_line : Bytes) (f : Facts) (p : Profile)
    → p.stop_kind ≡ stop_term
    → AdvisedBy f (cloudflared_advice command_line f p)
unfolding cloudflared_advice by_brew
cloudflared-Advised command_line f p h =
    elim (Bool-cases (str_eq f.formula (codes "cloudflared") && f.managed_brew)) [
      | inl e ↦
          let same = (str_eq_iff f.formula (codes "cloudflared")).0 (and_true _ _ e).0 in
          rw e (refl, nonempty f.formula (ap is_empty same))
      | inr e ↦ rw (e, h) tt
    ]

module _ {F : Type 0} (l : Listener F) (f : Facts) (digits : Bytes) (p : Profile) where
  pub apply_rule-Advised :
      (r : Rule)
      → p.stop_kind ≡ stop_term
      → (r ≡ brewed → is_empty f.formula ≡ false)
      → Holds (AdvisedBy f) (apply_rule l f digits p r)
  unfolding apply_rule
  apply_rule-Advised docker_helper h n = unfold docker_advice in tt
  apply_rule-Advised kubectl h n = unfold kubectl_advice in rw h tt
  apply_rule-Advised cloudflared h n = cloudflared-Advised l.command_line f p h
  apply_rule-Advised redis h n = database-Advised f digits p _ _ _
  apply_rule-Advised mongodb h n = database-Advised f digits p _ _ _
  apply_rule-Advised postgres h n = database-Advised f digits p _ _ _
  apply_rule-Advised mysql h n = database-Advised f digits p _ _ _
  apply_rule-Advised ollama h n = ollama-Advised f p h
  apply_rule-Advised fastapi h n = unfold dev_server in tt
  apply_rule-Advised django h n = unfold dev_server in tt
  apply_rule-Advised flask h n = unfold dev_server in tt
  apply_rule-Advised mkdocs h n = unfold dev_server in tt
  apply_rule-Advised web h n = unfold dev_server in tt
  apply_rule-Advised (interpreter id) h n = unfold interpreter_advice in rw h tt
  apply_rule-Advised node h n = unfold dev_server in tt
  apply_rule-Advised python h n = unfold dev_server in tt
  apply_rule-Advised editor h n =
      Holds->>= (AdvisedBy f) (app_name l.command_line) _
        (λ app _. Holds->>= (AdvisedBy f) (helper_suffix l) _ (λ s _. unfold editor_advice in tt))
  apply_rule-Advised brewed h n = unfold brew_advice by_brew in (refl, nonempty f.formula (n refl))
  apply_rule-Advised owned h n =
      Holds->>= (AdvisedBy f) (app_name l.command_line) _
        (λ app _. Holds->>= (AdvisedBy f) (helper_suffix l) _ (λ s _. unfold owned_advice in tt))
  apply_rule-Advised open_listener h n = unfold open_advice in rw h tt
  apply_rule-Advised plain h n =
      Holds->>= (AdvisedBy f) (display_name l) _ (λ name _. unfold plain_advice in rw h tt)

pub complete-Advised :
    {F : Type 0} (l : Listener F) (f : Facts) (p : Profile)
    → AdvisedBy f p
    → Holds (AdvisedBy f) (complete l f p)
unfolding complete
complete-Advised l f p h =
    Holds->>= (AdvisedBy f) (if is_empty p.identity then display_name l else some p.identity) _
      (λ identity _. h)
