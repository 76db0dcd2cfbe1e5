-- ===== src/Intel/Make/Returns.antt =====
-- intel/intel.go: `Make` on ASCII command lines.
use le_cli.Prelude.{
  ◌<◌, ◌^◌, Bytes, codes, true, false, is_empty, Option, none, some, if◌then◌else◌, ◌≡◌, refl,
  Bool-cases, inl, inr,
}
use le_cli.Prelude.Int.{ℤ, pos_part, neg_part}
use le_cli.Prelude.Letters.{to_lower}
use le_cli.Prelude.Letters.Laws.{to_lower-IsAscii}
use le_cli.Prelude.Utf8.{IsAscii}
use le_cli.Intel.Advice.{◌>>=◌, apply_rule}
use le_cli.Intel.AppName.{app_name, helper_suffix}
use le_cli.Intel.AppName.Laws.{IsSome, if-IsSome, app_name-IsSome, helper_suffix-IsSome}
use le_cli.Intel.Make.{initial, complete, make}
use le_cli.Intel.Managers.{Env}
use le_cli.Intel.Number.{itoa}
use le_cli.Intel.Number.Laws.{itoa-itoa}
use le_cli.Intel.Profile.{Profile}
use le_cli.Intel.Rules.{Rule, docker_helper, editor, owned, plain, Facts, facts_of, rule_of}
use le_cli.Intel.System.{any_prefix, system_paths, is_system, by_owner, classify_kind, display_name}
use le_cli.Intel.Windows.Laws.{is_windows_system-some}
use le_cli.Scan.Listener.{Listener}

bind-IsSome :
    {A B : Type 0} (m : Option A) (f : A → Option B)
    → IsSome m
    → ((a : A) → IsSome (f a))
    → IsSome (m >>= f)
bind-IsSome none f (v, e) k = cc
bind-IsSome (some a) f h k = k a

module _ {F : Type 0} (l : Listener F) (plain_text : IsAscii l.command_line) where
  is_system-IsSome : IsSome (is_system l)
  unfolding is_system
  is_system-IsSome =
      let (b, e) =
        is_windows_system-some (to_lower l.command_line) (to_lower l.user)
          (to_lower-IsAscii l.command_line plain_text) in
      elim (Bool-cases (any_prefix (to_lower l.command_line) system_paths)) [
        | inl early ↦ rw (early, is_system) (true, refl)
        | inr late ↦ rw (late, e, is_system) (_, refl)
      ]

  by_owner-IsSome : IsSome (by_owner l)
  unfolding by_owner
  by_owner-IsSome = let (b, e) = is_system-IsSome in rw (e, by_owner) (_, refl)

  classify_kind-IsSome : IsSome (classify_kind l)
  unfolding classify_kind
  classify_kind-IsSome =
      if-IsSome _ (some (codes "database")) _ (_, refl)
        (if-IsSome _ (some (codes "ai")) _ (_, refl)
          (if-IsSome _ (some (codes "editor")) _ (_, refl)
            (if-IsSome _ (some (codes "python")) _ (_, refl)
              (if-IsSome _ (some (codes "node")) _ (_, refl) by_owner-IsSome))))

  display_name-IsSome : is_empty l.command ≡ false → IsSome (display_name l)
  unfolding display_name
  display_name-IsSome named = rw (named, display_name) (l.command, refl)

  apply_rule-IsSome :
      (f : Facts) (digits : Bytes) (p : Profile) (r : Rule)
      → is_empty l.command ≡ false
      → IsSome (apply_rule l f digits p r)
  unfolding apply_rule
  apply_rule-IsSome f digits p docker_helper named = (_, refl)
  apply_rule-IsSome f digits p editor named =
      bind-IsSome (app_name l.command_line) _ (app_name-IsSome l.command_line plain_text) (λ app.
        bind-IsSome (helper_suffix l) _ (helper_suffix-IsSome l plain_text) (λ s. (_, refl)))
  apply_rule-IsSome f digits p owned named =
      bind-IsSome (app_name l.command_line) _ (app_name-IsSome l.command_line plain_text) (λ app.
        bind-IsSome (helper_suffix l) _ (helper_suffix-IsSome l plain_text) (λ s. (_, refl)))
  apply_rule-IsSome f digits p plain named =
      bind-IsSome (display_name l) _ (display_name-IsSome named) (λ name. (_, refl))
  apply_rule-IsSome f digits p _ named = (_, refl)

  complete-IsSome : (f : Facts) (p : Profile) → is_empty l.command ≡ false → IsSome (complete l f p)
  unfolding complete
  complete-IsSome f p named =
      bind-IsSome (if is_empty p.identity then display_name l else some p.identity) _
        (if-IsSome (is_empty p.identity) (display_name l) (some p.identity)
          (display_name-IsSome named) (p.identity, refl))
        (λ identity. (_, refl))

-- For a process with a name, an ASCII command line and a PID that is a signed number of 64 bits
-- other than the least one, `Make` does not panic: it returns a profile.
pub make-IsSome :
    {F : Type 0} (uid : ℤ) (l : Listener F) (env : Env)
    → IsAscii l.command_line
    → is_empty l.command ≡ false
    → pos_part l.pid < 2 ^ 63
    → neg_part l.pid < 2 ^ 63
    → (p : Profile) × (make uid l env ≡ some p)
unfolding make
make-IsSome uid l env plain_text named up down =
    bind-IsSome (classify_kind l) _ (classify_kind-IsSome l plain_text) (λ kind.
      bind-IsSome (is_system l) _ (is_system-IsSome l plain_text) (λ system.
        bind-IsSome (itoa l.pid) _ (_, itoa-itoa l.pid up down)
          (λ digits.
            let f = facts_of l env kind system in
            bind-IsSome (apply_rule l f digits (initial kind digits) (rule_of l f)) _
              (apply_rule-IsSome l plain_text f digits (initial kind digits) (rule_of l f) named)
              (λ p.
                bind-IsSome (complete l f p) _ (complete-IsSome l plain_text f p named)
                  (λ q. (_, refl))))))
