-- ===== src/Intel/Evidence/Laws.antt =====
-- intel/evidence.go: what counts as observed.
use le_cli.Prelude.{
  Bytes, codes, str_eq, str_eq_iff, is_empty, Bool, true, false, not, ◌&&◌, [], ◌∷◌, ◌≡◌, ◌≢◌, ◌↔◌,
  refl, sym, ap, ◌∙◌, arith, Bool-cases, inl, inr, ℕ,
}
use le_cli.Prelude.Space.{trim_space}
use le_cli.Prelude.Maps.{int_eq}
use le_cli.Intel.Evidence.{
  observed, inferred, unavailable, has_command_line, label_of, owner_for, evidence_for, item,
}
use le_cli.Intel.Managers.{Env}
use le_cli.Intel.Profile.{Profile}
use le_cli.Scan.Listener.{Listener}

item_status :
    (b : Bool) (detail missing : Bytes) → ((item b detail missing).status ≡ observed) ↔ (b ≡ true)
item_status true detail missing = (λ e. refl, λ e. refl)
item_status false detail missing = (λ e. cc, λ e. cc)

not_iff : (b : Bool) → (not b ≡ true) ↔ (b ≡ false)
not_iff b = ground arith

both {ℓ κ μ} : {P : Type ℓ} {Q : Type κ} {R : Type μ} → P ↔ Q → Q ↔ R → P ↔ R
both f g = (λ p. g.0 (f.0 p), λ r. f.1 (g.1 r))

apart : (a b : Bytes) → str_eq a b ≡ false → a ≢ b
apart a b h e = ground (arith, str_eq_iff a b, h, e)

has_command_line_iff :
    {F : Type 0} (l : Listener F)
    → (has_command_line l ≡ true) ↔ (
        (l.command_line_fallback ≡ false)
        × (is_empty (trim_space l.command_line) ≡ false)
        × (trim_space l.command_line ≢ trim_space l.command))
unfolding has_command_line
has_command_line_iff l =
    ground (arith, str_eq_iff (trim_space l.command_line) (trim_space l.command))

owner_container :
    {F : Type 0} (l : Listener F) (p : Profile) (env : Env)
    → str_eq p.source (codes "container") ≡ true
    → (owner_for l p env).status ≡ unavailable
unfolding owner_for
owner_container l p env h = rw h refl

owner_labelled :
    {F : Type 0} (l : Listener F) (p : Profile) (env : Env)
    → str_eq p.source (codes "container") ≡ false
    → is_empty (label_of l env) ≡ false
    → (owner_for l p env).status ≡ observed
unfolding owner_for
owner_labelled l p env h e = rw (h, e) refl

first_byte : Bytes → ℕ
first_byte [] = 0
first_byte (c ∷ s) = c

inferred_apart : inferred ≢ observed
unfolding first_byte
inferred_apart h = let e : 105 ≡ 111 = ap first_byte h in absurd (omega (arith, e))

unavailable_apart : unavailable ≢ observed
unfolding first_byte
unavailable_apart h = let e : 117 ≡ 111 = ap first_byte h in absurd (omega (arith, e))

owner_unlabelled :
    {F : Type 0} (l : Listener F) (p : Profile) (env : Env)
    → str_eq p.source (codes "container") ≡ false
    → is_empty (label_of l env) ≡ true
    → (owner_for l p env).status ≢ observed
unfolding owner_for
owner_unlabelled l p env h e =
    elim (Bool-cases (not (is_empty p.source) && not (str_eq p.source (codes "unknown")))) [
      | inl s ↦ rw (h, e, s) inferred_apart
      | inr s ↦ rw (h, e, s) unavailable_apart
    ]

owner_iff :
    {F : Type 0} (l : Listener F) (p : Profile) (env : Env)
    → ((owner_for l p env).status ≡ observed)
      ↔ ((p.source ≢ codes "container") × (is_empty (label_of l env) ≡ false))
owner_iff l p env = elim (Bool-cases (str_eq p.source (codes "container"))) [
  | inl c ↦
      let away = owner_container l p env c in
      let same = (str_eq_iff p.source (codes "container")).0 c in
      (λ e. absurd (unavailable_apart (sym away ∙ e)), λ (n, e). absurd (n same))
  | inr c ↦ (elim (Bool-cases (is_empty (label_of l env))) [
    | inl e ↦ (λ o. absurd (owner_unlabelled l p env c e o), λ (n, f). absurd (flip (sym e ∙ f)))
    | inr e ↦ (λ o. (apart p.source (codes "container") c, e), λ h. owner_labelled l p env c e)
  ])
]
  where
    flip : true ≡ false → ⊥
    flip h = cc

module _ {F : Type 0} (l : Listener F) (p : Profile) (env : Env) where
  -- The owner counts as observed exactly if launchd reports a label for the PID and the source is no
  -- container, and the command line exactly if it is no substitute, not blank and not the short
  -- name; the start time counts as observed exactly if it is not blank, and the identity never.
  pub evidence_for-observed :
      (((evidence_for l p env).owner.status ≡ observed)
        ↔ ((p.source ≢ codes "container") × (is_empty (label_of l env) ≡ false)))
      × (((evidence_for l p env).command.status ≡ observed) ↔ (
          (l.command_line_fallback ≡ false)
          × (is_empty (trim_space l.command_line) ≡ false)
          × (trim_space l.command_line ≢ trim_space l.command)))
      × (((evidence_for l p env).start_time.status ≡ observed)
          ↔ (is_empty (trim_space l.start_time) ≡ false))
      × ((evidence_for l p env).classification.status ≡ inferred)
  unfolding evidence_for
  evidence_for-observed = (
    owner_iff l p env,
    both (item_status (has_command_line l) _ _) (has_command_line_iff l),
    both (item_status (not (is_empty (trim_space l.start_time))) _ _)
        (not_iff (is_empty (trim_space l.start_time))),
    refl,
  )
