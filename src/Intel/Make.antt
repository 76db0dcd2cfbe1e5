-- ===== src/Intel/Make.antt =====
-- intel/intel.go: `Make`, the profile of a listener. `none` stands for a panic.
pub mod Cases
pub mod Stop
pub mod Returns
use le_cli.Prelude.{
  Bytes, codes, str_eq, is_empty, Bool, true, false, not, ◌&&◌, ◌||◌, [], ◌∷◌, ◌++◌, Option, none,
  some, if◌then◌else◌,
}
use le_cli.Prelude.Int.{ℤ, pos}
use le_cli.Prelude.Maps.{lookup, int_eq}
use le_cli.Prelude.Space.{trim_space}
use le_cli.Prelude.Utf8.{lit}
use le_cli.Prelude.Decimal
use le_cli.Intel.Advice.{◌>>=◌, apply_rule}
use le_cli.Intel.Evidence.{evidence_for}
use le_cli.Intel.Managers.{Env, launchd_domain_target}
use le_cli.Intel.Number.{itoa}
use le_cli.Intel.Profile.{Profile, no_profile, StopKind, stop_term, stop_launchd, stop_avoid}
use le_cli.Intel.Rules.{Facts, facts_of, rule_of}
use le_cli.Intel.System.{classify_kind, is_system, display_name, source_for}
use le_cli.Scan.Listener.{Listener}

-- The profile that the switch begins with.
unfoldable pub initial : Bytes → Bytes → Profile
initial kind digits = record no_profile {
  kind = kind;
  confidence = pos 45;
  risk = codes "low";
  stop_kind = stop_term;
  stop_label = codes "Send TERM to PID " ++ digits;
}

-- The identity and the source, where the switch leaves them empty.
unfoldable pub complete : {F : Type 0} → Listener F → Facts → Profile → Option Profile
unfolding display_name source_for
complete l f p = do
  identity ← (if is_empty p.identity then display_name l else some p.identity)
  let source =
      if is_empty p.source then source_for l p f.managed_brew f.system f.bg_app else p.source
  some (record p { identity = identity; source = source })

-- The override for a process under launchd, with the number of the user.
unfoldable pub supervise : ℤ → Bytes → Profile → StopKind → Profile
unfolding launchd_domain_target le_cli.Prelude.Decimal.itoa lit trim_space str_eq
supervise uid label p stop_term = record p {
  source = codes "launchd";
  stop_kind = stop_launchd;
  stop_arg = label;
  stop_label = codes "launchctl bootout " ++ launchd_domain_target uid label;
  restart =
      codes "launchctl bootstrap gui/"
      ++ (le_cli.Prelude.Decimal.itoa uid ++ codes " <path-to-its-plist>");
  note =
      lit "launchd agent \""
      ++ (label ++ lit "\": killing the PID alone just respawns it if KeepAlive is set.");
  risk = if str_eq p.risk (codes "low") then codes "medium" else p.risk;
}
supervise uid label p stop_avoid = record p {
  note = trim_space (p.note ++ (lit " Managed by launchd as \"" ++ (label ++ lit "\".")));
}
supervise uid label p _ = p

unfoldable pub override : {F : Type 0} → ℤ → Listener F → Env → Profile → Profile
unfolding supervise lookup
override uid l env p = elim (lookup l.pid env.launchd_by_pid) [
  | none ↦ p
  | some label ↦ supervise uid label p p.stop_kind
]

-- `Make`, for the user with this number
unfoldable pub make : {F : Type 0} → ℤ → Listener F → Env → Option Profile
unfolding classify_kind is_system itoa facts_of rule_of initial apply_rule complete override
    evidence_for
make uid l env = do
  kind ← classify_kind l
  system ← is_system l
  digits ← itoa l.pid
  let f = facts_of l env kind system
  p ← apply_rule l f digits (initial kind digits) (rule_of l f)
  q ← complete l f p
  let r = override uid l env q
  some (record r { evidence = evidence_for l r env })
