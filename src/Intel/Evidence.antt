-- ===== src/Intel/Evidence.antt =====
-- intel/evidence.go: where each part of a profile comes from.
pub mod Laws
use le_cli.Prelude.{
  Bytes, codes, str_eq, is_empty, Bool, true, false, not, ◌&&◌, ◌||◌, List, [], ◌∷◌, ◌++◌, Option,
  none, some, if◌then◌else◌,
}
use le_cli.Prelude.Decimal.{itoa}
use le_cli.Prelude.Maps.{Map, lookup, int_eq}
use le_cli.Prelude.Space.{trim_space}
use le_cli.Prelude.Utf8.{lit}
use le_cli.Intel.Managers.{Env}
use le_cli.Intel.Profile.{Profile, Evidence, EvidenceItem}
use le_cli.Scan.Listener.{Listener}

abbrev pub observed : Bytes
observed = codes "observed"

abbrev pub inferred : Bytes
inferred = codes "inferred"

abbrev pub unavailable : Bytes
unavailable = codes "unavailable"

-- `DockerManualReason`
unfoldable pub docker_manual_reason : Bytes
unfolding lit
docker_manual_reason =
    lit
      "Docker engine and container ownership are unverified; inspect the intended local engine and manage this listener manually."

-- `HasCommandLine`
unfoldable pub has_command_line : {F : Type 0} → Listener F → Bool
unfolding trim_space str_eq
has_command_line l =
    let command = trim_space l.command_line in
    not l.command_line_fallback
    && not (is_empty command)
    && not (str_eq command (trim_space l.command))

abbrev pub item : Bool → Bytes → Bytes → EvidenceItem
item seen detail missing =
    if seen
    then record { status = observed; detail = detail }
    else record { status = unavailable; detail = missing }

abbrev no_texts : List Bytes → Bool
no_texts [] = true
no_texts (x ∷ xs) = false

-- The label of the process, or the empty text.
unfoldable pub label_of : {F : Type 0} → Listener F → Env → Bytes
unfolding lookup
label_of l env = elim (lookup l.pid env.launchd_by_pid) [ none ↦ [] | some label ↦ label ]

unfoldable pub owner_for : {F : Type 0} → Listener F → Profile → Env → EvidenceItem
unfolding docker_manual_reason label_of itoa lit str_eq
owner_for l p env =
    if str_eq p.source (codes "container")
    then record { status = unavailable; detail = docker_manual_reason }
    else if not (is_empty (label_of l env))
    then record {
      status = observed;
      detail =
          lit "launchd reports PID " ++ (itoa l.pid ++ (lit " as " ++ (label_of l env ++ lit ".")));
    }
    else if not (is_empty p.source) && not (str_eq p.source (codes "unknown"))
    then record {
      status = inferred;
      detail =
          lit
            "Source inferred from command, path, and service context; process ownership unverified.";
    }
    else record { status = unavailable; detail = lit "Process ownership not verified." }

-- `evidenceFor`
unfoldable pub evidence_for : {F : Type 0} → Listener F → Profile → Env → Evidence
unfolding has_command_line trim_space owner_for lit
evidence_for l p env = record {
  listener =
      item (not (no_texts l.addrs) || not (no_texts l.ports))
        (lit "TCP listener reported by the OS listener scan.")
        (lit "No listener endpoint recorded.");
  command =
      item (has_command_line l) (lit "Command line reported by the OS process query.")
        (lit "Full command line unavailable; a process name may be shown instead.");
  directory =
      item (not (is_empty (trim_space l.cwd)))
        (lit "Working directory reported by the OS file query.")
        (lit "Working directory unavailable.");
  start_time =
      item (not (is_empty (trim_space l.start_time)))
        (lit "Start time reported by the OS; rechecked before stopping.")
        (lit "Process start time unavailable; PID identity cannot be verified.");
  classification = record {
    status = inferred;
    detail = lit "Identity and stop advice use rules, not measured probabilities.";
  };
  owner = owner_for l p env;
}

shown_status : EvidenceItem → Bytes
shown_status e = if is_empty e.status then unavailable else e.status

-- `Summary`
unfoldable pub summary : Evidence → Bytes
unfolding shown_status lit
summary e =
    codes "listener "
    ++ (shown_status e.listener
        ++ (lit " · cmd "
            ++ (shown_status e.command
                ++ (lit " · dir "
                    ++ (shown_status e.directory
                        ++ (codes "\nstart "
                            ++ (shown_status e.start_time
                                ++ (lit " · class "
                                    ++ (shown_status e.classification
                                        ++ (lit " · owner " ++ shown_status e.owner))))))))))
