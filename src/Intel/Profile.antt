-- ===== src/Intel/Profile.antt =====
-- intel/intel.go: the types `StopKind` and `Profile`; intel/evidence.go: `Evidence`. A `Kind`, a
-- `Source`, a `Risk` and an `EvidenceStatus` are the texts that they are in Go.
use le_cli.Prelude.{Bytes, Bool, true, false, []}
use le_cli.Prelude.Int.{ℤ, pos}

-- A Go string type: `other` stands for every string that is no declared constant, "" included.
pub data StopKind : Type 0 where
  stop_term stop_brew stop_docker stop_launchd stop_avoid : StopKind
  other : Bytes → StopKind

pub record EvidenceItem : Type 0 where
  pub status : Bytes
  pub detail : Bytes

pub record Evidence : Type 0 where
  pub listener : EvidenceItem
  pub command : EvidenceItem
  pub directory : EvidenceItem
  pub start_time : EvidenceItem
  pub classification : EvidenceItem
  pub owner : EvidenceItem

pub record Profile : Type 0 where
  pub identity : Bytes
  pub kind : Bytes
  pub source : Bytes
  pub confidence : ℤ
  pub risk : Bytes
  pub stop_kind : StopKind
  pub stop_arg : Bytes
  pub stop_arg_id : Bytes
  pub stop_label : Bytes
  pub restart : Bytes
  pub note : Bytes
  pub warning : Bytes
  pub explain : Bytes
  pub evidence : Evidence

-- Go's zero values.
abbrev pub no_item : EvidenceItem
no_item = record { status = []; detail = [] }

abbrev pub no_evidence : Evidence
no_evidence = record {
  listener = no_item;
  command = no_item;
  directory = no_item;
  start_time = no_item;
  classification = no_item;
  owner = no_item;
}

abbrev pub no_profile : Profile
no_profile = record {
  identity = [];
  kind = [];
  source = [];
  confidence = pos 0;
  risk = [];
  stop_kind = other [];
  stop_arg = [];
  stop_arg_id = [];
  stop_label = [];
  restart = [];
  note = [];
  warning = [];
  explain = [];
  evidence = no_evidence;
}

unfoldable pub is_stop_docker : StopKind → Bool
is_stop_docker stop_docker = true
is_stop_docker _ = false

unfoldable pub is_stop_brew : StopKind → Bool
is_stop_brew stop_brew = true
is_stop_brew _ = false

unfoldable pub is_stop_avoid : StopKind → Bool
is_stop_avoid stop_avoid = true
is_stop_avoid _ = false
