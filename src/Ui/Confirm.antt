-- ===== src/Ui/Confirm.antt =====
-- ui/ui.go: the dialog that asks before a process is stopped (`requestStop`, and the keys that
-- `onKey` gives to it).
pub mod Laws
mod Tests
use le_cli.Prelude.{
  Bool, true, false, ◌||◌, if◌then◌else◌, Option, none, some, Bytes, codes, str_eq,
}
use le_cli.Intel.Docker.{is_docker_helper}
use le_cli.Intel.Profile.{is_stop_docker, is_stop_avoid}
use le_cli.Ui.Row.{Row}

-- The fields `confirm` and `confirmed`, and why the last request was turned down.
pub data Refusal : Type 0 where
  docker_manual avoid_inspect : Refusal

pub record Dialog (F : Type 0) : Type 0 where
  pub confirm : Bool
  pub confirmed : Row F
  pub refusal : Option Refusal

unfoldable pub request_stop : {F : Type 0} → Row F → Dialog F → Dialog F
request_stop r m =
    if is_stop_docker r.p.stop_kind || is_docker_helper r.l
    then record m { refusal = some docker_manual }
    else if is_stop_avoid r.p.stop_kind
    then record m { refusal = some avoid_inspect }
    else record m { confirm = true; confirmed = r }

-- A key while the dialog is open: the dialog, and the row that is stopped.
unfoldable pub confirm_key : {F : Type 0} → Bytes → Dialog F → Dialog F × Option (Row F)
unfolding str_eq
confirm_key key m =
    if str_eq key (codes "y") || str_eq key (codes "Y") || str_eq key (codes "enter")
    then (record m { confirm = false; refusal = none }, some m.confirmed)
    else if str_eq key (codes "n")
        || str_eq key (codes "N")
        || str_eq key (codes "esc")
        || str_eq key (codes "q")
    then (record m { confirm = false }, none)
    else (m, none)
