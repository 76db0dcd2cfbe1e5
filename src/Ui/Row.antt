-- ===== src/Ui/Row.antt =====
-- ui/ui.go and ui/group.go: `Row`, `listItem`, `sameProcess` and `actionable`.
use le_cli.Prelude.{
  [], ◌∷◌, ℕ, Bytes, Bool, true, false, not, ◌&&◌, ◌||◌, is_empty, str_eq, str_eq_iff,
  if◌then◌else◌, ◌≡◌, refl, arith,
}
use le_cli.Prelude.Int.{eqb_ℤ, eqb_ℤ_iff}
use le_cli.Intel.Docker.{is_docker_helper}
use le_cli.Intel.Evidence.{has_command_line}
use le_cli.Intel.Profile.{Profile, is_stop_docker, is_stop_avoid}
use le_cli.Scan.Listener.{Listener}

pub record Row (F : Type 0) : Type 0 where
  pub l : Listener F
  pub p : Profile

-- A line of the list: a group's header with its owner, its size and the number of rows that it
-- hides, or a row with its position in the filtered view.
pub data ListItem (F : Type 0) : Type 0 where
  header : Bytes → ℕ → ℕ → ListItem F
  entry : Row F → ℕ → ListItem F

unfoldable pub same_process : {F : Type 0} → Listener F → Listener F → Bool
same_process a b =
    if not (eqb_ℤ a.pid b.pid)
    then false
    else if not (is_empty a.start_time) || not (is_empty b.start_time)
    then not (is_empty a.start_time) && str_eq a.start_time b.start_time
    else has_command_line a && has_command_line b && str_eq a.command_line b.command_line

unfoldable pub actionable : {F : Type 0} → Row F → Bool
actionable r =
    not (is_stop_avoid r.p.stop_kind)
    && not (is_stop_docker r.p.stop_kind)
    && not (is_docker_helper r.l)

nil_of_empty : (s : Bytes) → is_empty s ≡ true → s ≡ []
nil_of_empty [] h = refl
nil_of_empty (c ∷ s) h = cc

-- Two rows taken for the same process have the same PID, and the same start time; only if neither
-- has one, the same command line, which both really have.
pub same_process_sound :
    {F : Type 0} (a b : Listener F)
    → same_process a b ≡ true
    → (a.pid ≡ b.pid)
      × (a.start_time ≡ b.start_time)
      × (is_empty a.start_time ≡ true
          → (a.command_line ≡ b.command_line) × (has_command_line a ≡ true))
unfolding same_process
same_process_sound a b h = (
  (eqb_ℤ_iff _ _).0 (ground arith),
  (str_eq_iff _ _).0 (
      ground (
        arith,
        nil_of_empty a.start_time,
        nil_of_empty b.start_time,
        str_eq_iff a.start_time b.start_time,
      )),
  λ e. ((str_eq_iff _ _).0 (ground arith), ground arith),
)
