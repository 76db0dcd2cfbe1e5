-- ===== src/Kill/World.antt =====
-- The outside of kill/: what `contextOps` (kill/context.go) and the package variables of
-- kill/kill.go reach, as answers that may depend on all the calls made before. A program is a
-- function from the calls made so far to its result and the longer list of calls.
use le_cli.Prelude.{
  ℕ, ◌+◌, ◌≤◌, ◌≡◌, Bytes, Bool, true, false, List, [], ◌∷◌, ◌++◌, Option, if◌then◌else◌,
}
use le_cli.Prelude.Int.{ℤ}

-- What a call out of the package fails with. `output_limit` is boundedexec.ErrOutputLimit.
pub data OpError : Type 0 where
  output_limit : OpError
  op_failed : Bytes → OpError

-- The messages of kill/kill.go for which nothing was run, with the values that they print.
pub data Reason : Type 0 where
  docker_manual avoid_inspect brew_not_owner : Reason
  recycled : ℤ → Reason
  formula_unknown : Bytes → Reason
  label_moved : Bytes → ℤ → Reason
  no_safe_restart : Bytes → Reason

-- `refused` wraps ErrRefused; `context` is an error of `ctx.Err()`.
pub data Error : Type 0 where
  refused : Bytes → Error
  context : Bytes → Error
  operation : OpError → Error
  failed : Bytes → Error
  declined : Reason → Error

-- A Go result `(string, error)`.
pub data Outcome : Type 0 where
  done : Bytes → Outcome
  err : Error → Outcome

pub data Reply : Type 0 where
  text : Bytes → Reply
  fault : OpError → Reply

pub data Call : Type 0 where
  check : Call
  start : ℤ → Call
  command : ℤ → Call
  term : ℤ → Call
  brew : Bytes → Call
  launchd : Bytes → Call
  run : Bytes → List Bytes → Call

abbrev pub Trace : Type 0
Trace = List Call

pub record World : Type 0 where
  pub ctx_err : Trace → Option Bytes
  pub start_time : Trace → ℤ → Reply
  pub command_line : Trace → ℤ → Reply
  pub signal : Trace → ℤ → Option OpError
  pub brew_known : Trace → Bytes → Bool × Option OpError
  pub launchd_pid : Trace → Bytes → ℤ × Bool × Option OpError
  pub run_command : Trace → Bytes → List Bytes → Bytes × Option OpError
  pub uid : ℤ

abbrev pub M : Type 0 → Type 0
M A = Trace → A × Trace

infixl 5 ◌>>=◌
abbrev pub ◌>>=◌ : {A B : Type 0} → M A → (A → M B) → M B
◌>>=◌ m f t = let (a, t') = m t in f a t'

abbrev pub pure : {A : Type 0} → A → M A
pure a t = (a, t)

abbrev pub ask : {A : Type 0} → Call → (Trace → A) → M A
ask c answer t = (answer t, t ++ c ∷ [])

-- A call that stops or restarts something; the others only look.
abbrev pub mutates : Call → Bool
mutates (term _) = true
mutates (run _ _) = true
mutates _ = false

abbrev pub mutations : Trace → ℕ
mutations [] = 0
mutations (c ∷ t) = (if mutates c then 1 else 0) + mutations t

-- How many calls an outcome may have taken that stop or restart something: one for a success, none
-- for a refusal, and at most one for any other failure.
abbrev pub Tally : Outcome → ℕ → Type 0
Tally (done m) n = n ≡ 1
Tally (err (refused m)) n = n ≡ 0
Tally (err (declined r)) n = n ≡ 0
Tally (err (context m)) n = n ≤ 1
Tally (err (operation e)) n = n ≤ 1
Tally (err (failed m)) n = n ≤ 1
