-- ===== src/Bounded.antt =====
-- internal/boundedexec: subprocesses whose output is bounded (exec.go, stream.go). What a process
-- writes, how it ends and whether its context was cancelled are given; so is what a file takes.
pub mod Laws
mod Tests
use le_cli.Prelude.{
  ℕ, ◌+◌, ◌-◌, ltb, Bool, true, false, ◌||◌, not, if◌then◌else◌, Option, none, some, List, [], ◌∷◌,
  ◌++◌, length, take, Bytes, codes,
}
use le_cli.Scan.Unix.{RunError, exit, other}

pub record LimitedBuffer : Type 0 where
  pub buffer : Bytes
  pub limit : ℕ
  pub exceeded : Bool
  pub cancelled : Bool

abbrev pub max_stdout : ℕ
max_stdout = 8388608

abbrev pub max_stderr : ℕ
max_stderr = 16384

abbrev pub limited : ℕ → LimitedBuffer
limited n = record { buffer = []; limit = n; exceeded = false; cancelled = false }

-- `(*limitedBuffer).Write`: the buffer, and the count that it returns. The difference stops at 0,
-- and
-- is Go's as long as the buffer is within its limit.
unfoldable pub write : LimitedBuffer → Bytes → LimitedBuffer × ℕ
write b p =
    let room = b.limit - length b.buffer in
    if ltb room (length p)
    then (
      record b { buffer = b.buffer ++ take room p; exceeded = true; cancelled = true },
      length p,
    )
    else (record b { buffer = b.buffer ++ p }, length p)

unfoldable pub writes : LimitedBuffer → List Bytes → LimitedBuffer
unfolding write
writes b [] = b
writes b (p ∷ ps) = writes (write b p).0 ps

-- What the operating system does with the command: its writes, its end, and the context's error.
pub record Process : Type 0 where
  pub stdout : List Bytes
  pub stderr : List Bytes
  pub ends : Option RunError
  pub ctx_err : Option Bytes

pub data Fault : Type 0 where
  output_limit : Fault
  context : Bytes → Fault
  run_failed : RunError → Fault

-- `exitErr.Stderr = …`
unfoldable pub with_stderr : Bytes → Option RunError → Option Fault
with_stderr stderr none = none
with_stderr stderr (some (exit code old)) = some (run_failed (exit code stderr))
with_stderr stderr (some (other m)) = some (run_failed (other m))

-- `run`
unfoldable pub run : Process → Bytes × Option Fault
unfolding writes with_stderr
run p =
    let out = writes (limited max_stdout) p.stdout in
    let err = writes (limited max_stderr) p.stderr in
    if out.exceeded || err.exceeded then ([], some output_limit) else elim p.ctx_err [
      | some m ↦ ([], some (context m))
      | none ↦ (out.buffer, with_stderr err.buffer p.ends)
    ]

-- `streamWriter`; `file` is what the file has taken so far.
pub record StreamWriter : Type 0 where
  pub file : Bytes
  pub remaining : ℕ
  pub written : ℕ
  pub exceeded : Bool
  pub cancelled : Bool

-- What a file does with a write: how many bytes it takes, and its error.
abbrev pub Disk : Type 0
Disk = Bytes → Bytes → ℕ × Option Bytes

pub data WriteError : Type 0 where
  limit_error : WriteError
  disk_error : Bytes → WriteError

abbrev disk_fault : Option Bytes → Option WriteError
disk_fault none = none
disk_fault (some m) = some (disk_error m)

-- `(*streamWriter).Write`
unfoldable pub stream_write : Disk → StreamWriter → Bytes → StreamWriter × ℕ × Option WriteError
stream_write disk w p =
    let over = ltb w.remaining (length p) in
    let kept = if over then take w.remaining p else p in
    let answer = disk w.file kept in
    let exceeded = w.exceeded || over in
    (
      record {
        file = w.file ++ take answer.0 kept;
        remaining = w.remaining - answer.0;
        written = w.written + answer.0;
        exceeded = exceeded;
        cancelled = w.cancelled || over;
      },
      answer.0,
      if exceeded then some limit_error else disk_fault answer.1,
    )

-- The copy of a process's output stops at the first write that fails.
unfoldable pub stream_writes : Disk → StreamWriter → List Bytes → StreamWriter
unfolding stream_write
stream_writes disk w [] = w
stream_writes disk w (p ∷ ps) =
    let (next, n, fault) = stream_write disk w p in
    let rest = stream_writes disk next ps in elim fault [ none ↦ rest | some e ↦ next ]

abbrev pub stream_to : ℕ → StreamWriter
stream_to max = record {
  file = [];
  remaining = max;
  written = 0;
  exceeded = false;
  cancelled = false;
}
