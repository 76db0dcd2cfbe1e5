-- ===== src/Bounded/Laws.antt =====
-- internal/boundedexec: lemmas on sequences of writes to the limited buffers and to a file.
use le_cli.Prelude.{
  ℕ, zero, suc, ◌+◌, ◌-◌, ◌≤◌, ltb, Bool, true, false, ◌||◌, if◌then◌else◌, none, some, List, [],
  ◌∷◌, ◌++◌, ◌∙◌, sym, take_all, length, take, Bytes, ◌≡◌, refl, ap, arith, Bool-cases, inl, inr,
  append-nil, append_assoc, length-append, length-take, ltb→lt, Option-cases,
}
use le_cli.Prelude.Int.{ltb-false}
use le_cli.Bounded.{
  LimitedBuffer, output_limit, limited, write, writes, Process, run, max_stdout, max_stderr,
  StreamWriter, Disk, stream_write, stream_writes, stream_to, with_stderr,
}

-- Everything that was written.
abbrev pub whole : List Bytes → Bytes
whole [] = []
whole (p ∷ ps) = p ++ whole ps

take-append_short :
    (n : ℕ) (xs ys : Bytes) → length xs ≤ n → take n (xs ++ ys) ≡ xs ++ take (n - length xs) ys
take-append_short n [] ys h = ap (λ k. take k ys) (omega arith)
take-append_short zero (x ∷ xs) ys h = elim h [ ]
take-append_short (suc n) (x ∷ xs) ys h =
    ap (◌∷◌ x) (take-append_short n xs ys (omega arith))
    ∙ ap (λ k. x ∷ (xs ++ take k ys)) (omega arith)

take-append_long : (n : ℕ) (xs ys : Bytes) → n ≤ length xs → take n (xs ++ ys) ≡ take n xs
take-append_long zero xs ys h = refl
take-append_long (suc n) [] ys h = elim h [ ]
take-append_long (suc n) (x ∷ xs) ys h = ap (◌∷◌ x) (take-append_long n xs ys (omega arith))

-- A buffer that is within its limit, and that reached it if a write did not fit.
record IsWithin (b : LimitedBuffer) : Type 0 where
  fits : length b.buffer ≤ b.limit
  full : b.exceeded ≡ true → length b.buffer ≡ b.limit

write-IsWithin : (b : LimitedBuffer) (p : Bytes) → IsWithin b → IsWithin (write b p).0
unfolding write
write-IsWithin b p h = elim (Bool-cases (ltb (b.limit - length b.buffer) (length p))) [
  | inl e ↦ rw e (
      let n : length (b.buffer ++ take (b.limit - length b.buffer) p) ≡ b.limit = omega (
        arith,
        h.fits,
        ltb→lt _ _ e,
        length-append b.buffer (take (b.limit - length b.buffer) p),
        length-take (b.limit - length b.buffer) p,
      ) in
      record { fits = omega (arith, n); full = λ x. n })
  | inr e ↦ rw e (record {
    fits = omega (arith, h.fits, ltb-false _ _ e, length-append b.buffer p);
    full = λ x. omega (arith, h.full x, h.fits, ltb-false _ _ e, length-append b.buffer p);
  })
]

write-buffer :
    (b : LimitedBuffer) (p rest : Bytes)
    → IsWithin b
    → take b.limit ((write b p).0.buffer ++ rest) ≡ take b.limit (b.buffer ++ (p ++ rest))
unfolding write
write-buffer b p rest h =
    let room = b.limit - length b.buffer in
    elim (Bool-cases (ltb room (length p))) [
      | inl e ↦
          let n = length-append b.buffer (take room p) in
          let k = length-take room p in
          let l = ltb→lt _ _ e in
          rw e (
            take-append_long b.limit (b.buffer ++ take room p) rest (omega (arith, h.fits, n, k, l))
            ∙ take_all b.limit (b.buffer ++ take room p) (omega (arith, h.fits, n, k, l))
            ∙ sym (
                take-append_short b.limit b.buffer (p ++ rest) h.fits
                ∙ ap (b.buffer ++◌) (take-append_long room p rest (omega (arith, l)))))
      | inr e ↦ rw e (ap (take b.limit) (append_assoc b.buffer p rest))
    ]

write-exceeded :
    (b : LimitedBuffer) (p : Bytes) (n : ℕ)
    → IsWithin b
    → ((write b p).0.exceeded || ltb b.limit (length (write b p).0.buffer + n))
      ≡ (b.exceeded || ltb b.limit (length b.buffer + (length p + n)))
unfolding write
write-exceeded b p n h =
    let room = b.limit - length b.buffer in
    elim (Bool-cases (ltb room (length p))) [
      | inl e ↦ rw e (sym (or_ltb b.exceeded _ _ (omega (arith, h.fits, ltb→lt _ _ e))))
      | inr e ↦
          rw e (ap (λ k. b.exceeded || ltb b.limit k) (omega (arith, length-append b.buffer p)))
    ]
  where
    or_ltb : (x : Bool) (m k : ℕ) → suc m ≤ k → (x || ltb m k) ≡ true
    or_ltb x m k l = ground arith

write-limit : (b : LimitedBuffer) (p : Bytes) → (write b p).0.limit ≡ b.limit
unfolding write
write-limit b p = ground arith

writes_kept :
    (b : LimitedBuffer) (ps : List Bytes)
    → IsWithin b
    → ((writes b ps).buffer ≡ take b.limit (b.buffer ++ whole ps))
      × ((writes b ps).exceeded ≡ (b.exceeded || ltb b.limit (length b.buffer + length (whole ps))))
unfolding writes
writes_kept b [] h = (
  sym (ap (take b.limit) (append-nil b.buffer) ∙ take_all b.limit b.buffer h.fits),
  ground (arith, h.fits),
)
writes_kept b (p ∷ ps) h =
    let (kept, over) = writes_kept (write b p).0 ps (write-IsWithin b p h) in
    (
      kept
          ∙ ap (λ k. take k ((write b p).0.buffer ++ whole ps)) (write-limit b p)
          ∙ write-buffer b p (whole ps) h,
      over
          ∙ ap
              (λ k.
                (write b p).0.exceeded || ltb k (length (write b p).0.buffer + length (whole ps)))
              (write-limit b p)
          ∙ write-exceeded b p (length (whole ps)) h
          ∙ ap (λ k. b.exceeded || ltb b.limit (length b.buffer + k))
              (sym (length-append p (whole ps))),
    )

limited-IsWithin : (n : ℕ) → IsWithin (limited n)
limited-IsWithin n = record { fits = omega arith; full = λ h. ground arith }

-- However a process divides its output into writes, the buffer keeps the output up to the limit,
-- and reports that the limit is exceeded exactly if the output is longer.
writes-take :
    (n : ℕ) (ps : List Bytes)
    → ((writes (limited n) ps).buffer ≡ take n (whole ps))
      × ((writes (limited n) ps).exceeded ≡ ltb n (length (whole ps)))
writes-take n ps =
    let (kept, over) = writes_kept (limited n) ps (limited-IsWithin n) in
    (kept, over ∙ ap (ltb n) (omega arith))

-- The parts of `run`'s answer, for any two buffers.
answer_lem :
    (p : Process)
    → (run p).1 ≡ none
    → ((run p).0 ≡ (writes (limited max_stdout) p.stdout).buffer)
      × ((writes (limited max_stdout) p.stdout).exceeded ≡ false)
      × (p.ends ≡ none)
      × (p.ctx_err ≡ none)
unfolding run with_stderr
answer_lem p h = ground arith

over_lem :
    (p : Process)
    → ((writes (limited max_stdout) p.stdout).exceeded
        || (writes (limited max_stderr) p.stderr).exceeded)
      ≡ true
    → run p ≡ ([], some output_limit)
unfolding run
over_lem p h = ground arith

whole_of :
    (n : ℕ) (ps : List Bytes)
    → (writes (limited n) ps).exceeded ≡ false
    → ((writes (limited n) ps).buffer ≡ whole ps) × (length (whole ps) ≤ n)
whole_of n ps h =
    let (kept, over) = writes-take n ps in
    let fits : length (whole ps) ≤ n = ltb-false _ _ (sym over ∙ h) in
    (kept ∙ take_all n (whole ps) fits, fits)

-- A command that succeeds returns everything that it wrote to stdout, at most 8 MiB. One that wrote
-- more than that to stdout, or more than 16 KiB to stderr, returns no text, and the error that says
-- so, whatever else happened to it.
pub run-whole :
    (p : Process)
    → ((run p).1 ≡ none
        → ((run p).0 ≡ whole p.stdout)
          × (length (whole p.stdout) ≤ max_stdout)
          × (p.ends ≡ none)
          × (p.ctx_err ≡ none))
      × ((ltb max_stdout (length (whole p.stdout)) || ltb max_stderr (length (whole p.stderr)))
            ≡ true
          → run p ≡ ([], some output_limit))
run-whole p = (
  λ h.
      let (same, fits, ended, live) = answer_lem p h in
      let (all, bound) = whole_of max_stdout p.stdout fits in (same ∙ all, bound, ended, live),
  λ h. over_lem p (rw ((writes-take max_stdout p.stdout).1, (writes-take max_stderr p.stderr).1) h),
)

-- What the file takes of a write, as its documentation bounds it.
abbrev pub Takes : Disk → Type 0
Takes disk = (file p : Bytes) → (disk file p).0 ≤ length p

-- What was written, and what may still be, make up the limit; and that many bytes are in the file.
record IsBounded (max : ℕ) (w : StreamWriter) : Type 0 where
  sum : w.written + w.remaining ≡ max
  stored : length w.file ≡ w.written

kept_le : (r : ℕ) (p : Bytes) → length (if ltb r (length p) then take r p else p) ≤ r
kept_le r p = elim (Bool-cases (ltb r (length p))) [
  | inl e ↦ rw e (omega (arith, length-take r p))
  | inr e ↦ rw e (ltb-false _ _ e)
]

stream_write-IsBounded :
    (disk : Disk) (max : ℕ) (w : StreamWriter) (p : Bytes)
    → Takes disk
    → IsBounded max w
    → IsBounded max (stream_write disk w p).0
unfolding stream_write
stream_write-IsBounded disk max w p takes h =
    let kept = if ltb w.remaining (length p) then take w.remaining p else p in
    let small : length kept ≤ w.remaining = kept_le w.remaining p in
    record {
      sum = omega (arith, h.sum, small, takes w.file kept);
      stored = omega (
        arith,
        h.stored,
        takes w.file kept,
        length-append w.file (take (disk w.file kept).0 kept),
        length-take (disk w.file kept).0 kept,
      );
    }

stream_writes_kept :
    (disk : Disk) (max : ℕ) (w : StreamWriter) (ps : List Bytes)
    → Takes disk
    → IsBounded max w
    → IsBounded max (stream_writes disk w ps)
unfolding stream_writes
stream_writes_kept disk max w [] takes h = h
stream_writes_kept disk max w (p ∷ ps) takes h =
    let now = stream_write-IsBounded disk max w p takes h in
    elim (Option-cases (stream_write disk w p).2) [
      | inl e ↦
          rw (e, stream_writes) (stream_writes_kept disk max (stream_write disk w p).0 ps takes now)
      | inr (x, e) ↦ rw (e, stream_writes) now
    ]

-- If a file never takes more bytes than it is given, then however a process divides its output and
-- whatever the file takes of it, the file ends with as many bytes as the writer counts, and with at
-- most the limit.
stream_writes-bounded :
    (disk : Disk) (max : ℕ) (ps : List Bytes)
    → Takes disk
    → let w = stream_writes disk (stream_to max) ps in
      (length w.file ≡ w.written) × (w.written ≤ max) × (w.written + w.remaining ≡ max)
stream_writes-bounded disk max ps takes =
    let start : IsBounded max (stream_to max) = record {
      sum = omega arith;
      stored = omega arith;
    } in
    let h = stream_writes_kept disk max (stream_to max) ps takes start in
    (h.stored, omega (arith, h.sum), h.sum)
