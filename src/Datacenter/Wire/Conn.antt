-- ===== src/Datacenter/Wire/Conn.antt =====
-- datacenter/database/wire.go: what the driver gets through `frameConn`.
use le_cli.Prelude.{
  ℕ, zero, suc, ◌+◌, ◌-◌, ◌≤◌, Bytes, Bool, true, false, ◌||◌, not, length, ltb, List, [], ◌∷◌,
  ◌++◌, Option, if◌then◌else◌, ◌==◌, ◌≡◌, ◌≢◌, ◌↔◌, refl, ap, sym, ◌∙◌, arith, append_assoc,
  append-nil, length-append, take-append-drop, Bool-cases, inl, inr, All, All-append, subst, ◌<◌,
}
use le_cli.Datacenter.Wire.{
  Reading, got, refused, read_full, resp_frame, mongo_frame, next_frame, little_endian, byte_at,
  FrameConn, frame_read, hand_out, Answer, bytes, failed, max_result, get_elem?, guarded_conn,
  deadline_read,
}
use le_cli.Datacenter.Wire.Frames.{IsFrame}
use le_cli.Datacenter.Wire.Sound.{
  Ensures, Ensures-bind, Ensures-imp, Ensures-if, read_full-Ensures, resp_frame-Ensures,
}
use le_cli.Datacenter.Wire.Complete.{resp_frame-append}

Ensures-got :
    (P : Bytes → Bytes → Type 0) (m : Reading) (f rest : Bytes)
    → Ensures P m
    → m ≡ got f rest
    → P f rest
Ensures-got P m f rest h e = let whole = subst (Ensures P) e h in whole

-- `respFrame` takes a text off the head of the stream exactly if it is a RESP frame, within the
-- budget and nested less deep than the levels allow: strings and arrays have the length that their
-- header says.
pub resp_frame-IsFrame :
    (levels budget : ℕ) (s f rest : Bytes)
    → (resp_frame levels budget s ≡ got f rest)
      ↔ (IsFrame levels f × (f ++ rest ≡ s) × (length f ≤ budget))
resp_frame-IsFrame levels budget s f rest = (
  λ e. Ensures-got _ _ f rest (resp_frame-Ensures levels budget s) e,
  λ (p, joined, fits).
      ap (resp_frame levels budget) (sym joined) ∙ resp_frame-append levels budget f rest p fits,
)

-- A message of MongoDB: its length is the one that its header says, and it is not compressed.
pub record IsMessage (m : Bytes) : Type 0 where
  pub least : 16 ≤ length m
  pub most : length m ≤ max_result
  pub announced : little_endian m 0 ≡ length m
  pub uncompressed : little_endian m 12 ≢ 2012

-- What stands for one answer of the server.
abbrev pub IsAnswer : Bool → Bytes → Type 0
IsAnswer true m = IsMessage m
IsAnswer false m = IsFrame 33 m × (length m ≤ max_result)

get_elem?-append_left : (s t : Bytes) (i : ℕ) → i < length s → get_elem? (s ++ t) i ≡ get_elem? s i
get_elem?-append_left [] t i h = elim h [ ]
get_elem?-append_left (c ∷ s) t zero h = refl
get_elem?-append_left (c ∷ s) t (suc i) h = get_elem?-append_left s t i (omega arith)

byte_at-append : (s t : Bytes) (i : ℕ) → i < length s → byte_at (s ++ t) i ≡ byte_at s i
unfolding byte_at
byte_at-append s t i h = rw (get_elem?-append_left s t i h, byte_at) refl

little_endian-append :
    (s t : Bytes) (i : ℕ) → i + 3 < length s → little_endian (s ++ t) i ≡ little_endian s i
unfolding little_endian
little_endian-append s t i h =
    rw
      (
        byte_at-append s t i (omega arith),
        byte_at-append s t (i + 1) (omega arith),
        byte_at-append s t (i + 2) (omega arith),
        byte_at-append s t (i + 3) (omega arith),
      )
      refl

mongo_frame-Ensures :
    (s : Bytes) → Ensures (λ m rest. IsMessage m × (m ++ rest ≡ s)) (mongo_frame s)
unfolding mongo_frame
mongo_frame-Ensures s =
    Ensures-bind _ _ (read_full 16 s) _ (read_full-Ensures 16 s) (λ header rest (joined, sixteen).
      let size = little_endian header 0 in
      Ensures-if _ (ltb size 16 || ltb max_result size || little_endian header 12 == 2012) _ _
        (λ bad. tt)
        (λ good.
          Ensures-bind _ _ (read_full (size - 16) rest) _ (read_full-Ensures (size - 16) rest)
            (λ body behind (rejoined, rest_size).
              let least : 16 ≤ size = ground (arith, good) in
              let most : size ≤ max_result = ground (arith, good) in
              let whole : length (header ++ body) ≡ size =
                omega (arith, length-append header body, sixteen, rest_size, least) in
              (
                record {
                  least = omega (arith, whole, least);
                  most = omega (arith, whole, most);
                  announced =
                      little_endian-append header body 0 (omega (arith, sixteen)) ∙ sym whole;
                  uncompressed =
                      let same = little_endian-append header body 12 (omega (arith, sixteen)) in
                      ground (arith, good, same);
                },
                append_assoc header body behind ∙ ap (header ++◌) rejoined ∙ joined,
              ))))

next_frame-Ensures :
    (mongo : Bool) (s : Bytes)
    → Ensures (λ f rest. IsAnswer mongo f × (f ++ rest ≡ s)) (next_frame mongo s)
unfolding next_frame
next_frame-Ensures true s = mongo_frame-Ensures s
next_frame-Ensures false s =
    Ensures-imp _ _ (resp_frame 33 max_result s) (resp_frame-Ensures 33 max_result s)
      (λ f rest (p, joined, fits). ((p, fits), joined))

-- A sequence of calls, each with the size of the buffer that the driver gives, and what the driver
-- has after it; it stops at the first error.
unfoldable pub frame_reads : FrameConn → List ℕ → FrameConn × Bytes
frame_reads c [] = (c, [])
frame_reads c (n ∷ ns) =
    let r = frame_read c n in
    let rest = frame_reads r.0 ns in
    elim r.1 [ failed e ↦ (r.0, []) | bytes t ↦ (rest.0, t ++ rest.1) ]

abbrev pub concat : List Bytes → Bytes
concat [] = []
concat (f ∷ fs) = f ++ concat fs

-- One call: an error leaves nothing to hand out; otherwise what is handed out, and what is kept, are
-- what was kept before and the answers that were read.
abbrev IsStep : FrameConn → FrameConn → Answer → Type 0
IsStep c c' (failed e) = (c.pending ≡ []) × (c'.pending ≡ [])
IsStep c c' (bytes t) =
    (fs : List Bytes) × All (IsAnswer c.mongo) fs
    × (c.pending ++ concat fs ≡ t ++ c'.pending)
    × (concat fs ++ c'.stream ≡ c.stream)
    × (c'.mongo ≡ c.mongo)

empty_of : (s : Bytes) → not (length s == 0) ≡ false → s ≡ []
empty_of [] h = refl
empty_of (c ∷ s) h = absurd (ground (arith, h))

after_frame :
    (c : FrameConn) (n : ℕ) (m : Reading)
    → c.pending ≡ []
    → Ensures (λ f rest. IsAnswer c.mongo f × (f ++ rest ≡ c.stream)) m
    → let r : FrameConn × Answer = elim m [
      | refused e rest ↦ (record c { pending = []; stream = rest }, failed e)
      | got frame rest ↦ hand_out (record c { pending = frame; stream = rest }) n
    ] in
      IsStep c r.0 r.1
unfolding hand_out
after_frame c n (refused e rest) none_kept h = (none_kept, refl)
after_frame c n (got f rest) none_kept (p, joined) = (
  f ∷ [],
  (p, tt),
  ap (◌++ (f ++ [])) none_kept ∙ append-nil f ∙ sym (take-append-drop n f),
  ap (◌++ rest) (append-nil f) ∙ joined,
  refl,
)

frame_read-IsStep : (c : FrameConn) (n : ℕ) → IsStep c (frame_read c n).0 (frame_read c n).1
unfolding frame_read
frame_read-IsStep c n = elim (Bool-cases (n == 0)) [
  | inl e ↦ rw e ([], tt, append-nil c.pending, refl, refl)
  | inr e ↦ elim (Bool-cases (not (length c.pending == 0))) [
    | inl kept ↦
        rw (e, kept, hand_out)
          ([], tt, append-nil c.pending ∙ sym (take-append-drop n c.pending), refl, refl)
    | inr empty ↦
        rw (e, empty)
          (after_frame c n (next_frame c.mongo c.stream) (empty_of c.pending empty)
            (next_frame-Ensures c.mongo c.stream))
  ]
]

concat-append : (fs gs : List Bytes) → concat (fs ++ gs) ≡ concat fs ++ concat gs
concat-append [] gs = refl
concat-append (f ∷ fs) gs =
    ap (f ++◌) (concat-append fs gs) ∙ sym (append_assoc f (concat fs) (concat gs))

-- What the driver has got, and what is kept for it, in terms of the stream.
abbrev Delivers : FrameConn → FrameConn → Bytes → Type 0
Delivers c c' out =
    (fs : List Bytes) × (behind : Bytes) × All (IsAnswer c.mongo) fs
    × (c.pending ++ concat fs ≡ out ++ c'.pending)
    × (concat fs ++ behind ≡ c.stream)

Delivers-step :
    (c c₁ c' : FrameConn) (t out : Bytes)
    → IsStep c c₁ (bytes t)
    → Delivers c₁ c' out
    → Delivers c c' (t ++ out)
Delivers-step c c₁ c' t out (fs, ps, kept, joined, same) (gs, behind, qs, kept', joined') = (
  fs ++ gs,
  behind,
  All-append (IsAnswer c.mongo) fs gs ps (subst (λ b. All (IsAnswer b) gs) same qs),
  ap (c.pending ++◌) (concat-append fs gs)
      ∙ sym (append_assoc c.pending (concat fs) (concat gs))
      ∙ ap (◌++ concat gs) kept
      ∙ append_assoc t c₁.pending (concat gs)
      ∙ ap (t ++◌) kept'
      ∙ sym (append_assoc t out c'.pending),
  ap (◌++ behind) (concat-append fs gs)
      ∙ append_assoc (concat fs) (concat gs) behind
      ∙ ap (concat fs ++◌) joined'
      ∙ joined,
)

after_read :
    (c c₁ c' : FrameConn) (a : Answer) (out : Bytes)
    → IsStep c c₁ a
    → Delivers c₁ c' out
    → let r : FrameConn × Bytes = elim a [ failed e ↦ (c₁, []) | bytes t ↦ (c', t ++ out) ] in
      Delivers c r.0 r.1
after_read c c₁ c' (failed e) out (empty, kept) d =
    ([], c.stream, tt, append-nil c.pending ∙ empty ∙ sym kept, refl)
after_read c c₁ c' (bytes t) out step d = Delivers-step c c₁ c' t out step d

frame_reads-Delivers :
    (c : FrameConn) (ns : List ℕ) → Delivers c (frame_reads c ns).0 (frame_reads c ns).1
unfolding frame_reads
frame_reads-Delivers c [] = ([], c.stream, tt, append-nil c.pending, refl)
frame_reads-Delivers c (n ∷ ns) =
    after_read c (frame_read c n).0 _ (frame_read c n).1 _ (frame_read-IsStep c n)
      (frame_reads-Delivers (frame_read c n).0 ns)

-- However the driver divides its reads, and wherever one of them fails: what it gets is the beginning
-- of a sequence of answers that stand one behind the other at the head of the stream, and each of
-- them is whole: a RESP frame of at most 1 MiB and 32 levels, or a message of MongoDB that is not
-- compressed and has the length that its header says, at most 1 MiB.
pub frame_reads-prefix :
    (mongo : Bool) (stream : Bytes) (ns : List ℕ)
    → let r = frame_reads (guarded_conn mongo stream) ns in
      (fs : List Bytes) × (behind : Bytes) × All (IsAnswer mongo) fs
      × (concat fs ≡ r.1 ++ r.0.pending)
      × (concat fs ++ behind ≡ stream)
unfolding guarded_conn
frame_reads-prefix mongo stream ns = frame_reads-Delivers (guarded_conn mongo stream) ns

-- The connection's `Read` called again and again, each time with its own behaviour and a size.
unfoldable pub deadline_reads : {E : Type 0} → E → ℕ → List ((ℕ → Bytes × Option E) × ℕ) → ℕ
unfolding deadline_read
deadline_reads e remaining [] = 0
deadline_reads e remaining ((conn, n) ∷ calls) =
    let r = deadline_read conn e remaining n in length r.1.0 + deadline_reads e r.0 calls

abbrev pub Obeys : {E : Type 0} → (ℕ → Bytes × Option E) × ℕ → Type 0
Obeys (conn, n) = (k : ℕ) → length (conn k).0 ≤ k

-- If the connection never gives more bytes than it is asked for, then however often it is read, no
-- more bytes come through than were allowed in the beginning.
deadline_reads-bounded :
    {E : Type 0} (e : E) (remaining : ℕ) (calls : List ((ℕ → Bytes × Option E) × ℕ))
    → All Obeys calls
    → deadline_reads e remaining calls ≤ remaining
unfolding deadline_reads deadline_read
deadline_reads-bounded e remaining [] h = omega arith
deadline_reads-bounded e remaining ((conn, n) ∷ calls) (obeys, h) = ground (
  arith,
  obeys (if ltb remaining n then remaining else n),
  deadline_reads-bounded e 0 calls h,
  deadline_reads-bounded e (remaining - length (conn (if ltb remaining n then remaining else n)).0)
      calls h,
)
