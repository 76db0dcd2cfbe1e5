-- ===== src/Datacenter/Wire/Complete.antt =====
-- datacenter/database/wire.go: a frame at the head of the stream is read whole.
use le_cli.Prelude.{
  ℕ, zero, suc, ◌+◌, ◌*◌, ◌-◌, ◌≤◌, Bytes, true, false, ◌||◌, not, length, take, drop, ltb, [], ◌∷◌,
  ◌++◌, ◌==◌, ◌≡◌, refl, ap, sym, ◌∙◌, arith, append_assoc, append-nil, length-append, Bool-cases,
  inl, inr, subst, ◌⊎◌,
}
use le_cli.Prelude.Int.{pos, negsuc, le→ltb_false}
use le_cli.Datacenter.Wire.{
  Reading, got, bind, read_slice, read_full, bulk, parts, counted, after_line, resp_frame,
  ends_crlf, max_rows, ℤ,
}
use le_cli.Datacenter.Wire.Frames.{
  one_line, IsLine, IsHeader, Sequence, Framed, simple, absent_string, absent_array, string, array,
  IsFrame,
}

take-append_self : (t rest : Bytes) → take (length t) (t ++ rest) ≡ t
take-append_self [] rest = refl
take-append_self (c ∷ t) rest = ap (◌∷◌ c) (take-append_self t rest)

drop-append_self : (t rest : Bytes) → drop (length t) (t ++ rest) ≡ rest
drop-append_self [] rest = refl
drop-append_self (c ∷ t) rest = drop-append_self t rest

read_full-append : (n : ℕ) (t rest : Bytes) → length t ≡ n → read_full n (t ++ rest) ≡ got t rest
unfolding read_full
read_full-append n t rest h =
    let enough : ltb (length (t ++ rest)) n ≡ false =
      le→ltb_false _ _ (omega (arith, h, length-append t rest)) in
    rw enough (
      ap (λ k. got (take k (t ++ rest)) (drop k (t ++ rest))) (sym h)
      ∙ ap (λ x. got x (drop (length t) (t ++ rest))) (take-append_self t rest)
      ∙ ap (got t) (drop-append_self t rest))

read_slice-append :
    (room : ℕ) (l rest : Bytes)
    → one_line l ≡ true
    → length l ≤ room
    → read_slice room (l ++ rest) ≡ got l rest
unfolding read_slice
read_slice-append room [] rest one fits = cc
read_slice-append zero (c ∷ l) rest one fits = elim fits [ ]
read_slice-append (suc room) (c ∷ []) rest one fits = ground arith
read_slice-append (suc room) (c ∷ (d ∷ l)) rest one fits = elim (Bool-cases (c == 10)) [
  | inl e ↦ ground (arith, e)
  | inr e ↦
      let tail = read_slice-append room (d ∷ l) rest (rw e at one) (omega arith) in
      rw e (ap (λ m. bind m (λ line behind. got (c ∷ line) behind)) tail)
]

bulk-append :
    (n budget : ℕ) (l t rest : Bytes)
    → length t ≡ n + 2
    → ends_crlf t ≡ true
    → length l + length t ≤ budget
    → bulk n budget l (t ++ rest) ≡ got (l ++ t) rest
unfolding bulk
bulk-append n budget l t rest size crlf fits =
    let room : ltb budget (n + length l + 2) ≡ false = le→ltb_false _ _ (omega arith) in
    rw (room, read_full-append (n + 2) t rest size, crlf) refl

-- What `frame` reads if it is given a text as `P` says.
abbrev Accepts : (Bytes → Type 0) → (ℕ → Bytes → Reading) → Type 0
Accepts P frame =
    (budget : ℕ) (f rest : Bytes) → P f → length f ≤ budget → frame budget (f ++ rest) ≡ got f rest

parts-append :
    (P : Bytes → Type 0) (frame : ℕ → Bytes → Reading)
    → Accepts P frame
    → (n budget : ℕ) (l t rest : Bytes) → Sequence P n t
    → length l + length t ≤ budget
    → parts frame n budget l (t ++ rest) ≡ got (l ++ t) rest
unfolding parts
parts-append P frame reads zero budget l t rest e fits =
    ap (λ x. got l (x ++ rest)) e ∙ ap (λ x. got x rest) (sym (append-nil l) ∙ ap (l ++◌) (sym e))
parts-append P frame reads (suc n) budget l t rest (f, u, p, seq, e) fits =
    let size : length t ≡ length f + length u = ap length e ∙ length-append f u in
    let first : frame (budget - length l) (t ++ rest) ≡ got f (u ++ rest) =
      ap (λ x. frame (budget - length l) (x ++ rest)) e
      ∙ ap (frame (budget - length l)) (append_assoc f u rest)
      ∙ reads (budget - length l) f (u ++ rest) p (omega (arith, size)) in
    ap (λ m. bind m (λ part behind. parts frame n budget (l ++ part) behind)) first
    ∙ parts-append P frame reads n budget (l ++ f) u rest seq
        (omega (arith, size, length-append l f))
    ∙ ap (λ x. got x rest) (append_assoc l f u ∙ ap (l ++◌) (sym e))

-- The line that a frame begins with, and that the reader goes on from it to the frame's end.
record Begins (frame : ℕ → Bytes → Reading) (budget : ℕ) (rest f : Bytes) : Type 0 where
  line : Bytes
  tail : Bytes
  whole : f ≡ line ++ tail
  is_line : IsLine line
  goes_on : after_line frame budget line (tail ++ rest) ≡ got f rest

after_string :
    (frame : ℕ → Bytes → Reading) (n budget : ℕ) (l t rest : Bytes)
    → IsHeader b'$' (pos n) l
    → length t ≡ n + 2
    → ends_crlf t ≡ true
    → length (l ++ t) ≤ budget
    → after_line frame budget l (t ++ rest) ≡ got (l ++ t) rest
unfolding after_line counted
after_string frame n budget l t rest h size crlf fits =
    let e : l ≡ b'$' ∷ h.body = h.starts in
    ap (λ x. after_line frame budget x (t ++ rest)) e
    ∙ ap (λ x. counted frame true x budget (b'$' ∷ h.body) (t ++ rest)) h.number
    ∙ bulk-append n budget (b'$' ∷ h.body) t rest size crlf
        (omega (arith, ap length e, length-append l t))
    ∙ ap (λ x. got (x ++ t) rest) (sym e)

after_array :
    (P : Bytes → Type 0) (frame : ℕ → Bytes → Reading)
    → Accepts P frame
    → (n budget : ℕ) (l t rest : Bytes) → IsHeader b'*' (pos n) l
    → n ≤ 2 * max_rows + 32
    → Sequence P n t
    → length (l ++ t) ≤ budget
    → after_line frame budget l (t ++ rest) ≡ got (l ++ t) rest
unfolding after_line counted
after_array P frame reads n budget l t rest h few seq fits =
    let e : l ≡ b'*' ∷ h.body = h.starts in
    let room : ltb (2 * max_rows + 32) n ≡ false = le→ltb_false _ _ few in
    ap (λ x. after_line frame budget x (t ++ rest)) e
    ∙ ap (λ x. counted frame false x budget (b'*' ∷ h.body) (t ++ rest)) h.number
    ∙ rw room (
        parts-append P frame reads n budget (b'*' ∷ h.body) t rest seq
          (omega (arith, ap length e, length-append l t)))
    ∙ ap (λ x. got (x ++ t) rest) (sym e)

after_absent :
    (frame : ℕ → Bytes → Reading) (budget b : ℕ) (l rest : Bytes)
    → (b ≡ b'$') ⊎ (b ≡ b'*')
    → IsHeader b (negsuc 0) l
    → after_line frame budget l rest ≡ got l rest
unfolding after_line counted
after_absent frame budget b l rest which h = elim which [
  | inl e ↦
      let same : l ≡ b'$' ∷ h.body = h.starts ∙ ap (◌∷ h.body) e in
      ap (λ x. after_line frame budget x rest) same
      ∙ ap (λ x. counted frame true x budget (b'$' ∷ h.body) rest) h.number
      ∙ ap (λ x. got x rest) (sym same)
  | inr e ↦
      let same : l ≡ b'*' ∷ h.body = h.starts ∙ ap (◌∷ h.body) e in
      ap (λ x. after_line frame budget x rest) same
      ∙ ap (λ x. counted frame false x budget (b'*' ∷ h.body) rest) h.number
      ∙ ap (λ x. got x rest) (sym same)
]

IsHeader-IsLine : (b : ℕ) (n : ℤ) (l : Bytes) → IsHeader b n l → IsLine l
IsHeader-IsLine b n l h = subst IsLine (sym h.starts) h.line

Framed-Begins :
    (P : Bytes → Type 0) (frame : ℕ → Bytes → Reading)
    → Accepts P frame
    → (budget : ℕ) (rest f : Bytes) → Framed P f
    → length f ≤ budget
    → Begins frame budget rest f
unfolding after_line
Framed-Begins P frame reads budget rest _ (simple c l line s) fits = record {
  line = c ∷ l;
  tail = [];
  whole = sym (append-nil (c ∷ l));
  is_line = line;
  goes_on = rw s refl;
}
Framed-Begins P frame reads budget rest _ (absent_string l h) fits = record {
  line = l;
  tail = [];
  whole = sym (append-nil l);
  is_line = IsHeader-IsLine _ _ l h;
  goes_on = after_absent frame budget b'$' l rest (inl refl) h;
}
Framed-Begins P frame reads budget rest _ (absent_array l h) fits = record {
  line = l;
  tail = [];
  whole = sym (append-nil l);
  is_line = IsHeader-IsLine _ _ l h;
  goes_on = after_absent frame budget b'*' l rest (inr refl) h;
}
Framed-Begins P frame reads budget rest _ (string n l t f h size crlf e) fits = record {
  line = l;
  tail = t;
  whole = e;
  is_line = IsHeader-IsLine _ _ l h;
  goes_on =
      after_string frame n budget l t rest h size crlf (omega (arith, ap length e))
      ∙ ap (λ x. got x rest) (sym e);
}
Framed-Begins P frame reads budget rest _ (array n l t f h few seq e) fits = record {
  line = l;
  tail = t;
  whole = e;
  is_line = IsHeader-IsLine _ _ l h;
  goes_on =
      after_array P frame reads n budget l t rest h few seq (omega (arith, ap length e))
      ∙ ap (λ x. got x rest) (sym e);
}

line_passes :
    (l : Bytes) (budget : ℕ)
    → IsLine l
    → length l ≤ budget
    → (ltb (length l) 3 || not (ends_crlf l) || ltb budget (length l)) ≡ false
line_passes l budget h fits =
    let a : ltb (length l) 3 ≡ false = le→ltb_false _ _ h.least in
    let b : ltb budget (length l) ≡ false = le→ltb_false _ _ fits in rw (a, h.crlf, b) refl

-- A frame within the budget is read, whatever follows it.
pub resp_frame-append : (levels : ℕ) → Accepts (IsFrame levels) (resp_frame levels)
unfolding resp_frame
resp_frame-append zero budget f rest p fits = elim p [ ]
resp_frame-append (suc levels) budget f rest p fits =
    let b =
      Framed-Begins (IsFrame levels) (resp_frame levels) (resp_frame-append levels) budget rest f p
        fits in
    let size : length f ≡ length b.line + length b.tail =
      ap length b.whole ∙ length-append b.line b.tail in
    let enough : ltb budget 3 ≡ false = le→ltb_false _ _ (omega (arith, size, b.is_line.least)) in
    let passes = line_passes b.line budget b.is_line (omega (arith, size)) in
    let line_read : read_slice 4096 (f ++ rest) ≡ got b.line (b.tail ++ rest) =
      ap (λ x. read_slice 4096 (x ++ rest)) b.whole
      ∙ ap (read_slice 4096) (append_assoc b.line b.tail rest)
      ∙ read_slice-append 4096 b.line (b.tail ++ rest) b.is_line.one b.is_line.most in
    rw (enough, line_read, passes) b.goes_on
