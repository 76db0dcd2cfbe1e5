-- ===== src/Datacenter/Wire/Sound.antt =====
-- datacenter/database/wire.go: what is read is a frame, taken from the head of the stream.
use le_cli.Prelude.{
  ℕ, zero, suc, ◌+◌, ◌*◌, ◌-◌, ◌≤◌, Bytes, Bool, true, false, ◌||◌, not, length, take, ltb, [], ◌∷◌,
  ◌++◌, none, some, if◌then◌else◌, ◌==◌, ◌≡◌, refl, ap, sym, ◌∙◌, arith, append_assoc, append-nil,
  length-append, length-take, take-append-drop, ==_iff, Option, subst,
}
use le_cli.Prelude.Decimal.{atoi, NumError}
use le_cli.Prelude.Int.{ℤ, pos, negsuc, ltb-false}
use le_cli.Datacenter.Wire.{
  Reading, got, refused, bind, read_slice, read_full, bulk, parts, counted, after_line, resp_frame,
  ends_crlf, max_rows,
}
use le_cli.Datacenter.Wire.Frames.{
  one_line, IsLine, IsHeader, Sequence, Framed, simple, absent_string, absent_array, string, array,
  IsFrame,
}

-- If something was read, it is as `P` says.
abbrev pub Ensures : (Bytes → Bytes → Type 0) → Reading → Type 0
Ensures P (got out rest) = P out rest
Ensures P (refused e rest) = Unit

pub Ensures-bind :
    (P Q : Bytes → Bytes → Type 0) (m : Reading) (f : Bytes → Bytes → Reading)
    → Ensures P m
    → ((out rest : Bytes) → P out rest → Ensures Q (f out rest))
    → Ensures Q (bind m f)
Ensures-bind P Q (got out rest) f h k = k out rest h
Ensures-bind P Q (refused e rest) f h k = tt

pub Ensures-if :
    (Q : Bytes → Bytes → Type 0) (b : Bool) (x y : Reading)
    → (b ≡ true → Ensures Q x)
    → (b ≡ false → Ensures Q y)
    → Ensures Q (if b then x else y)
Ensures-if Q true x y hx hy = hx refl
Ensures-if Q false x y hx hy = hy refl

pub Ensures-imp :
    (P Q : Bytes → Bytes → Type 0) (m : Reading)
    → Ensures P m
    → ((out rest : Bytes) → P out rest → Q out rest)
    → Ensures Q m
Ensures-imp P Q (got out rest) h k = k out rest h
Ensures-imp P Q (refused e rest) h k = tt

read_slice-Ensures :
    (room : ℕ) (s : Bytes)
    → Ensures
        (λ l rest. (l ++ rest ≡ s) × (one_line l ≡ true) × (length l ≤ room))
        (read_slice room s)
unfolding read_slice
read_slice-Ensures zero s = tt
read_slice-Ensures (suc room) [] = tt
read_slice-Ensures (suc room) (c ∷ s) =
    Ensures-if _ (c == 10) _ _ (λ e. (refl, ground (arith, e), omega arith))
      (λ e.
        Ensures-bind _ _ (read_slice room s) _ (read_slice-Ensures room s)
          (λ l rest (joined, one, short). (ap (◌∷◌ c) joined, rw e one, omega arith)))

pub read_full-Ensures :
    (n : ℕ) (s : Bytes) → Ensures (λ t rest. (t ++ rest ≡ s) × (length t ≡ n)) (read_full n s)
unfolding read_full
read_full-Ensures n s =
    Ensures-if _ (ltb (length s) n) _ _ (λ e. tt)
      (λ e. (take-append-drop n s, omega (arith, length-take n s, ltb-false (length s) n e)))

-- What a frame behind its header `l` adds up to.
abbrev Grown : (Bytes → Type 0) → ℕ → Bytes → Bytes → Bytes → Bytes → Type 0
Grown Q budget l s out rest =
    (t : Bytes) × (out ≡ l ++ t) × Q t × (t ++ rest ≡ s) × (length out ≤ budget)

bulk-Ensures :
    (n budget : ℕ) (l s : Bytes)
    → Ensures
        (Grown (λ t. (length t ≡ n + 2) × (ends_crlf t ≡ true)) budget l s)
        (bulk n budget l s)
unfolding bulk
bulk-Ensures n budget l s =
    Ensures-if _ (ltb budget (n + length l + 2)) _ _ (λ e. tt)
      (λ e.
        Ensures-bind _ _ (read_full (n + 2) s) _ (read_full-Ensures (n + 2) s)
          (λ t rest (joined, size).
            Ensures-if _ (ends_crlf t) _ _
              (λ c. (
                t,
                refl,
                (size, c),
                joined,
                omega (arith, size, length-append l t, ltb-false budget (n + length l + 2) e),
              ))
              (λ c. tt)))

-- The parts are read one behind the other.
abbrev Reads : (Bytes → Type 0) → (ℕ → Bytes → Reading) → Type 0
Reads P frame =
    (budget : ℕ) (s : Bytes)
    → Ensures (λ f rest. P f × (f ++ rest ≡ s) × (length f ≤ budget)) (frame budget s)

parts-Ensures :
    (P : Bytes → Type 0) (frame : ℕ → Bytes → Reading)
    → Reads P frame
    → (n budget : ℕ) (l s : Bytes) → length l ≤ budget
    → Ensures (Grown (Sequence P n) budget l s) (parts frame n budget l s)
unfolding parts
parts-Ensures P frame reads zero budget l s h = ([], sym (append-nil l), refl, refl, h)
parts-Ensures P frame reads (suc n) budget l s h =
    Ensures-bind _ _ (frame (budget - length l) s) _ (reads (budget - length l) s)
      (λ f rest (p, joined, fits).
        Ensures-imp (Grown (Sequence P n) budget (l ++ f) rest)
          (Grown (Sequence P (suc n)) budget l s) (parts frame n budget (l ++ f) rest)
          (parts-Ensures P frame reads n budget (l ++ f) rest
            (omega (arith, fits, h, length-append l f)))
          (λ out behind (t, grown, seq, rejoined, within). (
            f ++ t,
            grown ∙ append_assoc l f t,
            (f, t, p, seq, refl),
            append_assoc f t behind ∙ ap (f ++◌) rejoined ∙ joined,
            within,
          )))

-- The byte that a counted frame begins with.
abbrev mark : Bool → ℕ
mark is_string = if is_string then b'$' else b'*'

abbrev pub IsRead : (Bytes → Type 0) → ℕ → Bytes → Bytes → Bytes → Type 0
IsRead P budget s f rest = P f × (f ++ rest ≡ s) × (length f ≤ budget)

counted-Ensures :
    (P : Bytes → Type 0) (frame : ℕ → Bytes → Reading)
    → Reads P frame
    → (budget : ℕ) (l s : Bytes) → length l ≤ budget
    → (is_string : Bool) (number : ℤ × Option NumError)
    → ((n : ℤ) → number ≡ (n, none) → IsHeader (mark is_string) n l)
    → Ensures (IsRead (Framed P) budget (l ++ s)) (counted frame is_string number budget l s)
unfolding counted
counted-Ensures P frame reads budget l s fits is_string (n, some e) header = tt
counted-Ensures P frame reads budget l s fits is_string (negsuc (suc n), none) header = tt
counted-Ensures P frame reads budget l s fits true (negsuc zero, none) header =
    (absent_string l (header _ refl), refl, fits)
counted-Ensures P frame reads budget l s fits false (negsuc zero, none) header =
    (absent_array l (header _ refl), refl, fits)
counted-Ensures P frame reads budget l s fits true (pos n, none) header =
    Ensures-imp _ _ (bulk n budget l s) (bulk-Ensures n budget l s)
      (λ out rest (t, grown, (size, crlf), joined, within). (
        string n l t out (header _ refl) size crlf grown,
        ap (◌++ rest) grown ∙ append_assoc l t rest ∙ ap (l ++◌) joined,
        within,
      ))
counted-Ensures P frame reads budget l s fits false (pos n, none) header =
    Ensures-if _ (ltb (2 * max_rows + 32) n) _ _ (λ e. tt)
      (λ e.
        Ensures-imp _ _ (parts frame n budget l s) (parts-Ensures P frame reads n budget l s fits)
          (λ out rest (t, grown, seq, joined, within). (
            array n l t out (header _ refl) (ltb-false _ _ e) seq grown,
            ap (◌++ rest) grown ∙ append_assoc l t rest ∙ ap (l ++◌) joined,
            within,
          )))

after_line-Ensures :
    (P : Bytes → Type 0) (frame : ℕ → Bytes → Reading)
    → Reads P frame
    → (budget : ℕ) (l s : Bytes) → IsLine l
    → length l ≤ budget
    → Ensures (IsRead (Framed P) budget (l ++ s)) (after_line frame budget l s)
unfolding after_line
after_line-Ensures P frame reads budget [] s line fits = tt
after_line-Ensures P frame reads budget (c ∷ l) s line fits =
    let header : (b : ℕ) (e : (c == b) ≡ true) (n : ℤ)
        → atoi (take (length l - 2) l) ≡ (n, none)
        → IsHeader b n (c ∷ l) =
      λ b e n number.
        let same : c ≡ b = (==_iff c b).0 e in
        record {
          body = l;
          starts = ap (◌∷ l) same;
          line = subst (λ x. IsLine (x ∷ l)) same line;
          number = number;
        } in
    Ensures-if _ (c == b'+' || c == b'-' || c == b':') _ _ (λ e. (simple c l line e, refl, fits))
      (λ _.
        Ensures-if _ (c == b'$') _ _
          (λ e. counted-Ensures P frame reads budget (c ∷ l) s fits true _ (header b'$' e))
          (λ _.
            Ensures-if _ (c == b'*') _ _
              (λ e. counted-Ensures P frame reads budget (c ∷ l) s fits false _ (header b'*' e))
              (λ _. tt)))

or_false : (a b : Bool) → (a || b) ≡ false → (a ≡ false) × (b ≡ false)
or_false a b h = ground arith

-- Whatever is read, the frame is one.
pub resp_frame-Ensures :
    (levels budget : ℕ) (s : Bytes)
    → Ensures (IsRead (IsFrame levels) budget s) (resp_frame levels budget s)
unfolding resp_frame
resp_frame-Ensures zero budget s = tt
resp_frame-Ensures (suc levels) budget s =
    Ensures-if _ (ltb budget 3) _ _ (λ e. tt)
      (λ e.
        Ensures-bind _ _ (read_slice 4096 s) _ (read_slice-Ensures 4096 s)
          (λ l rest (joined, one, most).
            Ensures-if _ (ltb (length l) 3 || not (ends_crlf l) || ltb budget (length l)) _ _
              (λ bad. tt)
              (λ good.
                let line : IsLine l = record {
                  one = one;
                  crlf = ground (arith, good);
                  least = ground (arith, good);
                  most = most;
                } in
                Ensures-imp _ _ (after_line (resp_frame levels) budget l rest)
                  (after_line-Ensures (IsFrame levels) (resp_frame levels)
                    (resp_frame-Ensures levels) budget l rest line (ground (arith, good)))
                  (λ f behind (p, rejoined, within). (p, rejoined ∙ joined, within)))))
