-- ===== src/Label/Laws.antt =====
-- internal/label/label.go: the loop that cuts off platform and architecture.
use le_cli.Prelude.{
  ℕ, zero, suc, ◌+◌, ◌-◌, ◌<◌, ◌≤◌, Bytes, true, false, length, take, length-take, ltb, ltb→lt,
  List, [], ◌∷◌, some, ◌≡◌, refl, sym, ap, ◌∙◌, arith, Bool-cases, inl, inr, All, and_true,
}
use le_cli.Prelude.Letters.{to_lower, has_suffix}
use le_cli.Label.{removable, strip_pass, strip}

-- No suffix of the list can be cut off.
abbrev pub IsBare : List Bytes → Bytes → Type 0
IsBare suffixes h = All (λ suffix. removable h suffix ≡ false) suffixes

cut_pass :
    (suffix : Bytes) (rest : List Bytes) (h : Bytes)
    → removable h suffix ≡ true
    → strip_pass (suffix ∷ rest) h ≡ ((strip_pass rest (take (length h - length suffix) h)).0, true)
unfolding strip_pass
cut_pass suffix rest h c = rw c refl

kept_pass :
    (suffix : Bytes) (rest : List Bytes) (h : Bytes)
    → removable h suffix ≡ false
    → strip_pass (suffix ∷ rest) h ≡ strip_pass rest h
unfolding strip_pass
kept_pass suffix rest h c = rw c refl

strip_pass-IsBare :
    (suffixes : List Bytes) (h : Bytes)
    → (strip_pass suffixes h).1 ≡ false
    → ((strip_pass suffixes h).0 ≡ h) × IsBare suffixes h
strip_pass-IsBare [] h e = unfold strip_pass in (refl, tt)
strip_pass-IsBare (suffix ∷ rest) h e = elim (Bool-cases (removable h suffix)) [
  | inl c ↦ absurd (clash (sym (ap (λ r. r.1) (cut_pass suffix rest h c)) ∙ e))
  | inr c ↦
      let same = kept_pass suffix rest h c in
      let (left, bare) = strip_pass-IsBare rest h (sym (ap (λ r. r.1) same) ∙ e) in
      (ap (λ r. r.0) same ∙ left, (c, bare))
]
  where
    clash : true ≡ false → ⊥
    clash c = cc

strip_pass-length :
    (suffixes : List Bytes) (h : Bytes) → length (strip_pass suffixes h).0 ≤ length h
strip_pass-length [] h = unfold strip_pass in omega arith
strip_pass-length (suffix ∷ rest) h = elim (Bool-cases (removable h suffix)) [
  | inl c ↦
      let n = ap (λ r. length r.0) (cut_pass suffix rest h c) in
      let cut = take (length h - length suffix) h in
      omega (arith, n, strip_pass-length rest cut, length-take (length h - length suffix) h)
  | inr c ↦
      omega (arith, ap (λ r. length r.0) (kept_pass suffix rest h c), strip_pass-length rest h)
]

removable-length : (h suffix : Bytes) → removable h suffix ≡ true → length suffix < length h
unfolding removable
removable-length h suffix c =
    ltb→lt _ _ (and_true (ltb (length suffix) (length h)) (has_suffix (to_lower h) suffix) c).0

abbrev pub AreFilled : List Bytes → Type 0
AreFilled = All (λ suffix. 0 < length suffix)

strip_pass_shorter :
    (suffixes : List Bytes) (h : Bytes)
    → AreFilled suffixes
    → (strip_pass suffixes h).1 ≡ true
    → length (strip_pass suffixes h).0 < length h
strip_pass_shorter [] h f e = absurd (unchanged e)
  where
    unchanged : (strip_pass [] h).1 ≡ true → ⊥
    unchanged c = unfold strip_pass in cc
strip_pass_shorter (suffix ∷ rest) h (filled, f) e = elim (Bool-cases (removable h suffix)) [
  | inl c ↦
      let n = ap (λ r. length r.0) (cut_pass suffix rest h c) in
      let cut = take (length h - length suffix) h in
      omega (
        arith,
        n,
        filled,
        removable-length h suffix c,
        strip_pass-length rest cut,
        length-take (length h - length suffix) h,
      )
  | inr c ↦
      let same = kept_pass suffix rest h c in
      omega (
        arith,
        ap (λ r. length r.0) same,
        strip_pass_shorter rest h f (sym (ap (λ r. r.1) same) ∙ e),
      )
]

strip_ends :
    (passes : ℕ) (suffixes : List Bytes) (h : Bytes)
    → AreFilled suffixes
    → length h < passes
    → (r : Bytes) × ((strip passes suffixes h ≡ some r) × IsBare suffixes r)
unfolding strip
strip_ends zero suffixes h f lt = absurd (omega (arith, lt))
strip_ends (suc passes) suffixes h f lt = elim (Bool-cases (strip_pass suffixes h).1) [
  | inl c ↦
      let shorter = strip_pass_shorter suffixes h f c in
      let (r, (e, bare)) =
        strip_ends passes suffixes (strip_pass suffixes h).0 f (omega (arith, lt, shorter)) in
      (r, (rw (c, strip) e, bare))
  | inr c ↦
      let (same, bare) = strip_pass-IsBare suffixes h c in (h, (rw (c, strip) (ap some same), bare))
]

-- However often platform and architecture are stacked in a name, the loop that cuts them off ends
-- within one pass more than the name has bytes, with a name from which nothing more can be cut, if no
-- suffix is empty.
pub strip-IsBare :
    (suffixes : List Bytes) (h : Bytes)
    → AreFilled suffixes
    → (r : Bytes) × ((strip (length h + 1) suffixes h ≡ some r) × IsBare suffixes r)
strip-IsBare suffixes h f = strip_ends (length h + 1) suffixes h f (omega arith)
