-- ===== src/Intel/Words/Laws.antt =====
-- intel/intel.go: the loop of `wordMatch`, compared with the places in the text.
use le_cli.Prelude.Search.Laws.{has_prefix-append, has_prefix-split}
use le_cli.Prelude.{
  or_true, or_right, ℕ, zero, suc, ◌+◌, ◌-◌, ◌<◌, Bytes, Bool, true, false, ◌&&◌, ◌||◌, is_empty,
  has_prefix, length, drop, get_elem?, [], ◌∷◌, ◌++◌, append-nil, append_assoc, Option, none, some,
  if◌then◌else◌, ◌≡◌, ◌≢◌, ◌↔◌, refl, sym, ap, ◌∙◌, arith, Bool-cases, Option-cases, and_true, inl,
  inr, ◌⊎◌, length-append,
}
use le_cli.Prelude.Letters.{to_lower}
use le_cli.Prelude.Search.{index}
use le_cli.Intel.Words.{open_at, before_ok, after_ok, match_from, word_match}

unfoldable pub first : Bytes → Option ℕ
first [] = none
first (c ∷ s) = some c

unfoldable pub last : Bytes → Option ℕ
last [] = none
last (c ∷ []) = some c
last (c ∷ (d ∷ s)) = last (d ∷ s)

-- The name stands in the text, and no letter, digit or underscore on either side of it.
abbrev pub Occurs : Bytes → Bytes → Type 0
Occurs h n =
    (a : Bytes) × ((b : Bytes) × ((h ≡ a ++ (n ++ b))
        × (open_at (last a) ≡ true)
        × (open_at (first b) ≡ true)))

-- Every place is tried.
unfoldable occurs_at : Bytes → Bytes → ℕ → Bytes → Bool
unfolding has_prefix before_ok after_ok
occurs_at h n from [] = false
occurs_at h n from (c ∷ s) =
    has_prefix (c ∷ s) n && (before_ok h from && after_ok h (from + length n))
    || occurs_at h n (suc from) s

drop-suc : (h : Bytes) (i c : ℕ) (s : Bytes) → drop i h ≡ c ∷ s → drop (suc i) h ≡ s
drop-suc [] zero c s e = cc
drop-suc [] (suc i) c s e = cc
drop-suc (x ∷ h) zero c s e = cc
drop-suc (x ∷ h) (suc i) c s e = drop-suc h i c s e

index_hit : (n : Bytes) (c : ℕ) (s : Bytes) → has_prefix (c ∷ s) n ≡ true → index (c ∷ s) n ≡ some 0
unfolding index
index_hit n c s hit = rw hit refl

index_miss :
    (n : Bytes) (c : ℕ) (s : Bytes)
    → has_prefix (c ∷ s) n ≡ false
    → ((index s n ≡ none) × (index (c ∷ s) n ≡ none))
      ⊎ ((j : ℕ) × ((index s n ≡ some j) × (index (c ∷ s) n ≡ some (suc j))))
unfolding index
index_miss n c s miss = elim (Option-cases (index s n)) [
  | inl e ↦ inl (e, rw (miss, e) refl)
  | inr (j, e) ↦ inr (j, (e, rw (miss, e) refl))
]

match_from_stop :
    (k : ℕ) (h n : Bytes) (from : ℕ)
    → index (drop from h) n ≡ none
    → match_from (suc k) h n from ≡ some false
unfolding match_from
match_from_stop k h n from e = rw (e, match_from) refl

match_from_round :
    (k : ℕ) (h n : Bytes) (from j : ℕ)
    → index (drop from h) n ≡ some j
    → match_from (suc k) h n from ≡ (
        if before_ok h (j + from) && after_ok h (j + from + length n)
        then some true
        else match_from k h n (suc (j + from)))
unfolding match_from
match_from_round k h n from j e = rw (e, match_from) refl

-- A place where the name does not begin is passed over.
match_from_skip :
    (k : ℕ) (h n : Bytes) (from c : ℕ) (s : Bytes)
    → drop from h ≡ c ∷ s
    → has_prefix (c ∷ s) n ≡ false
    → match_from (suc k) h n from ≡ match_from (suc k) h n (suc from)
match_from_skip k h n from c s e miss =
    let later = drop-suc h from c s e in
    elim (index_miss n c s miss) [
      | inl (x, y) ↦
          match_from_stop k h n from (ap (λ t. index t n) e ∙ y)
          ∙ sym (match_from_stop k h n (suc from) (ap (λ t. index t n) later ∙ x))
      | inr (j, (x, y)) ↦
          match_from_round k h n from (suc j) (ap (λ t. index t n) e ∙ y)
          ∙ moved j
          ∙ sym (match_from_round k h n (suc from) j (ap (λ t. index t n) later ∙ x))
    ]
  where
    moved :
        (j : ℕ)
        → (if before_ok h (suc j + from) && after_ok h (suc j + from + length n)
            then some true
            else match_from k h n (suc (suc j + from)))
          ≡ (if before_ok h (j + suc from) && after_ok h (j + suc from + length n)
              then some true
              else match_from k h n (suc (j + suc from)))
    moved j =
        let same : suc j + from ≡ j + suc from = omega arith in
        ap
          (λ i.
            if before_ok h i && after_ok h (i + length n)
            then some true
            else match_from k h n (suc i))
          same

index_empty : (n : Bytes) → is_empty n ≡ false → index [] n ≡ none
unfolding index has_prefix
index_empty [] ne = cc
index_empty (m ∷ n) ne = refl

choose : (b r : Bool) → (if b then some true else some r) ≡ some (b || r)
choose true r = refl
choose false r = refl

match_from-occurs_at :
    (h n : Bytes) (s : Bytes) (from k : ℕ)
    → is_empty n ≡ false
    → drop from h ≡ s
    → length s < k
    → match_from k h n from ≡ some (occurs_at h n from s)
unfolding occurs_at
match_from-occurs_at h n s from zero ne e lt = absurd (omega (arith, lt))
match_from-occurs_at h n [] from (suc k) ne e lt =
    match_from_stop k h n from (ap (λ t. index t n) e ∙ index_empty n ne)
match_from-occurs_at h n (c ∷ s) from (suc k) ne e lt =
    let later = drop-suc h from c s e in
    elim (Bool-cases (has_prefix (c ∷ s) n)) [
      | inl hit ↦
          let z : 0 + from ≡ from = omega arith in
          let next = match_from-occurs_at h n s (suc from) k ne later (omega (arith, lt)) in
          match_from_round k h n from 0 (ap (λ t. index t n) e ∙ index_hit n c s hit)
          ∙ rw (z, next, hit)
              (choose (before_ok h from && after_ok h (from + length n))
                (occurs_at h n (suc from) s))
      | inr miss ↦
          match_from_skip k h n from c s e miss
          ∙ match_from-occurs_at h n s (suc from) (suc k) ne later (omega (arith, lt))
          ∙ rw miss refl
    ]

match_from_all : (h n : Bytes) → n ≢ [] → match_from (length h + 1) h n 0 ≡ some (occurs_at h n 0 h)
match_from_all h [] ne = absurd (ne refl)
match_from_all h (m ∷ n) ne =
    match_from-occurs_at h (m ∷ n) h 0 (length h + 1) refl refl (omega arith)

-- If the name is not empty, the loop ends within one round more than the text has bytes.
pub match_from-ends :
    (h n : Bytes) → n ≢ [] → (b : Bool) × (match_from (length h + 1) h n 0 ≡ some b)
match_from-ends h n ne = (occurs_at h n 0 h, match_from_all h n ne)

get_elem?-append : (a r : Bytes) (i : ℕ) → get_elem? (a ++ r) (length a + i) ≡ get_elem? r i
get_elem?-append [] r i = let z : 0 + i ≡ i = omega arith in rw z refl
get_elem?-append (x ∷ a) r i =
    let e : suc (length a) + i ≡ suc (length a + i) = omega arith in rw e (get_elem?-append a r i)

get_elem?-last : (x : ℕ) (a r : Bytes) → get_elem? (x ∷ (a ++ r)) (length a) ≡ last (x ∷ a)
unfolding last
get_elem?-last x [] r = refl
get_elem?-last x (y ∷ a) r = get_elem?-last y a r

before_ok-last : (a r : Bytes) → before_ok (a ++ r) (length a) ≡ open_at (last a)
unfolding before_ok last open_at
before_ok-last [] r = refl
before_ok-last (x ∷ a) r =
    let e : suc (length a) - 1 ≡ length a = omega arith in ground (arith, e, get_elem?-last x a r)

get_elem?-first : (b : Bytes) → get_elem? b 0 ≡ first b
unfolding first
get_elem?-first [] = refl
get_elem?-first (c ∷ b) = refl

after_ok-first :
    (a n b : Bytes) → after_ok (a ++ (n ++ b)) (length a + length n) ≡ open_at (first b)
unfolding after_ok first
after_ok-first a n b =
    let e : length n + 0 ≡ length n = omega arith in
    let here = ap (get_elem? (n ++ b)) (sym e) ∙ get_elem?-append n b 0 ∙ get_elem?-first b in
    ap open_at (get_elem?-append a (n ++ b) (length n) ∙ here)

-- The tests at the place behind `a`.
abbrev at_place : Bytes → Bytes → Bytes → Bool
at_place a n b = open_at (last a) && open_at (first b)

occurs_at-here :
    (a n b : Bytes)
    → (before_ok (a ++ (n ++ b)) (length a) && after_ok (a ++ (n ++ b)) (length a + length n))
      ≡ at_place a n b
occurs_at-here a n b = rw (before_ok-last a (n ++ b), after_ok-first a n b) refl

length-append_one : (a : Bytes) (c : ℕ) → length (a ++ c ∷ []) ≡ suc (length a)
length-append_one a c = omega (arith, length-append a (c ∷ []))

step_equation : (h a : Bytes) (c : ℕ) (s : Bytes) → h ≡ a ++ c ∷ s → h ≡ (a ++ c ∷ []) ++ s
step_equation h a c s e = e ∙ sym (append_assoc a (c ∷ []) s)

occurs_at_here :
    (h n a b : Bytes)
    → h ≡ a ++ (n ++ b)
    → (before_ok h (length a) && after_ok h (length a + length n)) ≡ at_place a n b
occurs_at_here h n a b e =
    ap (λ t. before_ok t (length a) && after_ok t (length a + length n)) e ∙ occurs_at-here a n b

occurs_at-Occurs : (h n a s : Bytes) → h ≡ a ++ s → occurs_at h n (length a) s ≡ true → Occurs h n
unfolding occurs_at
occurs_at-Occurs h n a [] e t = cc
occurs_at-Occurs h n a (c ∷ s) e t = elim (or_true _ _ t) [
  | inl here ↦
      let (hit, ok) = and_true _ _ here in
      let (b, split) = has_prefix-split (c ∷ s) n hit in
      let whole = e ∙ ap (◌++◌ a) split in
      let (l, r) =
        and_true (open_at (last a)) (open_at (first b)) (sym (occurs_at_here h n a b whole) ∙ ok) in
      (a, (b, (whole, l, r)))
  | inr later ↦
      occurs_at-Occurs h n (a ++ c ∷ []) s (step_equation h a c s e)
        (ap (λ i. occurs_at h n i s) (length-append_one a c) ∙ later)
]

Occurs-occurs_at :
    (h n a p b : Bytes)
    → n ≢ []
    → h ≡ a ++ (p ++ (n ++ b))
    → open_at (last (a ++ p)) ≡ true
    → open_at (first b) ≡ true
    → occurs_at h n (length a) (p ++ (n ++ b)) ≡ true
unfolding occurs_at
Occurs-occurs_at h [] a p b ne e l r = absurd (ne refl)
Occurs-occurs_at h (m ∷ n) a [] b ne e l r =
    let ends : open_at (last a) ≡ true = ap (λ t. open_at (last t)) (sym (append-nil a)) ∙ l in
    rw (has_prefix-append (m ∷ n) b, occurs_at_here h (m ∷ n) a b e, ends, r) refl
Occurs-occurs_at h n a (c ∷ p) b ne e l r =
    let later =
      Occurs-occurs_at h n (a ++ c ∷ []) p b ne (step_equation h a c (p ++ (n ++ b)) e)
        (ap (λ t. open_at (last t)) (append_assoc a (c ∷ []) p) ∙ l) r in
    or_right _ _ (ap (λ i. occurs_at h n i (p ++ (n ++ b))) (sym (length-append_one a c)) ∙ later)

occurs_at_iff : (h n : Bytes) → n ≢ [] → (occurs_at h n 0 h ≡ true) ↔ Occurs h n
occurs_at_iff h n ne = (
  occurs_at-Occurs h n [] h refl,
  λ (a, (b, (e, l, r))). ap (occurs_at h n 0) e ∙ Occurs-occurs_at h n [] a b ne e l r,
)

filled : (n : Bytes) → n ≢ [] → is_empty n ≡ false
filled [] ne = absurd (ne refl)
filled (c ∷ n) ne = refl

word_match-occurs_at :
    (text name : Bytes)
    → to_lower name ≢ []
    → word_match text name ≡ occurs_at (to_lower text) (to_lower name) 0 (to_lower text)
unfolding word_match
word_match-occurs_at text name ne =
    rw (filled (to_lower name) ne, match_from_all (to_lower text) (to_lower name) ne) refl

word_match-true : (text name : Bytes) → word_match text name ≡ true → to_lower name ≢ []
unfolding word_match
word_match-true text name t e = ground (arith, e, t)

-- `wordMatch` finds a name in a text exactly if, in lower case, the name is not empty and stands
-- somewhere in the text with no ASCII letter, digit or underscore on either side.
pub word_match-Occurs :
    (text name : Bytes)
    → (word_match text name ≡ true)
      ↔ ((to_lower name ≢ []) × Occurs (to_lower text) (to_lower name))
word_match-Occurs text name = (
  λ t.
      let ne = word_match-true text name t in
      (
        ne,
        (occurs_at_iff (to_lower text) (to_lower name) ne).0
            (sym (word_match-occurs_at text name ne) ∙ t),
      ),
  λ (ne, o).
      word_match-occurs_at text name ne ∙ (occurs_at_iff (to_lower text) (to_lower name) ne).1 o,
)
