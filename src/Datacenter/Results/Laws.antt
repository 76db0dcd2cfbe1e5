-- ===== src/Datacenter/Results/Laws.antt =====
-- datacenter/database/query.go and datacenter/database/redis.go: every result is within its limits.
use le_cli.Prelude.{
  ℕ, suc, ◌+◌, ◌≤◌, Bytes, Bool, true, false, not, ◌||◌, length, List, [], ◌∷◌, ◌++◌, Option, none,
  some, if◌then◌else◌, ltb, leb, ◌==◌, ◌≡◌, refl, ap, ◌∙◌, subst, arith, Bool-cases, Option-cases,
  inl, inr, length-append, All, All-append, ==_iff,
}
use le_cli.Prelude.Int.{ltb-false, leb-false}
use le_cli.Datacenter.Wire.{max_result, max_rows}
use le_cli.Datacenter.Results.{
  Result, ok, err, over_limit, ◌>>=◌, Value, Library, Builder, builder, started, readable,
  readable_row, as_text, add, add_all, columns_of, rows_of, elements, redis_result,
}

abbrev pub Ensures : {A : Type 0} → (A → Type 0) → Result A → Type 0
Ensures P (ok a) = P a
Ensures P (err e) = Unit

pub Ensures-if :
    {A : Type 0} (Q : A → Type 0) (b : Bool) (x y : Result A)
    → (b ≡ true → Ensures Q x)
    → (b ≡ false → Ensures Q y)
    → Ensures Q (if b then x else y)
Ensures-if Q true x y hx hy = hx refl
Ensures-if Q false x y hx hy = hy refl

Ensures-bind :
    {A B : Type 0} (P : A → Type 0) (Q : B → Type 0) (m : Result A) (f : A → Result B)
    → Ensures P m
    → ((a : A) → P a → Ensures Q (f a))
    → Ensures Q (m >>= f)
Ensures-bind P Q (ok a) f h k = k a h
Ensures-bind P Q (err e) f h k = tt

holds_of_negation : (b : Bool) → not b ≡ false → b ≡ true
holds_of_negation b h = ground arith

-- The bytes that the rows add to the encoded result.
abbrev pub rows_length : Library → List (List Value) → ℕ
rows_length lib [] = 0
rows_length lib (row ∷ rows) =
    (elim (lib.row_length row) [ none ↦ 0 | some n ↦ n + 1 ]) + rows_length lib rows

-- A row with a value for each column, and no text that is not valid UTF-8.
abbrev pub IsRow : ℕ → List Value → Type 0
IsRow n row = (length row ≡ n) × All (λ v. readable v ≡ true) row

pub record IsWithin (lib : Library) (columns : List Bytes) (b : Builder) : Type 0 where
  pub same : b.columns ≡ columns
  pub few : length b.rows ≤ max_rows
  pub small : b.size ≤ max_result
  pub start : ℕ
  pub measured : lib.empty_length columns ≡ some start
  pub counted : b.size ≡ start + rows_length lib b.rows
  pub even : All (IsRow (length columns)) b.rows

started-IsWithin :
    (lib : Library) (columns : List Bytes) (o : Option ℕ)
    → lib.empty_length columns ≡ o
    → Ensures (IsWithin lib columns) (started columns o)
unfolding started
started-IsWithin lib columns none e = tt
started-IsWithin lib columns (some n) e =
    Ensures-if _ (ltb 256 (length columns) || ltb max_result n) _ _ (λ big. tt)
      (λ fits. record {
        same = refl;
        few = omega arith;
        small = ground (arith, fits);
        start = n;
        measured = e;
        counted = omega arith;
        even = tt;
      })

builder-IsWithin :
    (lib : Library) (columns : List Bytes) → Ensures (IsWithin lib columns) (builder lib columns)
unfolding builder
builder-IsWithin lib columns = started-IsWithin lib columns (lib.empty_length columns) refl

readable_row_lem :
    (vs out : List Value)
    → readable_row vs ≡ some out
    → (length out ≡ length vs) × All (λ v. readable v ≡ true) out
unfolding readable_row
readable_row_lem [] out h = let e : out ≡ [] = cc in rw e (refl, tt)
readable_row_lem (v ∷ vs) out h = elim (Bool-cases (readable (as_text v))) [
  | inr bad ↦ ground (arith, h, bad)
  | inl good ↦ elim (Option-cases (readable_row vs)) [
    | inl e ↦ ground (arith, h, good, e)
    | inr (rest, e) ↦
        let whole : out ≡ as_text v ∷ rest = ground (arith, h, good, e) in
        let (n, all) = readable_row_lem vs rest e in rw whole (ap suc n, (good, all))
  ]
]

rows_length-append :
    (lib : Library) (rows : List (List Value)) (row : List Value) (n : ℕ)
    → lib.row_length row ≡ some n
    → rows_length lib (rows ++ row ∷ []) ≡ rows_length lib rows + (n + 1)
rows_length-append lib [] row n h = ground (arith, h)
rows_length-append lib (r ∷ rows) row n h = omega (arith, rows_length-append lib rows row n h)

-- One row more.
row_added :
    (lib : Library) (columns : List Bytes) (b : Builder) (row out : List Value) (n : ℕ)
    → IsWithin lib columns b
    → leb max_rows (length b.rows) ≡ false
    → (length row == length b.columns) ≡ true
    → readable_row row ≡ some out
    → lib.row_length out ≡ some n
    → ltb max_result (b.size + (n + 1)) ≡ false
    → IsWithin lib columns (record b { rows = b.rows ++ out ∷ []; size = b.size + (n + 1) })
row_added lib columns b row out n h room width read size fits =
    let (wide, good) = readable_row_lem row out read in
    let columns_length : length b.columns ≡ length columns = ap length h.same in
    let row_width : length row ≡ length b.columns =
      (==_iff (length row) (length b.columns)).0 width in
    record {
      same = h.same;
      few = omega (arith, leb-false _ _ room, length-append b.rows (out ∷ []));
      small = ltb-false _ _ fits;
      start = h.start;
      measured = h.measured;
      counted = omega (arith, h.counted, rows_length-append lib b.rows out n size);
      even =
          All-append (IsRow (length columns)) b.rows (out ∷ []) h.even
            ((wide ∙ row_width ∙ columns_length, good), tt);
    }

add-IsWithin :
    (lib : Library) (columns : List Bytes) (b : Builder) (row : List Value)
    → IsWithin lib columns b
    → Ensures (IsWithin lib columns) (add lib b row)
unfolding add
add-IsWithin lib columns b row h =
    Ensures-if _ (leb max_rows (length b.rows)) _ _ (λ full. tt)
      (λ room.
        Ensures-if _ (not (length row == length b.columns)) _ _ (λ uneven. tt)
          (λ width. elim (Option-cases (readable_row row)) [
            | inl e ↦ rw e tt
            | inr (out, e) ↦ elim (Option-cases (lib.row_length out)) [
              | inl l ↦ rw (e, l) tt
              | inr (n, l) ↦
                  rw (e, l)
                    (Ensures-if (IsWithin lib columns) (ltb max_result (b.size + (n + 1)))
                      (err over_limit)
                      (ok (record b { rows = b.rows ++ out ∷ []; size = b.size + (n + 1) }))
                      (λ big. tt)
                      (λ fits.
                        row_added lib columns b row out n h room (holds_of_negation _ width) e l
                          fits))
            ]
          ]))

add_all-IsWithin :
    (lib : Library) (columns : List Bytes) (b : Builder) (rows : List (List Value))
    → IsWithin lib columns b
    → Ensures (IsWithin lib columns) (add_all lib b rows)
unfolding add_all
add_all-IsWithin lib columns b [] h = h
add_all-IsWithin lib columns b (row ∷ rows) h =
    Ensures-bind _ _ (add lib b row) _ (add-IsWithin lib columns b row h)
      (λ next k. add_all-IsWithin lib columns next rows k)

pub Ensures-ok : {A : Type 0} (P : A → Type 0) (m : Result A) (a : A) → Ensures P m → m ≡ ok a → P a
Ensures-ok P m a h e = let whole = subst (Ensures P) e h in whole

Ensures-any : {A : Type 0} (m : Result A) → Ensures (λ a. Unit {0}) m
Ensures-any (ok a) = tt
Ensures-any (err e) = tt

-- Whatever a Redis server answers to a command: a result has the columns of the command and at most
-- 1000 rows, each with a value for each column and no text that is not valid UTF-8, and what is
-- counted as the length of the encoded result, row by row from that of the empty one on, is at most
-- 1 MiB.
pub redis_result-IsWithin :
    (lib : Library) (command : Bytes) (words : List Bytes) (value : Value) (b : Builder)
    → redis_result lib command words value ≡ ok b
    → IsWithin lib (columns_of command) b
unfolding redis_result
redis_result-IsWithin lib command words value b =
    Ensures-ok (IsWithin lib (columns_of command)) (redis_result lib command words value) b (
      Ensures-bind _ _ (builder lib (columns_of command)) _
        (builder-IsWithin lib (columns_of command))
        (λ start h.
          Ensures-bind _ _ (rows_of command words value (elements value)) _
            (Ensures-any (rows_of command words value (elements value)))
            (λ rows _. add_all-IsWithin lib (columns_of command) start rows h)))
