-- ===== src/Datacenter/Inventory/Fetch/Complete.antt =====
-- datacenter/inventory/inventory.go: an inventory that fits is read whole.
use le_cli.Prelude.{
  ℕ, zero, suc, ◌+◌, ◌*◌, ◌≤◌, ◌<◌, min, Bytes, codes, Bool, true, false, not, ◌&&◌, length, take,
  drop, List, [], ◌∷◌, ◌++◌, Option, none, some, if◌then◌else◌, ltb, ◌==◌, ◌≡◌, refl, ap, sym, ◌∙◌,
  subst, arith, append-nil, append_assoc, length-append, length-take, take-append-drop, Bool-cases,
  inl, inr, All, ==_iff, is_empty, ◌≢◌,
}
use le_cli.Prelude.Int.{ℤ, pos, le→ltb_false}
use le_cli.Prelude.Maps.{elem, int_eq, Distinct, elem-append}
use le_cli.Datacenter.Inventory.{DeviceRecord, Filters, max_devices, valid_text, summarize}
use le_cli.Datacenter.Inventory.Fetch.{
  ok, err, Fetched, page, Client, client, count_of, same_total, add_rows, accept_page, fetch_pages,
  fetch, authorization, bad_response,
}
use le_cli.Datacenter.Inventory.Fetch.Rows.{ids, ids-append, IsUsable, IsGood}

-- A key behind others is not among them.
Distinct-before : (xs : List ℤ) (k : ℤ) (ys : List ℤ) → Distinct (xs ++ k ∷ ys) → elem k xs ≡ false
unfolding elem
Distinct-before [] k ys d = refl
Distinct-before (x ∷ xs) k ys (h, d) = ground (
  arith,
  Distinct-before xs k ys d,
  elem-append x xs (k ∷ ys),
  int_eq.same_iff x k,
  int_eq.same_iff k x,
)

All-split :
    (xs : List DeviceRecord) (y : DeviceRecord) (ys : List DeviceRecord)
    → All IsUsable (xs ++ y ∷ ys)
    → IsUsable y
All-split [] y ys (h, _) = h
All-split (x ∷ xs) y ys (_, h) = All-split xs y ys h

add_rows-IsGood :
    (E : Type 0) (records rows behind : List DeviceRecord)
    → IsGood (records ++ (rows ++ behind))
    → add_rows {E = E} records rows ≡ ok (records ++ rows)
unfolding add_rows
add_rows-IsGood E records [] behind g = ap ok (sym (append-nil records))
add_rows-IsGood E records (r ∷ rs) behind g =
    let (valid, positive) = All-split records r (rs ++ behind) g.usable in
    let new : elem r.id (ids records) ≡ false =
      Distinct-before (ids records) r.id (ids (rs ++ behind))
        (subst Distinct (ids-append records (r ∷ (rs ++ behind))) g.distinct) in
    rw (positive, new, valid)
      (add_rows-IsGood E (records ++ r ∷ []) rs behind
          (subst IsGood (sym (append_assoc records (r ∷ []) (rs ++ behind))) g)
        ∙ ap ok (append_assoc records (r ∷ []) rs))

accept_page-IsGood :
    (E : Type 0) (total : Option ℕ) (records rows behind : List DeviceRecord) (n : ℕ)
    → IsGood (records ++ (rows ++ behind))
    → same_total total n ≡ true
    → length rows ≤ 64
    → length records + (length rows + length behind) ≡ n
    → (length rows ≡ 0 → length behind ≡ 0)
    → accept_page {E = E} total records rows n ≡ ok (records ++ rows)
unfolding accept_page
accept_page-IsGood E total records rows behind n g same few size reached =
    let a : ltb 64 (length rows) ≡ false = le→ltb_false _ _ few in
    let b : ltb n (length records + length rows) ≡ false = le→ltb_false _ _ (omega arith) in
    let c : (length rows == 0 && not (length records == n)) ≡ false =
      ground (arith, reached, size) in
    rw (same, a, b, c) (add_rows-IsGood E records rows behind g)

drop-append_self : (xs ys : List DeviceRecord) → drop (length xs) (xs ++ ys) ≡ ys
drop-append_self [] ys = refl
drop-append_self (x ∷ xs) ys = drop-append_self xs ys

length-zero : (xs : List DeviceRecord) → length xs ≡ 0 → xs ≡ []
length-zero [] h = refl
length-zero (x ∷ xs) h = absurd (omega arith)

-- A server that holds a list of records, and answers with the part of it that is asked for.
abbrev pub Serves : {E : Type 0} → (ℕ → Fetched E) → List DeviceRecord → Type 0
Serves get all =
    (offset : ℕ)
    → get offset
      ≡ page (record { count = some (pos (length all)); results = take 64 (drop offset all) })

round :
    {E : Type 0} (rounds : ℕ) (get : ℕ → Fetched E) (total : Option ℕ)
    (records rows : List DeviceRecord) (n : ℕ)
    → get (length records) ≡ page (record { count = some (pos n); results = rows })
    → n ≤ max_devices
    → accept_page {E = E} total records rows n ≡ ok (records ++ rows)
    → fetch_pages (suc rounds) get (length records) total records ≡ (
        let next = fetch_pages rounds get (length records + 64) (some n) (records ++ rows) in
        if length (records ++ rows) == n
        then ok (records ++ rows)
        else if not (length rows == 64)
        then err bad_response
        else next)
unfolding fetch_pages count_of
round rounds get total records rows n e few accepted =
    let room : ltb max_devices n ≡ false = le→ltb_false _ _ few in rw (e, room, accepted) refl

same_refl : (n : ℕ) → same_total (some n) n ≡ true
unfolding same_total
same_refl n = (==_iff n n).1 refl

same_none : (n : ℕ) → same_total none n ≡ true
unfolding same_total
same_none n = refl

fetch_pages-Serves :
    {E : Type 0} (rounds : ℕ) (get : ℕ → Fetched E) (all : List DeviceRecord) (total : Option ℕ)
    (records rest : List DeviceRecord)
    → Serves get all
    → IsGood all
    → length all ≤ max_devices
    → all ≡ records ++ rest
    → same_total total (length all) ≡ true
    → length rest ≤ 64 * rounds
    → 0 < rounds
    → fetch_pages rounds get (length records) total records ≡ ok all
fetch_pages-Serves zero get all total records rest serves good few e same enough pos_rounds =
    elim pos_rounds [ ]
fetch_pages-Serves {E} (suc rounds) get all total records rest serves good few e same enough _ =
    let rows = take 64 rest in
    let behind = drop 64 rest in
    let n = length all in
    let split : rest ≡ rows ++ behind = sym (take-append-drop 64 rest) in
    let whole : all ≡ records ++ (rows ++ behind) = e ∙ ap (records ++◌) split in
    let size : length rest ≡ length rows + length behind =
      ap length split ∙ length-append rows behind in
    let total_size : n ≡ length records + length rest = ap length e ∙ length-append records rest in
    let row_size : length rows ≡ min 64 (length rest) = length-take 64 rest in
    let at : get (length records) ≡ page (record { count = some (pos n); results = rows }) =
      serves (length records)
      ∙ ap (λ x. page (record { count = some (pos n); results = take 64 x }))
          (ap (drop (length records)) e ∙ drop-append_self records rest) in
    let accepted =
      accept_page-IsGood E total records rows behind n (subst IsGood whole good) same
        (omega (arith, row_size)) (omega (arith, size, total_size))
        (λ h. omega (arith, row_size, size)) in
    round rounds get total records rows n at few accepted
    ∙ elim (Bool-cases (length (records ++ rows) == n)) [
      | inl done ↦
          let nothing : behind ≡ [] =
            length-zero behind
              (omega (arith, (==_iff _ _).0 done, length-append records rows, size, total_size)) in
          rw done (
            ap ok
              (ap (records ++◌) (sym (append-nil rows) ∙ ap (rows ++◌) (sym nothing)) ∙ sym whole))
      | inr open_end ↦
          let differs : length (records ++ rows) ≢ n =
            λ h. cc (sym open_end ∙ (==_iff (length (records ++ rows)) n).1 h) in
          let some_left : 0 < length behind =
            ground (arith, differs, length-append records rows, size, total_size) in
          let full : length rows ≡ 64 = omega (arith, row_size, size, some_left) in
          let full_test : (length rows == 64) ≡ true = (==_iff (length rows) 64).1 full in
          rw (open_end, full_test)
            (ap (λ k. fetch_pages rounds get k (some n) (records ++ rows))
                (omega (arith, length-append records rows, full))
              ∙ fetch_pages-Serves rounds get all (some n) (records ++ rows) behind serves good few
                  (whole ∙ sym (append_assoc records rows behind)) (same_refl n)
                  (omega (arith, size, full, enough))
                  (omega (arith, size, full, enough, some_left)))
    ]

-- If the client can be made and its server holds at most 512 valid records with distinct, positive
-- ids, and answers each request with the part of them that is asked for, then `Fetch` returns the
-- summary of them all, for a token that is not empty and valid filters.
pub fetch-Serves :
    {E : Type 0} (new : Bytes → Bytes → Client E) (url token : Bytes) (f : Filters) (details : Bool)
    (now : ℤ) (get : ℕ → Fetched E) (all : List DeviceRecord)
    → is_empty token ≡ false
    → (valid_text f.site && valid_text f.rack && valid_text f.host) ≡ true
    → new url (authorization token) ≡ client get
    → Serves get all
    → IsGood all
    → length all ≤ max_devices
    → fetch new url token f details now ≡ ok (summarize all f details (codes "live") now)
unfolding fetch
fetch-Serves new url token f details now get all present valid made serves good few =
    let read =
      fetch_pages-Serves 8 get all none [] all serves good few refl (same_none (length all)) few
        (omega arith) in
    rw (present, valid, made, read) refl
