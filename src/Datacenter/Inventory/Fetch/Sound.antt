-- ===== src/Datacenter/Inventory/Fetch/Sound.antt =====
-- datacenter/inventory/inventory.go: the records that the paged read collects.
use le_cli.Prelude.{
  ℕ, zero, suc, ◌+◌, ◌≤◌, Bytes, codes, Bool, true, false, not, ◌&&◌, length, List, [], ◌++◌,
  Option, none, some, if◌then◌else◌, ◌==◌, ◌≡◌, refl, sym, ◌∙◌, subst, arith, append_assoc, ==_iff,
  is_empty,
}
use le_cli.Prelude.Int.{ℤ, pos}
use le_cli.Prelude.Maps.{int_eq}
use le_cli.Datacenter.Inventory.{
  DeviceRecord, Filters, Snapshot, max_devices, valid_text, summarize,
}
use le_cli.Datacenter.Inventory.Fetch.{
  Result, ok, err, bind, Page, Fetched, page, no_page, Client, client, no_client, count_of,
  same_total, accept_page, fetched, fetch_pages, fetch, authorization, bad_response, client_error,
}
use le_cli.Datacenter.Inventory.Fetch.Rows.{
  IsGood, Served, last, more, Ensures, Ensures-bind, Ensures-imp, Ensures-if, accept_page-Ensures,
  count_of-Ensures,
}

-- What the loop adds to the records that it had.
abbrev Adds :
    {E : Type 0} → (ℕ → Fetched E) → ℕ → Option ℕ → List DeviceRecord → List DeviceRecord → Type 0
Adds get offset total records out =
    (n : ℕ) × (rest : List DeviceRecord) × (n ≤ max_devices)
    × (length out ≡ n)
    × (same_total total n ≡ true)
    × IsGood out
    × (out ≡ records ++ rest)
    × Served get n offset rest

Adds-more :
    {E : Type 0} (get : ℕ → Fetched E) (offset : ℕ) (total : Option ℕ) (p : Page) (n : ℕ)
    (records out : List DeviceRecord)
    → get offset ≡ page p
    → p.count ≡ some (pos n)
    → length p.results ≡ 64
    → same_total total n ≡ true
    → Adds get (offset + 64) (some n) (records ++ p.results) out
    → Adds get offset total records out
unfolding same_total
Adds-more get offset total p n records out e c full same
      (m, rest, few, size, agree, good, joined, served) =
    let eq : n ≡ m = (==_iff n m).0 agree in
    (
      n,
      p.results ++ rest,
      omega (arith, eq, few),
      size ∙ sym eq,
      same,
      good,
      joined ∙ append_assoc records p.results rest,
      more offset p rest (p.results ++ rest) e c full
          (subst (λ k. Served get k (offset + 64) rest) (sym eq) served) refl,
    )

page_at-Ensures :
    {E : Type 0} (get : ℕ → Fetched E) (offset : ℕ) (total : Option ℕ) (records : List DeviceRecord)
    (p : Page) (n : ℕ) (out : List DeviceRecord) (next : Result E (List DeviceRecord))
    → get offset ≡ page p
    → p.count ≡ some (pos n)
    → n ≤ max_devices
    → out ≡ records ++ p.results
    → IsGood out
    → same_total total n ≡ true
    → Ensures (Adds get (offset + 64) (some n) out) next
    → Ensures (Adds get offset total records) (
        if length out == n
        then ok out
        else if not (length p.results == 64)
        then err bad_response
        else next)
page_at-Ensures get offset total records p n out next e c few joined good same rest =
    Ensures-if _ (length out == n) _ _
      (λ all. (
        n,
        p.results,
        few,
        (==_iff (length out) n).0 all,
        same,
        good,
        joined,
        last offset p p.results e c refl,
      ))
      (λ _.
        Ensures-if _ (not (length p.results == 64)) _ _ (λ short. tt)
          (λ full. Ensures-imp _ _ next rest (λ whole h.
            Adds-more get offset total p n records whole e c (ground (arith, full)) same
              (subst (λ x. Adds get (offset + 64) (some n) x whole) joined h))))

fetched-Ensures :
    {E : Type 0} (get : ℕ → Fetched E) (offset : ℕ) (total : Option ℕ) (records : List DeviceRecord)
    (next : Option ℕ → List DeviceRecord → Result E (List DeviceRecord))
    → IsGood records
    → ((n : ℕ) (out : List DeviceRecord)
        → IsGood out
        → Ensures (Adds get (offset + 64) (some n) out) (next (some n) out))
    → (x : Fetched E) → get offset ≡ x
    → Ensures (Adds get offset total records) (fetched next total records x)
unfolding fetched
fetched-Ensures get offset total records next g ih (no_page e) at = tt
fetched-Ensures {E} get offset total records next g ih (page p) at =
    Ensures-bind _ _ (count_of p.count) _ (count_of-Ensures E p.count) (λ n (c, few).
      Ensures-bind _ _ (accept_page total records p.results n) _
        (accept_page-Ensures E total records p.results n g)
        (λ out (joined, good, same, _).
          page_at-Ensures get offset total records p n out _ at c few joined good same
            (ih n out good)))

fetch_pages-Ensures :
    {E : Type 0} (rounds : ℕ) (get : ℕ → Fetched E) (offset : ℕ) (total : Option ℕ)
    (records : List DeviceRecord)
    → IsGood records
    → Ensures (Adds get offset total records) (fetch_pages rounds get offset total records)
unfolding fetch_pages
fetch_pages-Ensures zero get offset total records g = tt
fetch_pages-Ensures (suc rounds) get offset total records g =
    fetched-Ensures get offset total records (fetch_pages rounds get (offset + 64)) g
      (λ n out good. fetch_pages-Ensures rounds get (offset + 64) (some n) out good) (get offset)
      refl

Ensures-ok : {E A : Type 0} (P : A → Type 0) (m : Result E A) (a : A) → Ensures P m → m ≡ ok a → P a
Ensures-ok P m a h e = let whole = subst (Ensures P) e h in whole

-- A cohort of devices as the server holds it, and its summary.
abbrev pub IsCohort : {E : Type 0} → Client E → Filters → Bool → ℤ → Snapshot → Type 0
IsCohort {E} c f details now snapshot =
    (get : ℕ → Fetched E) × (rs : List DeviceRecord) × (c ≡ client get)
    × IsGood rs
    × (length rs ≤ max_devices)
    × Served get (length rs) 0 rs
    × (snapshot ≡ summarize rs f details (codes "live") now)

client-Ensures :
    {E : Type 0} (c : Client E) (f : Filters) (details : Bool) (now : ℤ)
    → Ensures (IsCohort c f details now) (elim c [
      | no_client e ↦ err (client_error e)
      | client get ↦
          bind
            (fetch_pages 8 get 0 none [])
            λ records. ok (summarize records f details (codes "live") now)
    ])
client-Ensures (no_client e) f details now = tt
client-Ensures (client get) f details now =
    Ensures-bind _ _ (fetch_pages 8 get 0 none []) _
      (fetch_pages-Ensures 8 get 0 none [] (record { usable = tt; distinct = tt }))
      (λ out (n, rest, few, size, same, good, joined, served). (
        get,
        out,
        refl,
        good,
        omega (arith, size, few),
        subst (λ k. Served get k 0 out) (sym size) (subst (Served get n 0) (sym joined) served),
        refl,
      ))

-- Whatever the server answers: a snapshot that is returned is the summary of at most 512 valid
-- records with distinct, positive ids, which are all that its pages held from offset 0 on, page by
-- page, where each page reported just their number and each but the last one was full; and the
-- token is not empty.
pub fetch-IsCohort :
    {E : Type 0} (new : Bytes → Bytes → Client E) (url token : Bytes) (f : Filters) (details : Bool)
    (now : ℤ) (snapshot : Snapshot)
    → fetch new url token f details now ≡ ok snapshot
    → (is_empty token ≡ false) × IsCohort (new url (authorization token)) f details now snapshot
unfolding fetch
fetch-IsCohort new url token f details now snapshot =
    Ensures-ok
      (λ s. (is_empty token ≡ false) × IsCohort (new url (authorization token)) f details now s)
      (fetch new url token f details now) snapshot
      (Ensures-if _ (is_empty token) _ _ (λ e. tt)
        (λ present.
          Ensures-if _ (not (valid_text f.site && valid_text f.rack && valid_text f.host)) _ _
            (λ bad. tt)
            (λ _.
              Ensures-imp (IsCohort (new url (authorization token)) f details now)
                (λ s.
                  (is_empty token ≡ false)
                  × IsCohort (new url (authorization token)) f details now s)
                _ (client-Ensures (new url (authorization token)) f details now)
                (λ s h. (present, h)))))
