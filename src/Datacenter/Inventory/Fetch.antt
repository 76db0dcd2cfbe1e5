-- ===== src/Datacenter/Inventory/Fetch.antt =====
-- datacenter/inventory/inventory.go: the paged read. The client of internal/readapi is a parameter: it
-- is made from the address and the header, or gives an error; the page at an offset, or an error, is
-- what `GetJSON` gives.
pub mod Rows
pub mod Sound
pub mod Complete
use le_cli.Prelude.{
  ℕ, zero, suc, ◌+◌, Bytes, codes, Bool, true, false, not, ◌&&◌, ◌||◌, length, List, [], ◌∷◌, ◌++◌,
  map, Option, none, some, if◌then◌else◌, ltb, ◌==◌, is_empty, has_prefix,
}
use le_cli.Prelude.Int.{ℤ, pos, negsuc, leb_ℤ}
use le_cli.Prelude.Maps.{elem, int_eq}
use le_cli.Datacenter.Inventory.{
  DeviceRecord, Filters, Snapshot, max_devices, valid_text, valid_record, summarize,
}

-- `readapi.ErrConfig`, `ErrLimit` and `ErrResponse`, and the errors of the client.
pub data FetchError (E : Type 0) : Type 0 where
  bad_config over_limit bad_response : FetchError E
  client_error : E → FetchError E

pub data Result (E A : Type 0) : Type 0 where
  ok : A → Result E A
  err : FetchError E → Result E A

abbrev pub bind : {E A B : Type 0} → Result E A → (A → Result E B) → Result E B
bind (ok a) f = f a
bind (err e) f = err e

pub record Page : Type 0 where
  pub count : Option ℤ
  pub results : List DeviceRecord

pub data Fetched (E : Type 0) : Type 0 where
  page : Page → Fetched E
  no_page : E → Fetched E

pub data Client (E : Type 0) : Type 0 where
  client : (ℕ → Fetched E) → Client E
  no_client : E → Client E

-- `response.Count`
unfoldable pub count_of : {E : Type 0} → Option ℤ → Result E ℕ
count_of none = err bad_response
count_of (some (negsuc n)) = err bad_response
count_of (some (pos n)) = if ltb max_devices n then err over_limit else ok n

-- `total`, with `none` for -1, against the count of this page.
unfoldable pub same_total : Option ℕ → ℕ → Bool
same_total none n = true
same_total (some total) n = total == n

-- The loop over the rows of a page; `seen` holds the ids of the records.
unfoldable pub add_rows :
    {E : Type 0} → List DeviceRecord → List DeviceRecord → Result E (List DeviceRecord)
unfolding elem valid_record
add_rows records [] = ok records
add_rows records (r ∷ rs) =
    let next = add_rows (records ++ r ∷ []) rs in
    if leb_ℤ r.id (pos 0)
      || elem r.id (map (λ (x : DeviceRecord). x.id) records)
      || not (valid_record r)
    then err bad_response
    else next

-- The checks of a page whose count is `n`, and its rows.
unfoldable pub accept_page :
    {E : Type 0}
    → Option ℕ
    → List DeviceRecord
    → List DeviceRecord
    → ℕ
    → Result E (List DeviceRecord)
unfolding same_total add_rows
accept_page total records results n =
    if not (same_total total n)
      || ltb 64 (length results)
      || ltb n (length records + length results)
    then err bad_response
    else if length results == 0 && not (length records == n)
    then err bad_response
    else add_rows records results

-- One round of the loop; `next` is the round after it.
unfoldable pub fetched :
    {E : Type 0}
    → (Option ℕ → List DeviceRecord → Result E (List DeviceRecord))
    → Option ℕ
    → List DeviceRecord
    → Fetched E
    → Result E (List DeviceRecord)
unfolding count_of accept_page
fetched next total records (no_page e) = err (client_error e)
fetched next total records (page p) = bind (count_of p.count) λ n.
    bind (accept_page total records p.results n) λ more.
      if length more == n
      then ok more
      else if not (length p.results == 64)
      then err bad_response
      else next (some n) more

-- The loop over the offsets, with the rounds that are left of it.
unfoldable pub fetch_pages :
    {E : Type 0}
    → ℕ
    → (ℕ → Fetched E)
    → ℕ
    → Option ℕ
    → List DeviceRecord
    → Result E (List DeviceRecord)
unfolding fetched
fetch_pages zero get offset total records = err over_limit
fetch_pages (suc rounds) get offset total records =
    fetched (fetch_pages rounds get (offset + 64)) total records (get offset)

unfoldable pub authorization : Bytes → Bytes
unfolding has_prefix
authorization token =
    (if has_prefix token (codes "nbt_") then codes "Bearer " else codes "Token ") ++ token

-- `Fetch`; the offsets below `max_devices` are eight.
unfoldable pub fetch :
    {E : Type 0}
    → (Bytes → Bytes → Client E)
    → Bytes
    → Bytes
    → Filters
    → Bool
    → ℤ
    → Result E Snapshot
unfolding valid_text authorization fetch_pages summarize
fetch new url token f details now =
    if is_empty token
    then err bad_config
    else if not (valid_text f.site && valid_text f.rack && valid_text f.host)
    then err bad_config
    else (elim (new url (authorization token)) [
      | no_client e ↦ err (client_error e)
      | client get ↦
          bind (fetch_pages 8 get 0 none [])
            λ records. ok (summarize records f details (codes "live") now)
    ])
