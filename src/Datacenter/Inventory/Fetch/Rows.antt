-- ===== src/Datacenter/Inventory/Fetch/Rows.antt =====
-- datacenter/inventory/inventory.go: what a page adds to the records.
use le_cli.Prelude.{
  ℕ, ◌+◌, ◌≤◌, Bool, true, false, not, ◌&&◌, ◌||◌, length, List, [], ◌∷◌, ◌++◌, map, Option, none,
  some, if◌then◌else◌, ltb, ◌==◌, ◌≡◌, refl, ap, sym, ◌∙◌, subst, arith, append-nil, append_assoc,
  All, All-append,
}
use le_cli.Prelude.Int.{ℤ, pos, negsuc, leb_ℤ, ltb-false}
use le_cli.Prelude.Maps.{elem, int_eq, Distinct, Distinct-concat}
use le_cli.Datacenter.Inventory.{DeviceRecord, max_devices, valid_record}
use le_cli.Datacenter.Inventory.Fetch.{
  Result, ok, err, bind, Page, Fetched, page, count_of, same_total, add_rows, accept_page,
}

abbrev pub ids : List DeviceRecord → List ℤ
ids rs = map (λ (r : DeviceRecord). r.id) rs

abbrev pub IsUsable : DeviceRecord → Type 0
IsUsable r = (valid_record r ≡ true) × (leb_ℤ r.id (pos 0) ≡ false)

-- Valid records with positive ids, no two of them with the same one.
pub record IsGood (rs : List DeviceRecord) : Type 0 where
  pub usable : All IsUsable rs
  pub distinct : Distinct (ids rs)

-- The records that the pages from an offset on hold, where each page reports `n` records in all and
-- each but the last one is full.
pub data Served {E : Type 0} (get : ℕ → Fetched E) (n : ℕ) : ℕ → List DeviceRecord → Type 0 where
  last :
      (offset : ℕ) (p : Page) (rs : List DeviceRecord)
      → get offset ≡ page p
      → p.count ≡ some (pos n)
      → rs ≡ p.results
      → Served get n offset rs
  more :
      (offset : ℕ) (p : Page) (rest rs : List DeviceRecord)
      → get offset ≡ page p
      → p.count ≡ some (pos n)
      → length p.results ≡ 64
      → Served get n (offset + 64) rest
      → rs ≡ p.results ++ rest
      → Served get n offset rs

abbrev pub Ensures : {E A : Type 0} → (A → Type 0) → Result E A → Type 0
Ensures P (ok a) = P a
Ensures P (err e) = Unit

pub Ensures-bind :
    {E A B : Type 0} (P : A → Type 0) (Q : B → Type 0) (m : Result E A) (f : A → Result E B)
    → Ensures P m
    → ((a : A) → P a → Ensures Q (f a))
    → Ensures Q (bind m f)
Ensures-bind P Q (ok a) f h k = k a h
Ensures-bind P Q (err e) f h k = tt

pub Ensures-imp :
    {E A : Type 0} (P Q : A → Type 0) (m : Result E A)
    → Ensures P m
    → ((a : A) → P a → Q a)
    → Ensures Q m
Ensures-imp P Q (ok a) h k = k a h
Ensures-imp P Q (err e) h k = tt

pub Ensures-if :
    {E A : Type 0} (Q : A → Type 0) (b : Bool) (x y : Result E A)
    → (b ≡ true → Ensures Q x)
    → (b ≡ false → Ensures Q y)
    → Ensures Q (if b then x else y)
Ensures-if Q true x y hx hy = hx refl
Ensures-if Q false x y hx hy = hy refl

pub ids-append : (xs ys : List DeviceRecord) → ids (xs ++ ys) ≡ ids xs ++ ids ys
ids-append [] ys = refl
ids-append (x ∷ xs) ys = ap (◌∷◌ x.id) (ids-append xs ys)

row_passes : (a b c : Bool) → (a || b || not c) ≡ false → (a ≡ false) × (b ≡ false) × (c ≡ true)
row_passes a b c h = ground (arith, h)

IsGood-concat :
    (rs : List DeviceRecord) (r : DeviceRecord)
    → IsGood rs
    → IsUsable r
    → elem r.id (ids rs) ≡ false
    → IsGood (rs ++ r ∷ [])
IsGood-concat rs r g u new = record {
  usable = All-append IsUsable rs (r ∷ []) g.usable (u, tt);
  distinct =
      subst Distinct (sym (ids-append rs (r ∷ []))) (Distinct-concat (ids rs) r.id g.distinct new);
}

pub add_rows-Ensures :
    (E : Type 0) (records rows : List DeviceRecord)
    → IsGood records
    → Ensures {E = E} (λ out. (out ≡ records ++ rows) × IsGood out) (add_rows records rows)
unfolding add_rows
add_rows-Ensures E records [] g = (sym (append-nil records), g)
add_rows-Ensures E records (r ∷ rs) g =
    Ensures-if _ (leb_ℤ r.id (pos 0) || elem r.id (ids records) || not (valid_record r)) _ _
      (λ bad. tt)
      (λ good.
        let (positive, new, valid) =
          row_passes (leb_ℤ r.id (pos 0)) (elem r.id (ids records)) (valid_record r) good in
        Ensures-imp _ _ (add_rows (records ++ r ∷ []) rs)
          (add_rows-Ensures E (records ++ r ∷ []) rs
            (IsGood-concat records r g (valid, positive) new))
          (λ out (e, h). (e ∙ append_assoc records (r ∷ []) rs, h)))

pub accept_page-Ensures :
    (E : Type 0) (total : Option ℕ) (records results : List DeviceRecord) (n : ℕ)
    → IsGood records
    → Ensures {E = E}
        (λ out.
          (out ≡ records ++ results)
          × IsGood out
          × (same_total total n ≡ true)
          × (length results ≤ 64))
        (accept_page total records results n)
unfolding accept_page
accept_page-Ensures E total records results n g =
    let a = not (same_total total n) in
    let b = ltb 64 (length results) in
    let c = ltb n (length records + length results) in
    Ensures-if _ (a || b || c) _ _ (λ bad. tt)
      (λ good.
        Ensures-if _ (length results == 0 && not (length records == n)) _ _ (λ bad. tt)
          (λ _.
            Ensures-imp _ _ (add_rows records results) (add_rows-Ensures E records results g)
              (λ out (e, h). (e, h, ground (arith, good), ground (arith, good)))))

pub count_of-Ensures :
    (E : Type 0) (count : Option ℤ)
    → Ensures {E = E} (λ n. (count ≡ some (pos n)) × (n ≤ max_devices)) (count_of count)
unfolding count_of
count_of-Ensures E none = tt
count_of-Ensures E (some (negsuc n)) = tt
count_of-Ensures E (some (pos n)) =
    Ensures-if _ (ltb max_devices n) _ _ (λ e. tt) (λ e. (refl, ltb-false _ _ e))
