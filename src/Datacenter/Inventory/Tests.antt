-- ===== src/Datacenter/Inventory/Tests.antt =====
-- datacenter/inventory/inventory.go on small inventories: its own demo devices.
use le_cli.Prelude.{
  ℕ, Bytes, codes, true, false, ◌&&◌, length, [], none, some, ◌≡◌, refl, arith, take, drop,
  is_empty,
}
use le_cli.Prelude.Int.{pos, eqb_ℤ}
use le_cli.Prelude.Maps.{elem}
use le_cli.Datacenter.Inventory.{Filters, summarize, valid_text, valid_record}
use le_cli.Datacenter.Inventory.Demo.{demo_devices, demo}
use le_cli.Datacenter.Inventory.Fetch.{Client, client, Fetched, page, fetch, ok, authorization}
use le_cli.Datacenter.Inventory.Fetch.Complete.{Serves, fetch-Serves}
use le_cli.Datacenter.Inventory.Fetch.Rows.{IsGood}
use le_cli.Datacenter.Inventory.Fetch.Sound.{fetch-IsCohort, IsCohort}
use le_cli.Datacenter.Inventory.Laws.{IsSummary, summarize-IsSummary}

abbrev no_filter : Filters
no_filter = record { site = []; rack = []; host = [] }

abbrev serve : ℕ → Fetched ℕ
serve offset = page (record {
  count = some (pos (length demo_devices));
  results = take 64 (drop offset demo_devices);
})

abbrev netbox : Bytes → Bytes → Client ℕ
netbox url header = client serve

abbrev netbox_url : Bytes
netbox_url = codes "https://netbox"

abbrev netbox_token : Bytes
netbox_token = codes "nbt_1"

demo_devices-IsGood : IsGood demo_devices
unfolding valid_record elem eqb_ℤ
demo_devices-IsGood = record {
  usable = ((refl, refl), ((refl, refl), ((refl, refl), tt)));
  distinct = (refl, (refl, (refl, tt)));
}

serve-Serves : Serves serve demo_devices
serve-Serves offset = refl

filters_pass :
    (valid_text no_filter.site && valid_text no_filter.rack && valid_text no_filter.host) ≡ true
unfolding valid_text
filters_pass = refl

fetch-Serves_example :
    fetch netbox netbox_url netbox_token no_filter true (pos 0)
    ≡ ok (summarize demo_devices no_filter true (codes "live") (pos 0))
fetch-Serves_example =
    fetch-Serves netbox netbox_url netbox_token no_filter true (pos 0) serve demo_devices refl
      filters_pass refl serve-Serves demo_devices-IsGood (omega arith)

fetched_demo :
    fetch netbox netbox_url netbox_token no_filter true (pos 0)
    ≡ ok (summarize demo_devices no_filter true (codes "live") (pos 0))
unfolding fetch eqb_ℤ
fetched_demo = refl

fetch-IsCohort_example :
    (is_empty netbox_token ≡ false)
    × IsCohort
        (netbox netbox_url (authorization netbox_token))
        no_filter
        true
        (pos 0)
        (summarize demo_devices no_filter true (codes "live") (pos 0))
fetch-IsCohort_example =
    fetch-IsCohort netbox netbox_url netbox_token no_filter true (pos 0)
      (summarize demo_devices no_filter true (codes "live") (pos 0)) fetched_demo

summarize-IsSummary_example :
    IsSummary demo_devices no_filter true
      (summarize demo_devices no_filter true (codes "live") (pos 0))
summarize-IsSummary_example = summarize-IsSummary demo_devices no_filter true (codes "live") (pos 0)

demo_hidden : demo (record { site = codes "\n"; rack = []; host = [] }) false (pos 0) ≡ none
unfolding demo
demo_hidden = refl
