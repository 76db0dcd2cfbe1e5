-- ===== src/Label/Tests.antt =====
-- internal/label/label.go on a few rows.
use le_cli.Prelude.{Bytes, str_eq, codes, [], ◌∷◌, Bool, ◌≡◌, refl, some, length, ◌+◌, arith}
use le_cli.Prelude.Utf8.{lit}
use le_cli.Label.{Item, disambiguate, strip}
use le_cli.Label.Laws.{AreFilled, IsBare, strip-IsBare}

-- Equality, for names in one case
abbrev same_text : Bytes → Bytes → Bool
same_text = str_eq

editor : Bytes → Item
editor helper = record { identity = codes "Antigravity"; helper = helper }

two_helpers :
    disambiguate same_text
      (editor (codes "language_server_macos_arm") ∷ editor (codes "indexer") ∷ [])
    ≡ lit "Antigravity · language_server" ∷ lit "Antigravity · indexer" ∷ []
unfolding disambiguate editor lit
two_helpers = refl

two : AreFilled (codes "_arm" ∷ codes "_macos" ∷ [])
two = (omega arith, (omega arith, tt))

strip-IsBare_example :
    (r : Bytes) × ((strip
          (length (codes "server_macos_arm") + 1)
          (codes "_arm" ∷ codes "_macos" ∷ [])
          (codes "server_macos_arm")
        ≡ some r)
      × IsBare (codes "_arm" ∷ codes "_macos" ∷ []) r)
strip-IsBare_example =
    strip-IsBare (codes "_arm" ∷ codes "_macos" ∷ []) (codes "server_macos_arm") two
