-- ===== src/Prelude/Letters/Laws.antt =====
-- The lower case of ASCII texts.
use le_cli.Prelude.Lists.{length}
use le_cli.Prelude.Tests.{lt→ltb}
use le_cli.Prelude.Text.{Bytes}
use le_cli.Prelude.Utf8.{IsAscii}
use le_cli.Prelude.Letters.{lower1, lower_head, to_lower_from, to_lower}
use Prim.Native.Nat.{ℕ, suc, ◌<◌}
use mathlib.Core.Path.{◌≡◌, refl, ap, ◌∙◌}
use mathlib.Core.List.{[], ◌∷◌}
use native.Mathlib.Omega.{arith}

lower_head_ascii : (c : ℕ) (s : Bytes) → c < 0x80 → lower_head c s ≡ (lower1 c ∷ [], 1)
unfolding lower_head
lower_head_ascii c s h = rw (lt→ltb c 0x80 h) refl

to_lower_from_ascii :
    (c : ℕ) (s : Bytes) → c < 0x80 → to_lower_from 0 (c ∷ s) ≡ lower1 c ∷ to_lower_from 0 s
unfolding to_lower_from
to_lower_from_ascii c s h = rw (lower_head_ascii c s h) refl

lower1_ascii : (c : ℕ) → c < 0x80 → lower1 c < 0x80
unfolding lower1
lower1_ascii c h = ground arith

length-to_lower_from : (s : Bytes) → IsAscii s → length (to_lower_from 0 s) ≡ length s
length-to_lower_from [] h = unfold to_lower_from in refl
length-to_lower_from (c ∷ s) (hc, hs) =
    ap length (to_lower_from_ascii c s hc) ∙ ap suc (length-to_lower_from s hs)

-- An ASCII text keeps its length.
pub length-to_lower : (s : Bytes) → IsAscii s → length (to_lower s) ≡ length s
unfolding to_lower
length-to_lower s h = length-to_lower_from s h

to_lower_from-IsAscii : (s : Bytes) → IsAscii s → IsAscii (to_lower_from 0 s)
to_lower_from-IsAscii [] h = unfold to_lower_from in tt
to_lower_from-IsAscii (c ∷ s) (hc, hs) =
    rw (to_lower_from_ascii c s hc) (lower1_ascii c hc, to_lower_from-IsAscii s hs)

pub to_lower-IsAscii : (s : Bytes) → IsAscii s → IsAscii (to_lower s)
unfolding to_lower
to_lower-IsAscii s h = to_lower_from-IsAscii s h
