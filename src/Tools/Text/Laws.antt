-- ===== src/Tools/Text/Laws.antt =====
-- tools/text.go: lemmas on the bounded output and on the percent encoding.
use le_cli.Prelude.{
  ℕ, ◌-◌, ◌≤◌, ltb, true, false, if◌then◌else◌, [], ◌∷◌, ◌++◌, ◌∙◌, sym, length, Bytes, ◌≡◌, refl,
  ap, arith, Bool-cases, inl, inr, append-nil, append_assoc, length-append, ltb→lt, lt→ltb,
}
use le_cli.Prelude.Int.{ltb-false, le→ltb_false}
use le_cli.Tools.Text.{encode_url, url_bytes, url_byte}
use le_cli.Tools.Text.Output.{text_maximum_bytes, Result, ok, err, output_too_large, append}

-- What the encoder writes for every byte, without a limit.
abbrev pub url_text : Bytes → Bytes
url_text [] = []
url_text (c ∷ s) = url_byte c ++ url_text s

-- A text that has at most 1 MiB, or the error.
abbrev pub bounded : Bytes → Result
bounded t = if ltb text_maximum_bytes (length t) then err output_too_large else ok t

append-fits :
    (out b : Bytes)
    → length out ≤ text_maximum_bytes
    → ltb text_maximum_bytes (length (out ++ b)) ≡ false
    → append out b ≡ ok (out ++ b)
unfolding append
append-fits out b h k =
    rw
      (le→ltb_false (text_maximum_bytes - length out) (length b)
        (omega (arith, h, ltb-false _ _ k, length-append out b)))
      refl

append-too_large :
    (out b : Bytes)
    → length out ≤ text_maximum_bytes
    → ltb text_maximum_bytes (length (out ++ b)) ≡ true
    → append out b ≡ err output_too_large
unfolding append
append-too_large out b h k =
    rw
      (lt→ltb (text_maximum_bytes - length out) (length b)
        (omega (arith, h, ltb→lt _ _ k, length-append out b)))
      refl

-- The other bytes, after the first one.
abbrev go_on : Bytes → Result → Result
go_on s (ok next) = url_bytes next s
go_on s (err e) = err e

bounded_over :
    (t : Bytes) → ltb text_maximum_bytes (length t) ≡ true → bounded t ≡ err output_too_large
bounded_over t h = rw h refl

url_bytes-step :
    (out : Bytes) (c : ℕ) (s : Bytes) → url_bytes out (c ∷ s) ≡ go_on s (append out (url_byte c))
unfolding url_bytes
url_bytes-step out c s = refl

url_bytes-bounded :
    (out s : Bytes)
    → length out ≤ text_maximum_bytes
    → url_bytes out s ≡ bounded (out ++ url_text s)
unfolding url_bytes
url_bytes-bounded out [] h =
    let e : ltb text_maximum_bytes (length (out ++ [])) ≡ false =
      le→ltb_false _ _ (omega (arith, h, length-append out [])) in
    rw e (ap ok (sym (append-nil out)))
url_bytes-bounded out (c ∷ s) h =
    elim (Bool-cases (ltb text_maximum_bytes (length (out ++ url_byte c)))) [
      | inl e ↦
          let over : ltb text_maximum_bytes (length (out ++ (url_byte c ++ url_text s))) ≡ true =
            lt→ltb _ _ (
              omega (
                arith,
                ltb→lt _ _ e,
                length-append out (url_byte c),
                length-append out (url_byte c ++ url_text s),
                length-append (url_byte c) (url_text s),
              )) in
          url_bytes-step out c s
          ∙ ap (go_on s) (append-too_large out (url_byte c) h e)
          ∙ sym (bounded_over _ over)
      | inr e ↦
          url_bytes-step out c s
          ∙ ap (go_on s) (append-fits out (url_byte c) h e)
          ∙ url_bytes-bounded (out ++ url_byte c) s (ltb-false _ _ e)
          ∙ ap bounded (append_assoc out (url_byte c) (url_text s))
    ]

-- The percent encoding is the text with every byte replaced on its own, if that has at most 1 MiB,
-- and otherwise the error that the result is too large: the output is never cut off.
pub encode_url-bounded : (input : Bytes) → encode_url input ≡ bounded (url_text input)
unfolding encode_url
encode_url-bounded input = url_bytes-bounded [] input (omega arith)
