-- ===== src/Tools/Text/Tests.antt =====
-- tools/text.go on short texts.
use le_cli.Prelude.{codes, true, [], none, ◌≡◌, refl}
use le_cli.Prelude.Decimal.{atoi}
use le_cli.Prelude.Int.{pos}
use le_cli.Tools.Text.{Outside, json, count, url_encode, epoch_to_date, transform, encode_url}
use le_cli.Tools.Text.Laws.{bounded, url_text, encode_url-bounded}
use le_cli.Tools.Text.Output.{ok, err, invalid_epoch}

abbrev outside : Outside
outside = record {
  now = pos 0;
  random = λ n. none;
  json_valid = λ s. true;
  rfc3339 = λ n. [];
  base64_encode = λ s. s;
  base64_decode = λ s. none;
  path_unescape = λ s. none;
  sha256_hex = λ s. s;
}

pretty_object :
    transform outside json (codes "{\"a\":[1, {}]}")
    ≡ ok (codes "{\n    \"a\": [\n        1,\n        {}\n    ]\n}\n")
unfolding transform
pretty_object = refl

counted :
    transform outside count (codes "one two\nthree") ≡ ok (codes "lines: 1\nwords: 3\nchars: 13\n")
unfolding transform
counted = refl

no_epoch : transform outside epoch_to_date (codes "tomorrow") ≡ err invalid_epoch
unfolding transform atoi
no_epoch = refl

encoded : transform outside url_encode (codes " a b/c%\n") ≡ ok (codes "a%20b/c%25")
unfolding transform
encoded = refl

encode_url-bounded_example : encode_url (codes "a b/c%") ≡ bounded (url_text (codes "a b/c%"))
encode_url-bounded_example = encode_url-bounded (codes "a b/c%")
