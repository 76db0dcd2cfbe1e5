-- ===== src/Bounded/Tests.antt =====
-- internal/boundedexec on small outputs.
use le_cli.Prelude.{
  ◌≤◌, ltb, true, ◌||◌, none, some, List, [], ◌∷◌, length, Bytes, codes, ◌≡◌, arith, ltb, min,
}
use le_cli.Bounded.{Process, run, output_limit, max_stdout, max_stderr, Disk}
use le_cli.Bounded.Laws.{whole, run-whole, Takes}

abbrev pieces : List Bytes
pieces = codes "abc" ∷ codes "defg" ∷ []

abbrev quiet : Process
quiet = record { stdout = pieces; stderr = []; ends = none; ctx_err = none }

run-whole_example :
    ((run quiet).1 ≡ none
      → ((run quiet).0 ≡ whole quiet.stdout)
        × (length (whole quiet.stdout) ≤ max_stdout)
        × (quiet.ends ≡ none)
        × (quiet.ctx_err ≡ none))
    × ((ltb max_stdout (length (whole quiet.stdout))
            || ltb max_stderr (length (whole quiet.stderr)))
          ≡ true
        → run quiet ≡ ([], some output_limit))
run-whole_example = run-whole quiet

-- A file that takes at most two bytes of a write.
abbrev slow_disk : Disk
slow_disk file p = (min 2 (length p), none)

slow_disk-Takes : Takes slow_disk
slow_disk-Takes file p = omega arith
