-- ===== src/Config/Tests.antt =====
-- config/ on a small file.
use le_cli.Prelude.{has_prefix}
use le_cli.Prelude.{split}
use le_cli.Prelude.{codes, [], ◌≡◌, refl, true}
use le_cli.Prelude.Int.{pos}
use le_cli.Config.{FileRead, contents, load, interval}
use le_cli.Config.Laws.{IsBounded, load-IsBounded}

abbrev file : FileRead
file = contents (codes "# le\ninterval = 0\ntheme = \"nord\"\ngroup = yes\ninterval = 7\n")

loaded :
    load [] file
    ≡ (record { interval_seconds = pos 7; filter = []; theme = codes "nord"; group = true }, [])
unfolding load split has_prefix
loaded = refl

load-IsBounded_example :
    IsBounded (load [] file).0 × (interval (load [] file).0 ≡ (load [] file).0.interval_seconds)
load-IsBounded_example = load-IsBounded [] file
