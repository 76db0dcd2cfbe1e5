-- ===== src/Intel/Tests.antt =====
-- intel/ on single command lines.
use le_cli.Prelude.Int.{eqb_ℤ}
use le_cli.Prelude.Space.{trim_space}
use le_cli.Prelude.Decimal.{atoi}
use le_cli.Prelude.Space.{all_space}
use le_cli.Scan.Listener.{Listener}
use le_cli.Prelude.Letters.{to_lower}
use le_cli.Prelude.Maps.{Map, lookup, elem, int_eq}
use le_cli.Prelude.Space.{trim_space}
use le_cli.Intel.Profile.{Profile, no_profile}
use le_cli.Intel.Make.{make}
use le_cli.Intel.Make.Stop.{IsSafe, make-IsSafe}
use le_cli.Intel.Make.Returns.{make-IsSome}
use le_cli.Prelude.Utf8.{IsAscii}
use le_cli.Prelude.{ltb, ltb→lt, and_true, ◌&&◌}
use le_cli.Intel.Words.Laws.{Occurs, word_match-Occurs}
use le_cli.Intel.Managers.{Env, lookup_launchd_label_pid}
use le_cli.Intel.Managers.Laws.{IsOrder, lookup_launchd_label_pid-Unique}
use le_cli.Prelude.{split, Bool, ◌↔◌, str_eq}
use le_cli.Intel.Words.{is_word_cont}
use le_cli.Prelude.{
  ℕ, ◌≡◌, ◌≢◌, ◌↔◌, Bool, arith, refl, codes, Bytes, [], ◌∷◌, true, false, none, some,
}
use le_cli.Prelude.Int.{ℤ, pos, negsuc}
use le_cli.Prelude.Utf8.{lit}
use le_cli.Intel.Words.{word_match}
use le_cli.Intel.Number
use le_cli.Intel.Brew.{brew_formula}
use le_cli.Intel.AppName.{app_name}
use le_cli.Intel.Tunnel.{kubectl_forward_identity, cloudflared_identity}
use le_cli.Intel.Windows.{windows_argv0}
use le_cli.Intel.Managers.{parse_launchd_list, Env, lookup_launchd_label_pid}

words :
    (word_match (codes "/usr/bin/Node server.js") (codes "node") ≡ true)
    × (word_match (codes "nodebox node_modules") (codes "node") ≡ false)
unfolding word_match is_word_cont
words = (refl, refl)

formulas :
    (brew_formula (codes "/opt/homebrew/Cellar/REDIS@7/bin/redis-server") ≡ codes "redis")
    × (brew_formula (codes "/opt/homebrew/opt/mongodb-community/bin/mongod")
        ≡ codes "mongodb-community")
unfolding brew_formula
formulas = (refl, refl)

numbers :
    (le_cli.Intel.Number.itoa (pos 8080) ≡ some (codes "8080"))
    × (le_cli.Intel.Number.itoa (negsuc 11) ≡ some (codes "-12"))
unfolding le_cli.Intel.Number.itoa
numbers = (refl, refl)

apps :
    (app_name (codes "/Applications/OneDrive.app/Contents/MacOS/OneDrive -x")
      ≡ some (codes "OneDrive"))
    × (app_name (codes "C:\\Program Files\\Figma\\figma.exe --run") ≡ some (codes "Figma"))
    × (app_name (codes "/Users/a/Library/Application Support/Figma/FigmaAgent.app/x")
        ≡ some (codes "Figma"))
unfolding app_name
apps = (refl, refl, refl)

-- The lower case of the byte 0xFF is three bytes long, so the end of ".exe" is past the end.
argv0_panics : windows_argv0 (0xFF ∷ codes ".exe") ≡ none
unfolding windows_argv0
argv0_panics = refl

forwards :
    kubectl_forward_identity (codes "kubectl port-forward -n shop svc/web 8080:80")
    ≡ (lit "K8s forward: svc/web 8080→80 (shop)", codes "svc/web")
unfolding kubectl_forward_identity lit
forwards = refl

tunnels :
    cloudflared_identity (codes "cloudflared --url http://a:1")
    ≡ lit "Cloudflare quick tunnel → a:1"
unfolding cloudflared_identity lit
tunnels = refl

jobs :
    parse_launchd_list (codes "PID\tStatus\tLabel\n42\t0\tcom.a\n-\t0\tcom.b\n7\t0\t com.c \n")
    ≡ (pos 42, codes "com.a") ∷ (pos 7, codes "com.c") ∷ []
unfolding parse_launchd_list split all_space atoi trim_space eqb_ℤ
jobs = refl

abbrev pub web : Listener ℕ
web = record {
  pid = pos 42;
  command = codes "node";
  command_line = codes "node /srv/web/server.js --port 3000";
  command_line_fallback = false;
  user = codes "al";
  start_time = codes "Mon Jan 5 10:00:00 2026";
  cwd = codes "/srv/web";
  cpu = 0;
  rss = pos 100;
  addrs = codes "127.0.0.1:3000" ∷ [];
  ports = codes "3000" ∷ [];
}

abbrev pub gathered : Env
gathered = record {
  brew_started = [];
  docker_by_port = [];
  launchd_by_pid = (pos 42, codes "com.me.web") ∷ [];
}

abbrev pub advice : Profile
advice = elim (make (pos 501) web gathered) [ none ↦ no_profile | some p ↦ p ]

advice_lines :
    (advice.identity ≡ codes "server.js")
    × (advice.stop_label ≡ codes "launchctl bootout gui/501/com.me.web")
    × (advice.risk ≡ codes "medium")
unfolding make is_word_cont eqb_ℤ
advice_lines = (refl, refl, refl)

pub made : make (pos 501) web gathered ≡ some advice
unfolding make is_word_cont eqb_ℤ
made = refl

make-IsSafe_example : IsSafe web gathered advice.stop_kind advice.stop_arg
make-IsSafe_example = make-IsSafe (pos 501) web gathered advice made

word_match-Occurs_example : (word_match (codes "/usr/bin/Node server.js") (codes "node") ≡ true) ↔ (
    (to_lower (codes "node") ≢ [])
    × Occurs (to_lower (codes "/usr/bin/Node server.js")) (to_lower (codes "node")))
word_match-Occurs_example = word_match-Occurs (codes "/usr/bin/Node server.js") (codes "node")

abbrev report : Bytes
report = codes "PID\tStatus\tLabel\n42\t0\tcom.a\n-\t0\tcom.b\n7\t0\tcom.c\n"

abbrev as_stored : Map ℤ Bytes → Map ℤ Bytes
as_stored m = m

report-IsOrder : IsOrder as_stored (parse_launchd_list report)
unfolding parse_launchd_list elem split all_space atoi trim_space eqb_ℤ
report-IsOrder = ((refl, (refl, tt)), λ k. refl)

found : lookup_launchd_label_pid as_stored (codes "com.c") (some report) ≡ (pos 7, true)
unfolding lookup_launchd_label_pid parse_launchd_list split all_space atoi trim_space eqb_ℤ str_eq
found = refl

lookup_launchd_label_pid-Unique_example :
    (lookup (pos 7) (parse_launchd_list report) ≡ some (codes "com.c"))
    × ((q : ℤ) → lookup q (parse_launchd_list report) ≡ some (codes "com.c") → q ≡ pos 7)
lookup_launchd_label_pid-Unique_example =
    lookup_launchd_label_pid-Unique as_stored (codes "com.c") report (pos 7) report-IsOrder found

is_ascii : Bytes → Bool
is_ascii [] = true
is_ascii (c ∷ s) = ltb c 0x80 && is_ascii s

is_ascii-IsAscii : (s : Bytes) → is_ascii s ≡ true → IsAscii s
unfolding is_ascii
is_ascii-IsAscii [] h = tt
is_ascii-IsAscii (c ∷ s) h =
    let (a, b) = and_true (ltb c 0x80) (is_ascii s) h in (ltb→lt c 0x80 a, is_ascii-IsAscii s b)

web_ascii : is_ascii web.command_line ≡ true
unfolding is_ascii
web_ascii = refl

make-IsSome_example : (p : Profile) × (make (pos 501) web gathered ≡ some p)
make-IsSome_example =
    make-IsSome (pos 501) web gathered (is_ascii-IsAscii web.command_line web_ascii) refl
      (omega arith) (omega arith)
