-- ===== src/Scan/Tests.antt =====
-- scan/ on one server that lsof and ps describe, and on escaped names.
use le_cli.Scan.Netstat.{parse_netstat}
use le_cli.Scan.Netstat.Laws.{IsListed, addresses, listed, parse_netstat-IsListed}
use le_cli.Prelude.{join}
use le_cli.Prelude.Int.{eqb_ℤ, ℤ}
use le_cli.Prelude.Maps.{insert}
use le_cli.Prelude.Space.{fields}
use le_cli.Prelude.{split}
use le_cli.Prelude.Maps.{lookup}
use le_cli.Prelude.{
  ℕ, ◌≤◌, ◌≡◌, ◌≢◌, ◌↔◌, codes, Bytes, Bool, List, [], ◌∷◌, map, true, false, none, some, Option,
  refl, arith, All, if◌then◌else◌, str_eq, is_empty, length,
}
use le_cli.Prelude.Int.{pos}
use le_cli.Prelude.Maps.{bytes_eq, int_eq, elem, Distinct}
use le_cli.Prelude.Utf8.{valid_string, rune_count}
use le_cli.Scan.Listener.{Listener}
use le_cli.Scan.Ports.{port_less, ports_of, listener_less, sort_listeners}
use le_cli.Scan.Ports.Laws.{InOrder, sort_listeners-InOrder}
use le_cli.Scan.Ps.{row_of, read_ps}
use le_cli.Scan.Unescape.{unescape_ps, unescape_lsof}
use le_cli.Scan.Unescape.RoundTrip.{vis, Writable, unescape_ps-vis, unescape_ps_thaana}
use le_cli.Scan.Unix.{Runner, other, found, scan_with_runner}
use le_cli.Scan.Unix.Laws.{IsWellFormed, pid_of, scan_with_runner-IsWellFormed}
use le_cli.Scan.Scheme.{Prober, Cache, cached_scheme, scheme_hit, begin_refresh, end_refresh}
use le_cli.Scan.Scheme.Laws.{
  System, repaint, begins, ends, Reach, here, next, start, Answered, cached_scheme-Answered,
}
use mathlib.Core.List.{Perm}

abbrev zero_cpu : ℕ
zero_cpu = 0

abbrev no_cpu : Bytes → ℕ
no_cpu s = 0

abbrev times : Bytes
times = codes "   42 Mon Jan  5 10:00:00 2026 al\n"

abbrev commands : Bytes
commands = codes "   42 postgres -D data\n"

abbrev resources : Bytes
resources = codes "   42  1.5 10240\n"

abbrev listing : Bytes
listing = codes "p42\ncpostgres\nPTCP\nn127.0.0.1:5432\nn10.0.0.1:80\nn*:80\n"

abbrev ps_output : List Bytes → Bytes
ps_output args =
    if elem (codes "pid=,lstart=,user=") args
    then times
    else if elem (codes "pid=,command=") args
    then commands
    else resources

abbrev one_server : Runner
one_server name args = if str_eq name (codes "ps") then (ps_output args, none) else (listing, none)

abbrev no_lsof : Runner
no_lsof name args = ([], some (other (codes "lsof: not found")))

abbrev server : Listener ℕ
server = record {
  pid = pos 42;
  command = codes "postgres";
  command_line = codes "postgres -D data";
  command_line_fallback = false;
  user = codes "al";
  start_time = codes "Mon Jan 5 10:00:00 2026";
  cwd = codes "*:80";
  cpu = 0;
  rss = pos 10240;
  addrs = codes "127.0.0.1:5432" ∷ codes "*:80" ∷ [];
  ports = codes "80" ∷ codes "5432" ∷ [];
}

scan_one : scan_with_runner zero_cpu no_cpu one_server ≡ found (server ∷ [])
unfolding scan_with_runner str_eq le_cli.Scan.Ports.is_local_endpoint le_cli.Prelude.Maps.lookup
    le_cli.Prelude.Maps.insert unescape_lsof le_cli.Prelude.Space.fields unescape_ps
scan_one = refl

scan_with_runner-IsWellFormed_example :
    All IsWellFormed (server ∷ []) × Distinct (map pid_of (server ∷ []))
scan_with_runner-IsWellFormed_example =
    scan_with_runner-IsWellFormed zero_cpu no_cpu one_server scan_one

has_command :
    is_empty (row_of zero_cpu (pos 42) (read_ps zero_cpu no_cpu times commands resources)).command
    ≡ false
unfolding read_ps row_of lookup split fields insert eqb_ℤ unescape_ps join
has_command = refl

-- Of three listeners, two on the same port and one without any.
abbrev unsorted : List (Listener ℕ)
unsorted = record server { ports = [] } ∷ record server { pid = pos 50 } ∷ server ∷ []

sort_listeners-InOrder_example :
    InOrder (sort_listeners unsorted) × Perm (sort_listeners unsorted) unsorted
sort_listeners-InOrder_example = sort_listeners-InOrder unsorted

-- The UTF-8 bytes of "café" behind a control code.
abbrev cafe : Bytes
cafe = 7 ∷ 99 ∷ 97 ∷ 102 ∷ 0xC3 ∷ 0xA9 ∷ []

cafe_valid : valid_string cafe ≡ true
unfolding valid_string
cafe_valid = refl

cafe_wide : rune_count cafe ≢ length cafe
unfolding rune_count
cafe_wide = omega arith

cafe-Writable : All Writable cafe
cafe-Writable = ground arith

unescape_ps-vis_example : unescape_ps (vis cafe) ≡ cafe
unescape_ps-vis_example = unescape_ps-vis cafe cafe-Writable cafe_valid cafe_wide

-- DEL, which is written `^?`, comes back as another control code.
del_changed : unescape_ps (codes "M-CM-)^?") ≡ 0xC3 ∷ 0xA9 ∷ 0x1F ∷ []
unfolding unescape_ps valid_string rune_count
del_changed = refl

unescape_ps_thaana_example : unescape_ps (vis (0xDE ∷ 0x80 ∷ [])) ≡ vis (0xDE ∷ 0x80 ∷ [])
unescape_ps_thaana_example = unescape_ps_thaana 0x80 [] (omega arith)

-- A port that speaks HTTPS: painted, probed, and answered.
abbrev tls : Prober
tls asked port = true

abbrev painted : Cache
painted = (cached_scheme 0 (codes "8443") (start tls).cache).1

abbrev probed : System
probed = record {
  cache = (end_refresh 1 2 (begin_refresh (codes "8443") painted) painted).1;
  probes = [];
}

probed_reached : Reach (start tls) probed
probed_reached =
    next (next (next here (repaint 0 (codes "8443"))) (begins (codes "8443")))
      (ends [] [] (begin_refresh (codes "8443") painted) 1 2)

cached_scheme-Answered_example :
    ((cached_scheme 3 (codes "8443") probed.cache).0 ≡ true
      → Answered probed.cache.prober (codes "8443"))
    × (scheme_hit 3 (codes "8443") probed.cache ≡ some true
        → Answered probed.cache.prober (codes "8443"))
cached_scheme-Answered_example = cached_scheme-Answered 3 (codes "8443") probed_reached

abbrev netstat_table : Bytes
netstat_table =
    codes
      "Proto Local Foreign State PID\n TCP 0.0.0.0:135 0.0.0.0:0 LISTENING 1234\n TCP 127.0.0.1:5000 127.0.0.1:52113 ESTABLISHED 4321\n TCP [::]:135 [::]:0 LISTENING 1234\n"

netstat_read : parse_netstat netstat_table ≡ record {
  by_pid = (pos 1234, codes "0.0.0.0:135" ∷ codes "[::]:135" ∷ []) ∷ [];
  order = pos 1234 ∷ [];
}
unfolding parse_netstat le_cli.Scan.Ports.is_local_endpoint le_cli.Prelude.Decimal.atoi eqb_ℤ
netstat_read = refl

parse_netstat-IsListed_example :
    IsListed (parse_netstat netstat_table)
    × ((pid : ℤ)
        → addresses pid (parse_netstat netstat_table).by_pid
          ≡ listed pid (split b'\n' netstat_table))
parse_netstat-IsListed_example = parse_netstat-IsListed netstat_table
