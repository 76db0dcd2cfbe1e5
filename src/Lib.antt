-- ===== src/Lib.antt =====
-- le (Localhost Explorer for the terminal): the parts that decide what is listed, what is
-- selected and what is stopped.
--
-- The program scans the machine for processes that listen on localhost (scan/), classifies each
-- of them (intel/), shows them in a list that it refreshes in the background (ui/), and stops or
-- restarts the selected one through whoever owns it (kill/). Its rule is that no signal is sent
-- without proven identity: a scan captures the start time of each process, the list is to keep
-- its selection on one process, and an action reads the start time again before it acts.
--
-- Files and code. Prelude and its children hold what Go's library does on bytes, integers, maps
-- and slices. Scan/Ports models scan/scan.go; Scan/Unescape models scan/unescape.go; Scan/Lsof,
-- Scan/Ps and Scan/Unix model scan/scan_unix.go, the parsers of lsof's and ps's output and
-- `scanWithRunner`, which joins them; Scan/Scheme models scan/scheme.go and Scan/Netstat
-- scan/netstat.go. Intel/Profile holds the types of intel/intel.go and intel/evidence.go.
-- Intel/Make models `Make`, which takes one of the cases of Intel/Rules and writes what
-- Intel/Advice says; the cases use Intel/Words (`wordMatch`), Intel/Brew (`brewFormula`),
-- Intel/Interpreter, Intel/System and Intel/Docker of intel/intel.go, Intel/Windows
-- (intel/windows.go), Intel/AppName (intel/appname.go) and Intel/Tunnel (intel/tunnel.go).
-- Intel/Evidence models intel/evidence.go, Intel/Number `itoa`, and Intel/Managers the lists of
-- brew and launchctl with intel/context.go and intel/launchd_lookup.go. Kill/World is the outside
-- of kill/; Kill/Guarded models `actionContext` of kill/context.go, Kill/Identity and Kill/Legacy
-- model kill/kill.go; Kill/Advice joins both packages. Ui/Row, Ui/Items and Ui/Groups model
-- ui/group.go, Ui/View the filter and the order of the rows, Ui/Scans, Ui/Cursor, Ui/Pane and
-- Ui/Confirm the scans, the selection, the detail pane and the confirm dialog of ui/ui.go and
-- ui/panefocus.go. Bounded models internal/boundedexec, through which every command is run,
-- Config models config/config.go, Label internal/label/label.go, ReadApi
-- internal/readapi/client.go, and Tools/Text tools/text.go. Datacenter/Wire models
-- datacenter/database/wire.go, Datacenter/Redis the commands and Datacenter/Results the results
-- of datacenter/database/redis.go and query.go, and Datacenter/Inventory with its child Fetch
-- datacenter/inventory/inventory.go. Companion models companion/server.go: Companion and its
-- child Steps hold what the parts of the handlers do to the server's state, and Request which
-- requests reach an operation. A module's Laws, Safety, Lines or RoundTrip holds its proofs, and
-- the Tests modules hold examples.
--
-- Conventions. A text is the list of its bytes. Go's `int` is a signed integer without bounds;
-- only the counter of scan ids wraps around. A `float64` is a value of any type `F`. Maps are
-- association lists, and where a loop over a map could tell its order, the order is a parameter.
-- An index out of range, which panics, is `none` in Intel and an error of its own in Tools/Text.
-- Every loop but that of `wordMatch` and the one that shortens a helper's name is structural
-- recursion, or recursion on a smaller number, so nothing else runs on fuel (`respFrame` recurs
-- on the levels that are left, and the loop over pages on the eight offsets): a loop over an
-- index that skips bytes counts the bytes still to be skipped. The loop of `wordMatch` has one
-- round more than the text has bytes, which is enough since each round goes on behind the place
-- that it has found; the other loop has one pass more than the name has bytes, and each pass but
-- the last one shortens the name.
--
-- Parameters. A command that is run, a signal and a cancelled context are answers of the outside,
-- arbitrary functions of the calls made before; the scan's runner is a function of the command
-- line, and so are a TLS probe, the existence of a file, what reading the config file gives,
-- `strconv.ParseFloat`, `strings.EqualFold`, `json.Unmarshal`, and what Tools/Text asks of
-- Base64, SHA-256, `json.Valid`, `url.PathUnescape`, the format of a date, the clock and the
-- random bytes. ReadApi takes `url.Parse`, `net.ParseIP`, `net.LookupPort` and what a request
-- gives as parameters, Datacenter/Inventory takes the client of ReadApi, Datacenter/Redis the
-- decoder of JSON and `strings.ToUpper`, and Datacenter/Results the length that `json.Marshal`
-- gives. Nothing is assumed of any of them. What a file takes of a write is a parameter too, at
-- most the bytes that it is given. The handlers of the companion interleave at the calls of the
-- engine, as a list of events; its random bytes, its decoders of JSON and addresses, and the
-- engine's answers are parameters. The concurrent calls of a scan share nothing, so they are
-- modelled in order. `ctx.Err()` stays set once it is set, so the second call that returns it is
-- the first one.
--
-- Not modelled: the commands of the Windows scan, `parseDockerPorts`, which only fixtures call,
-- drawing, the other menus, tools/forward.go, `ReadTextInput`, the rest of datacenter/, the
-- process of companion/, cmd/, and the libraries in third_party/.
pub mod Prelude
pub mod Scan
pub mod Intel
pub mod Kill
pub mod Ui
pub mod Bounded
pub mod Config
pub mod Label
pub mod Tools
pub mod ReadApi
pub mod Datacenter
pub mod Companion
