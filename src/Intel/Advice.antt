-- ===== src/Intel/Advice.antt =====
-- intel/intel.go: what each case of the switch in `Make` writes into the profile, and the helpers
-- `database` and `devServer`. `none` stands for a panic.
use le_cli.Prelude.{
  Bytes, codes, contains, str_eq, is_empty, Bool, not, ◌&&◌, ◌||◌, ◌++◌, Option, none, some,
  if◌then◌else◌,
}
use le_cli.Prelude.Int.{ℤ, pos}
use le_cli.Prelude.Letters.{to_lower}
use le_cli.Prelude.Utf8.{lit}
use le_cli.Intel.AppName.{app_name, helper_suffix}
use le_cli.Intel.Evidence.{docker_manual_reason}
use le_cli.Intel.Interpreter.{InterpId}
use le_cli.Intel.Profile.{Profile, stop_term, stop_brew, stop_avoid}
use le_cli.Intel.Rules.{
  Rule, docker_helper, kubectl, cloudflared, redis, mongodb, postgres, mysql, ollama, fastapi,
  django, flask, mkdocs, web, interpreter, node, python, editor, brewed, owned, open_listener,
  plain, Facts,
}
use le_cli.Intel.System.{display_name}
use le_cli.Intel.Tunnel.{kubectl_forward_identity, cloudflared_identity}
use le_cli.Scan.Listener.{Listener}

-- A step that may panic, and what follows it.
infixl 5 ◌>>=◌
abbrev pub ◌>>=◌ {ℓ κ} : {A : Type ℓ} {B : Type κ} → Option A → (A → Option B) → Option B
none >>= f = none
some a >>= f = f a

-- `pick`, `pickStr` and `pickSrc`
abbrev pick {ℓ} : {A : Type ℓ} → Bool → A → A → A
pick cond a b = if cond then a else b

-- The stop through Homebrew, which three cases and `database` write.
unfoldable pub by_brew : Bytes → Profile → Profile
by_brew formula p = record p {
  stop_kind = stop_brew;
  stop_arg = formula;
  stop_label = codes "brew services stop " ++ formula;
  restart = codes "brew services start " ++ formula;
}

-- `database`
unfoldable pub database : Facts → Bytes → Profile → Bytes → ℤ → Bytes → Profile
unfolding by_brew to_lower lit
database f digits p id conf explain =
    let q : Profile = record p {
      identity = id;
      kind = codes "database";
      confidence = conf;
      risk = codes "high";
      source = codes "homebrew";
      explain = explain;
      note = id ++ lit ": local apps may lose database connections until it is started again.";
      warning = lit "Stopping a database can interrupt running projects.";
    } in
    let careful : Profile = record q {
      stop_kind = stop_term;
      stop_label = codes "Careful TERM to PID " ++ digits;
      restart = codes "start " ++ (to_lower id ++ codes " the way you originally launched it");
      source = codes "terminal";
    } in
    if not (is_empty f.formula) then by_brew f.formula q else careful

-- `devServer`; the kind that it would look up is the one that `Make` begins with.
unfoldable pub dev_server : Facts → Bytes → Profile → Bytes → ℤ → Bytes → Bytes → Profile
unfolding lit
dev_server f digits p id conf explain restart = record p {
  identity = id;
  confidence = conf;
  risk = codes "low";
  kind = if is_empty p.kind then f.kind else p.kind;
  source = codes "framework";
  stop_kind = stop_term;
  stop_label = codes "Send TERM to PID " ++ digits;
  explain = explain;
  note = lit "Dev server: browser tabs and API calls may show connection refused.";
  restart = restart;
}

unfoldable pub docker_advice : Profile → Profile
unfolding docker_manual_reason lit
docker_advice p = record p {
  identity = lit "Container networking helper";
  source = codes "container";
  confidence = pos 80;
  risk = codes "medium";
  stop_kind = stop_avoid;
  stop_label = lit "Manage manually — Docker ownership unverified";
  explain = lit "Known container networking or engine helper.";
  note = docker_manual_reason;
  warning = docker_manual_reason;
  restart = lit "Verify the intended engine and container, then manage them manually.";
}

unfoldable pub kubectl_advice : Bytes → Profile → Profile
unfolding kubectl_forward_identity lit
kubectl_advice command_line p =
    let id = kubectl_forward_identity command_line in
    record p {
      identity = id.0;
      kind = codes "tunnel";
      source = codes "terminal";
      confidence = pos 95;
      risk = codes "medium";
      explain = lit "A kubectl port-forward session — a local tunnel into your Kubernetes cluster.";
      note =
          lit
            "Killing it severs the tunnel; anything using this local port loses its cluster connection.";
      warning =
          lit "Stopping drops the forwarded connection to "
          ++ (pick (not (is_empty id.1)) id.1 (lit "the cluster") ++ codes ".");
      restart = lit "Re-run the kubectl port-forward command from your terminal.";
    }

unfoldable pub cloudflared_advice : Bytes → Facts → Profile → Profile
unfolding cloudflared_identity by_brew lit str_eq
cloudflared_advice command_line f p =
    let q : Profile = record p {
      identity = cloudflared_identity command_line;
      kind = codes "tunnel";
      confidence = pos 93;
      risk = codes "medium";
      source = codes "terminal";
      explain =
          lit "Cloudflare Tunnel connector — exposes a local service through Cloudflare's network.";
      note = lit "Killing it takes the public tunnel URL offline.";
      warning = lit "Anyone using the tunnel's public URL loses access when this stops.";
    } in
    let by_hand : Profile = record q {
      restart = lit "Re-run the cloudflared command (or brew services start cloudflared).";
    } in
    if str_eq f.formula (codes "cloudflared") && f.managed_brew
    then by_brew f.formula (record q { source = codes "homebrew" })
    else by_hand

unfoldable pub ollama_advice : Facts → Profile → Profile
unfolding by_brew lit str_eq
ollama_advice f p =
    let q : Profile = record p {
      identity = codes "Ollama";
      kind = codes "ai";
      confidence = pick (str_eq f.formula (codes "ollama")) (pos 96) (pos 91);
      risk = codes "medium";
      source = codes "terminal";
      explain = lit "Serves local AI models over HTTP, usually on port 11434.";
      note = lit "Local AI service: apps using local models may fail when it stops.";
      warning = lit "Stopping Ollama can interrupt local AI features in other apps.";
    } in
    let by_hand : Profile = record q { restart = codes "ollama serve" } in
    if not (is_empty f.formula)
    then by_brew f.formula (record q { source = codes "homebrew" })
    else by_hand

unfoldable pub interpreter_advice : InterpId → Profile → Profile
unfolding lit
interpreter_advice id p = record p {
  identity = id.title;
  kind = id.kind;
  confidence = id.confidence;
  source = codes "terminal";
  explain = id.explanation;
  restart = lit "Run `" ++ (id.restart ++ lit "` again.");
  note = lit "Process you launched from a terminal.";
}

-- The name of the product, and the text that names the helper.
unfoldable pub editor_advice : Bytes → Bytes → Profile → Profile
unfolding lit
editor_advice app suffix p = record p {
  identity = pick (is_empty app) (lit "Editor language service") app;
  kind = codes "editor";
  source = codes "ide";
  confidence = pick (is_empty app) (pos 80) (pos 88);
  risk = codes "medium";
  stop_kind = stop_avoid;
  stop_label = lit "Avoid unless you recognize the editor helper";
  explain = lit "Editor helper for code intelligence, indexing, or extensions." ++ suffix;
  note = lit "Stopping it can break completions or indexing until the editor reloads.";
  warning = lit "Stop only if you recognize the editor helper.";
}

unfoldable pub brew_advice : Bytes → Profile → Profile
unfolding by_brew lit
brew_advice formula p = by_brew formula (record p {
  identity = formula;
  source = codes "homebrew";
  confidence = pos 82;
  risk = codes "medium";
  explain =
      lit "Managed by Homebrew through launchd; killing the PID alone may not be the right action.";
  warning = lit "Managed services may restart unless stopped through their manager.";
})

unfoldable pub owned_advice : Bool → Bytes → Bytes → Profile → Profile
unfolding lit
owned_advice system app suffix p = record p {
  identity = pick (is_empty app) (pick system (lit "macOS service") (lit "App helper")) app;
  source = pick system (codes "macos") (codes "app");
  confidence = pick (is_empty app) (pick system (pos 78) (pos 72)) (pick system (pos 88) (pos 86));
  risk = codes "high";
  stop_kind = stop_avoid;
  stop_label = lit "Avoid — owned by " ++ pick system (lit "macOS") (lit "an app");
  explain =
      pick system (lit "macOS background service listening locally.")
        (lit "Desktop app helper listening locally.")
      ++ suffix;
  note = lit "It may restart automatically if the owning app or macOS needs it.";
  warning = lit "Only stop this if you know why it is running.";
}

unfoldable pub open_advice : Bytes → Profile → Profile
unfolding lit
open_advice digits p = record p {
  identity = lit "Open local listener";
  source = codes "terminal";
  confidence = pos 65;
  risk = codes "medium";
  stop_label = codes "Send TERM to PID " ++ digits;
  explain =
      lit
        "Listening on a wildcard address — reachable beyond localhost depending on your firewall.";
  note = lit "Open listener: reachable beyond localhost if your network allows it.";
  warning = lit "Check whether another device depends on this before stopping it.";
  restart = lit "Use the original app or command that started it.";
}

unfoldable pub plain_advice : Bytes → Profile → Profile
unfolding lit
plain_advice name p = record p {
  identity = name;
  source = codes "terminal";
  explain = lit "Local listener detected from lsof. No specific profile yet.";
  restart = lit "Use the original app or command that started it.";
}

-- The name in the case of MySQL and MariaDB.
unfoldable pub mysql_name : Facts → Bytes
unfolding contains str_eq
mysql_name f =
    if contains f.command_text (codes "mariadb") || str_eq f.formula (codes "mariadb")
    then codes "MariaDB"
    else codes "MySQL"

module _ {F : Type 0} (l : Listener F) (f : Facts) (digits : Bytes) (p : Profile) where
  -- The body of the case.
  unfoldable pub apply_rule : Rule → Option Profile
  unfolding database dev_server docker_advice kubectl_advice cloudflared_advice ollama_advice
      interpreter_advice editor_advice brew_advice owned_advice open_advice plain_advice mysql_name
      app_name helper_suffix display_name lit str_eq
  apply_rule docker_helper = some (docker_advice p)
  apply_rule kubectl = some (kubectl_advice l.command_line p)
  apply_rule cloudflared = some (cloudflared_advice l.command_line f p)
  apply_rule redis = some (
      database f digits p (codes "Redis")
        (pick (str_eq f.formula (codes "redis")) (pos 96) (pos 90))
        (lit "In-memory database/cache used by local apps, queues, and sessions."))
  apply_rule mongodb = some (
      database f digits p (codes "MongoDB") (pick (not (is_empty f.formula)) (pos 95) (pos 88))
        (lit "Document database local projects may depend on for app data."))
  apply_rule postgres = some (
      database f digits p (codes "Postgres") (pick (not (is_empty f.formula)) (pos 94) (pos 86))
        (lit "Relational database. Stopping it drops local connections."))
  apply_rule mysql = some (
      database f digits p (mysql_name f) (pick (not (is_empty f.formula)) (pos 94) (pos 86))
        (mysql_name f ++ lit " relational database. Local projects may lose connections."))
  apply_rule ollama = some (ollama_advice f p)
  apply_rule fastapi = some (
      dev_server f digits p (codes "FastAPI/Uvicorn") (pos 92)
        (lit "Python API dev server for a local FastAPI app.")
        (lit "Restart the uvicorn/FastAPI command from the project terminal."))
  apply_rule django = some (
      dev_server f digits p (codes "Django dev server") (pos 90)
        (lit "Python web server launched by Django for local development.")
        (lit "Run python manage.py runserver again."))
  apply_rule flask = some (
      dev_server f digits p (codes "Flask dev server") (pos 88)
        (lit "Python web server launched by Flask for local development.")
        (lit "Run flask run again."))
  apply_rule mkdocs = some (
      dev_server f digits p (codes "MkDocs preview") (pos 88)
        (lit "Local documentation preview server.") (lit "Run mkdocs serve again."))
  apply_rule web = some (
      dev_server f digits p (codes "Node web dev server") (pos 86)
        (lit "JavaScript framework running a local dev server.")
        (lit "Run npm/pnpm/yarn dev again."))
  apply_rule (interpreter id) = some (interpreter_advice id p)
  apply_rule node = some (
      dev_server f digits p (codes "Node service") (pos 78)
        (lit "Node-based local service or dev server.")
        (lit "Restart the package script that launched it."))
  apply_rule python = some (
      dev_server f digits p (codes "Python service") (pos 76)
        (lit "Python process listening locally, likely a dev server or tool.")
        (lit "Restart the Python command."))
  apply_rule editor = do
    app ← app_name l.command_line
    suffix ← helper_suffix l
    some (editor_advice app suffix p)
  apply_rule brewed = some (brew_advice f.formula p)
  apply_rule owned = do
    app ← app_name l.command_line
    suffix ← helper_suffix l
    some (owned_advice f.system app suffix p)
  apply_rule open_listener = some (open_advice digits p)
  apply_rule plain = do name ← display_name l; some (plain_advice name p)
