-- ===== src/Intel/Rules.antt =====
-- intel/intel.go: the cases of the switch in `Make`, in their order, and what they test.
use le_cli.Prelude.{
  Bytes, codes, contains, str_eq, is_empty, join, Bool, false, not, ◌&&◌, ◌||◌, [], ◌∷◌, ◌++◌, none,
  some, if◌then◌else◌,
}
use le_cli.Prelude.Letters.{to_lower}
use le_cli.Prelude.Maps.{lookup, bytes_eq}
use le_cli.Intel.Brew.{brew_formula}
use le_cli.Intel.Docker.{is_docker_helper}
use le_cli.Intel.Interpreter.{InterpId, interpreter_identity}
use le_cli.Intel.Managers.{Env}
use le_cli.Intel.System.{any_contains, has_wildcard, is_background_app}
use le_cli.Intel.Words.{any_word}
use le_cli.Scan.Listener.{Listener}

-- The case that is taken.
pub data Rule : Type 0 where
  docker_helper kubectl cloudflared redis mongodb postgres mysql ollama : Rule
  fastapi django flask mkdocs web : Rule
  interpreter : InterpId → Rule
  node python editor brewed owned open_listener plain : Rule

-- The variables at the head of `Make`.
pub record Facts : Type 0 where
  pub text : Bytes
  pub command_text : Bytes
  pub kind : Bytes
  pub formula : Bytes
  pub managed_brew : Bool
  pub wildcard : Bool
  pub system : Bool
  pub bg_app : Bool

unfoldable pub managed : Env → Bytes → Bool
unfolding lookup
managed env formula =
    not (is_empty formula) && (elim (lookup formula env.brew_started) [ none ↦ false | some b ↦ b ])

unfoldable pub facts_of : {F : Type 0} → Listener F → Env → Bytes → Bool → Facts
unfolding to_lower join brew_formula managed has_wildcard is_background_app
facts_of l env kind system = record {
  text = to_lower (join (codes " ") (l.command ∷ l.command_line ∷ l.cwd ∷ []));
  command_text = to_lower (l.command ++ (codes " " ++ l.command_line));
  kind = kind;
  formula = brew_formula l.command_line;
  managed_brew = managed env (brew_formula l.command_line);
  wildcard = has_wildcard l.addrs;
  system = system;
  bg_app = is_background_app l;
}

-- the cases of `default` that follow the interpreter
unfoldable pub fallback : Facts → Rule
unfolding any_word any_contains
fallback f =
    if any_word f.text (codes "node" ∷ codes "npm" ∷ codes "pnpm" ∷ codes "yarn" ∷ codes "bun" ∷ [])
    then node
    else if any_word f.text (codes "python" ∷ codes "python3" ∷ [])
    then python
    else if any_contains f.text (
        codes "language_server"
        ∷ codes "language-server"
        ∷ codes "code helper"
        ∷ codes "antigravity"
        ∷ [])
    then editor
    else if not (is_empty f.formula)
    then brewed
    else if f.system || f.bg_app
    then owned
    else if f.wildcard
    then open_listener
    else plain

-- `default`
unfoldable pub by_interpreter : Bytes → Facts → Rule
unfolding interpreter_identity fallback
by_interpreter command_line f = elim (interpreter_identity command_line) [
  | none ↦ fallback f
  | some id ↦ interpreter id
]

-- the frameworks
unfoldable pub by_framework : Bytes → Facts → Rule
unfolding any_word any_contains by_interpreter
by_framework command_line f =
    if any_contains f.text (codes "uvicorn" ∷ codes "fastapi" ∷ [])
    then fastapi
    else if any_word f.text (codes "django" ∷ [])
        || any_contains f.text (codes "manage.py runserver" ∷ [])
    then django
    else if any_word f.text (codes "flask" ∷ [])
    then flask
    else if any_contains f.text (codes "mkdocs" ∷ [])
    then mkdocs
    else if any_word f.text (codes "vite" ∷ codes "next" ∷ codes "nuxt" ∷ codes "astro" ∷ [])
    then web
    else by_interpreter command_line f

-- The first case that holds.
unfoldable pub rule_of : {F : Type 0} → Listener F → Facts → Rule
unfolding is_docker_helper any_word any_contains contains str_eq by_framework
rule_of l f =
    if is_docker_helper l
    then docker_helper
    else if any_word f.command_text (codes "kubectl" ∷ [])
        && contains f.command_text (codes "port-forward")
    then kubectl
    else if any_word f.command_text (codes "cloudflared" ∷ [])
    then cloudflared
    else if contains f.command_text (codes "redis-server") || str_eq f.formula (codes "redis")
    then redis
    else if any_word f.command_text (codes "mongod" ∷ []) || contains f.formula (codes "mongodb")
    then mongodb
    else if any_contains f.command_text (codes "postgres" ∷ codes "postmaster" ∷ [])
        || str_eq f.formula (codes "postgresql")
    then postgres
    else if any_contains f.command_text (codes "mysql" ∷ codes "mariadb" ∷ [])
        || str_eq f.formula (codes "mysql")
        || str_eq f.formula (codes "mariadb")
    then mysql
    else if any_word f.text (codes "ollama" ∷ [])
    then ollama
    else by_framework l.command_line f
