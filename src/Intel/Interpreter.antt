-- ===== src/Intel/Interpreter.antt =====
-- intel/intel.go: the module or the script that an interpreter runs.
use le_cli.Prelude.{
  Bytes, codes, has_prefix, str_eq, is_empty, join, length, drop, Bool, true, false, ◌&&◌, ◌||◌,
  within, List, [], ◌∷◌, ◌++◌, Option, none, some, if◌then◌else◌, ◌==◌,
}
use le_cli.Prelude.Int.{ℤ, pos}
use le_cli.Prelude.Letters.{to_lower, base}
use le_cli.Prelude.Search.{any_suffix}
use le_cli.Prelude.Space.{fields}
use le_cli.Prelude.Utf8.{lit}

-- `interpID`
pub record InterpId : Type 0 where
  pub title : Bytes
  pub explanation : Bytes
  pub restart : Bytes
  pub kind : Bytes
  pub confidence : ℤ

is_version : Bytes → Bool
is_version [] = true
is_version (c ∷ s) = (within b'0' b'9' c || c == b'.') && is_version s

-- `versionedName`
unfoldable pub versioned_name : Bytes → Bytes → Bool
unfolding has_prefix is_version
versioned_name b name = has_prefix b name && is_version (drop (length name) b)

one_of : Bytes → List Bytes → Bool
unfolding str_eq
one_of b [] = false
one_of b (x ∷ xs) = str_eq b x || one_of b xs

-- `isInterpreter`
unfoldable pub is_interpreter : Bytes → Bool
unfolding to_lower base one_of versioned_name
is_interpreter token =
    let b = to_lower (base token) in
    one_of b (codes "node" ∷ codes "deno" ∷ codes "bun" ∷ codes "py" ∷ [])
    || versioned_name b (codes "python")
    || versioned_name b (codes "ruby")

-- `canonicalInterp`
unfoldable pub canonical_interp : Bytes → Bytes
unfolding to_lower base has_prefix str_eq
canonical_interp token =
    let b = to_lower (base token) in
    if has_prefix b (codes "python") || str_eq b (codes "py")
    then codes "python3"
    else if has_prefix b (codes "ruby")
    then codes "ruby"
    else b

-- `prettyModule`
unfoldable pub pretty_module : Bytes → Bytes
unfolding one_of
pretty_module m =
    if one_of m (codes "http.server" ∷ codes "SimpleHTTPServer" ∷ [])
    then codes "http.server"
    else if one_of m (codes "uvicorn" ∷ [])
    then codes "Uvicorn"
    else if one_of m (codes "gunicorn" ∷ [])
    then codes "Gunicorn"
    else if one_of m (codes "flask" ∷ [])
    then codes "Flask"
    else if one_of m (codes "django" ∷ [])
    then codes "Django"
    else if one_of m (codes "streamlit" ∷ [])
    then codes "Streamlit"
    else if one_of m (codes "jupyter" ∷ [])
    then codes "Jupyter"
    else if one_of m (codes "fastapi" ∷ [])
    then codes "FastAPI"
    else m

-- `moduleExplain`
unfoldable pub module_explain : Bytes → Bytes → Bytes
unfolding one_of lit
module_explain m interp =
    if one_of m (codes "http.server" ∷ codes "SimpleHTTPServer" ∷ [])
    then lit "Python's built-in static file server, serving the working folder over HTTP."
    else if one_of m (codes "uvicorn" ∷ [])
    then lit "ASGI server commonly running FastAPI or Starlette apps."
    else if one_of m (codes "gunicorn" ∷ [])
    then lit "Production WSGI HTTP server for Python web apps."
    else if one_of m (codes "streamlit" ∷ [])
    then lit "Streamlit dashboard running locally."
    else if one_of m (codes "jupyter" ∷ [])
    then lit "Jupyter notebook or lab server."
    else interp ++ (lit " module `" ++ (m ++ lit "` running locally."))

-- `tail`, of the tokens that are left
unfoldable pub tail : List Bytes → Bytes
unfolding join
tail [] = []
tail (t ∷ ts) = codes " " ++ join (codes " ") (t ∷ ts)

runs_module : Bytes → Bytes → Bytes → List Bytes → InterpId
unfolding pretty_module module_explain tail
runs_module interp kind m more = record {
  title = pretty_module m;
  explanation = module_explain m interp;
  restart = interp ++ (codes " -m " ++ (m ++ tail more));
  kind = kind;
  confidence = pos 84;
}

runs_script : Bytes → Bytes → Bytes → List Bytes → InterpId
unfolding base tail lit
runs_script interp kind t more = record {
  title = base t;
  explanation = lit "Local script `" ++ (base t ++ lit "` listening on a port.");
  restart = interp ++ (codes " " ++ (t ++ tail more));
  kind = kind;
  confidence = pos 82;
}

abbrev script_suffixes : List Bytes
script_suffixes = codes ".py" ∷ codes ".rb" ∷ codes ".mjs" ∷ codes ".js" ∷ codes ".ts" ∷ []

-- What a token says that is no `-m` with a module behind it.
token : Bytes → Bytes → Bytes → List Bytes → Option InterpId → Option InterpId
unfolding any_suffix to_lower runs_script str_eq
token interp kind t more rest =
    if any_suffix (to_lower t) script_suffixes
    then some (runs_script interp kind t more)
    else if str_eq t (codes "-c")
    then none
    else rest

-- The second loop.
unfoldable pub scan_tokens : Bytes → Bytes → List Bytes → Option InterpId
unfolding token runs_module str_eq
scan_tokens interp kind [] = none
scan_tokens interp kind (t ∷ []) = token interp kind t [] none
scan_tokens interp kind (t ∷ (m ∷ more)) =
    let rest = scan_tokens interp kind (m ∷ more) in
    if str_eq t (codes "-m")
    then some (runs_module interp kind m more)
    else token interp kind t (m ∷ more) rest

interp_kind : Bytes → Bytes
unfolding has_prefix str_eq
interp_kind interp =
    if has_prefix interp (codes "python")
    then codes "python"
    else if str_eq interp (codes "ruby")
    then codes "other"
    else codes "node"

-- The first loop: the first interpreter, and the second loop behind it.
unfoldable pub from_interpreter : List Bytes → Option InterpId
unfolding is_interpreter canonical_interp interp_kind scan_tokens
from_interpreter [] = none
from_interpreter (t ∷ ts) =
    let rest = from_interpreter ts in
    let interp = canonical_interp t in
    if is_interpreter t then scan_tokens interp (interp_kind interp) ts else rest

-- `interpreterIdentity`
unfoldable pub interpreter_identity : Bytes → Option InterpId
unfolding fields from_interpreter
interpreter_identity cmd = if is_empty cmd then none else from_interpreter (fields cmd)
