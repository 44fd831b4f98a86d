-- ===== src/Migrations/Arguments.antt =====
-- The arguments of the migration command and the database that it targets, parseArgs and
-- resolveTarget of src/database/migrations/migrate-cli.ts. Node's path functions, dotenv and the
-- secrets of Doppler are arguments.
use Prim.Native.String.{◌++◌ as text_append}
use ms_gatgeway_llm.Base.{
  String, Bool, true, false, not, ◌||◌, ◌&&◌, Option, none, some, List, [], ◌∷◌, ◌++◌, string_key,
  ◌==◌, or_else, truthy, nat_eq, if◌then◌else◌,
}
use Prim.Native.Char.{code}
use mathlib.Core.Option

pub record ParsedArgs : Type 0 where
  pub positional : List String
  pub unknown : List String
  pub help : Bool
  pub status : Bool
  pub dry_run : Bool
  pub backup : Bool
  pub db : Option String

abbrev pub no_args : ParsedArgs
no_args = record {
  positional = [];
  unknown = [];
  help = false;
  status = false;
  dry_run = false;
  backup = false;
  db = none;
}

unfoldable pub starts_with_dash : String → Bool
starts_with_dash String.[] = false
starts_with_dash (String.◌∷◌ c s) = nat_eq (code c) b'-'

abbrev pub with_unknown : List String → ParsedArgs → ParsedArgs
with_unknown names out = record out { unknown = out.unknown ++ names }

-- An argument that takes no value.
unfoldable pub add_arg : String → ParsedArgs → ParsedArgs
unfolding starts_with_dash
add_arg a out =
    if a == "--"
    then out
    else if a == "--help" || a == "-h"
    then record out { help = true }
    else if a == "--status"
    then record out { status = true }
    else if a == "--dry-run"
    then record out { dry_run = true }
    else if a == "--backup"
    then record out { backup = true }
    else if starts_with_dash a
    then with_unknown (a ∷ []) out
    else record out { positional = out.positional ++ a ∷ [] }

-- `--db` and what comes after it.
unfoldable pub add_db : String → ParsedArgs → ParsedArgs
unfolding starts_with_dash
add_db value out =
    if starts_with_dash value
    then with_unknown ("--db" ∷ value ∷ []) out
    else record out { db = some value }

unfoldable pub parse_args : List String → ParsedArgs → ParsedArgs
unfolding add_arg add_db
parse_args [] out = out
parse_args (a ∷ []) out = if a == "--db" then with_unknown ("--db" ∷ []) out else add_arg a out
parse_args (a ∷ value ∷ argv) out =
    let next = parse_args (value ∷ argv) (add_arg a out) in
    let after = parse_args argv (add_db value out) in if a == "--db" then after else next

-- The variables that are read.
pub record Environment : Type 0 where
  pub database_path : Option String
  pub start_token : Option String

pub record SecretsProvenance : Type 0 where
  pub project : String
  pub config : String

-- Node's paths; the file `.env`, merged into variables that are not set; and Doppler, which throws, or
-- writes its secrets over the variables.
pub record Host : Type 0 where
  pub is_absolute : String → Bool
  pub resolve : String → String → String
  pub dotenv : Environment → Environment
  pub load_secrets : Environment → Option (SecretsProvenance × Environment)

abbrev pub default_database_path : String
default_database_path = "./data/ms-gateway.db"

abbrev pub memory : String
memory = ":memory:"

pub record ResolvedTarget : Type 0 where
  pub db_path : String
  pub provenance : String

-- `env.X !== undefined && env.X !== ''`.
abbrev pub is_given : Option String → Bool
is_given none = false
is_given (some s) = not (s == "")

abbrev pub same_value : Option String → Option String → Bool
same_value none none = true
same_value (some s) (some t) = s == t
same_value _ _ = false

abbrev pub is_defined : Option String → Bool
is_defined none = false
is_defined (some s) = true

module _ (host : Host) (cwd : String) where
  unfoldable pub resolve_database_path : Option String → Environment → String
  resolve_database_path db env =
      let raw = or_else db (or_else env.database_path default_database_path) in
      if raw == memory then memory else if host.is_absolute raw then raw else host.resolve cwd raw

  unfoldable pub local_provenance : Environment → Environment → String
  local_provenance shell env =
      if is_given shell.database_path
      then "shell"
      else if is_given env.database_path
      then ".env"
      else "default"

  abbrev pub doppler_label : SecretsProvenance → String
  doppler_label p = text_append "Doppler " (text_append p.project (text_append "/" p.config))

  -- With the local label, and the variables before and after Doppler.
  unfoldable pub doppler_target :
      String → Environment → SecretsProvenance × Environment → ResolvedTarget
  doppler_target local before (secrets, env) = record {
    db_path = resolve_database_path none env;
    provenance =
        if is_defined env.database_path && not (same_value env.database_path before.database_path)
        then doppler_label secrets
        else text_append (doppler_label secrets) (text_append " + " local);
  }

  -- `none` is the error that aborts the command.
  unfoldable pub resolve_target : Bool → Option String → Environment → Option ResolvedTarget
  resolve_target load_env (some db) shell =
      let env = if load_env then host.dotenv shell else shell in
      some (record { db_path = resolve_database_path (some db) env; provenance = "--db" })
  resolve_target load_env none shell =
      let env = if load_env then host.dotenv shell else shell in
      let local = local_provenance shell env in
      elim (truthy env.start_token) [
        | none ↦ some (record { db_path = resolve_database_path none env; provenance = local })
        | some token ↦ Option.map (doppler_target local env) (host.load_secrets env)
      ]
