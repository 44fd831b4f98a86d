-- ===== src/Migrations/Tests.antt =====
-- The migration command on a small disk, and the theorems at it.
use ms_gatgeway_llm.Base.{
  ◌≡◌, ◌≢◌, inl, inr, refl, String, true, Option, none, some, List, [], ◌∷◌, ◌++◌, get, put,
  string_key, ◌==◌, contains, if◌then◌else◌, arith, eq_iff,
}
use ms_gatgeway_llm.Migrations.Runner.{
  Database, Directory, MigrationRunResult, MigrationRow, schema, failed, ends_with,
  list_migration_files, ensure_schema, list_known_names, apply_migration, run_file, run_files, run,
}
use ms_gatgeway_llm.Migrations.Arguments.{
  no_args, parse_args, Environment, Host, ResolvedTarget, resolve_target, resolve_database_path,
  local_provenance, doppler_target,
}
use ms_gatgeway_llm.Migrations.Progress.{IsRun, run-IsRun}
use ms_gatgeway_llm.Migrations.Command.{
  Disk, Setting, status_report, apply_report, succeeded, usage, open_database, save_database,
  reserve_backup_path, reserve_from, list_applied_records, status_of, report_of, run_status, finish,
  finish_with_backup, run_apply, run_target, main,
}
use ms_gatgeway_llm.Migrations.Untouched.{main-keeps}
use ms_gatgeway_llm.Migrations.Reports.{run_status-run_apply}

-- SQL is kept as it was executed; "bad" throws.
abbrev execute : String → List String → Option (List String)
execute sql done = if sql == "bad" then none else some (done ++ sql ∷ [])

abbrev files : Directory
files = record {
  entries = some ("0001.sql" ∷ "0002.sql" ∷ "notes.md" ∷ "0003.sql" ∷ []);
  read = λ name. if name == "0003.sql" then some "bad" else some name;
}

abbrev setting : Setting (List String)
setting = record {
  directory = record files { read = λ name. some name };
  exec = execute;
  recorded_at = 7;
  sort = λ l. l;
  by_name = λ l. l;
  empty = [];
  opens = true;
  copies = true;
  first_backup = λ path. "backup.db";
  next_backup = λ path n. "backup-2.db";
}

abbrev row : MigrationRow
row = record { applied_at = 1; kind = schema }

abbrev started : Database (List String)
started = record { migrations = some (("0001.sql", row) ∷ []); content = "0001.sql" ∷ [] }

abbrev disk : Disk (List String)
disk = ("gateway.db", started) ∷ ("other.db", started) ∷ []

command : Unit {0}
unfolding get put contains ends_with list_migration_files ensure_schema list_known_names
    apply_migration run_file run_files run parse_args resolve_target resolve_database_path
    local_provenance doppler_target open_database save_database reserve_backup_path reserve_from
    list_applied_records status_of report_of run_status finish finish_with_backup run_apply
    run_target main
command = tt

-- The run stops at the third file, with the second kept.
stops : run execute files 7 (λ l. l) started ≡ (
  record {
    migrations =
        some (("0001.sql", row) ∷ ("0002.sql", record { applied_at = 7; kind = schema }) ∷ []);
    content = "0001.sql" ∷ "0002.sql" ∷ [];
  },
  inl (failed "0003.sql"),
)
unfolding command
stops = refl

run-IsRun_example :
    IsRun execute files 7
      ("0001.sql" ∷ "0002.sql" ∷ "0003.sql" ∷ [])
      started
      (run execute files 7 (λ l. l) started)
unfolding list_migration_files ends_with
run-IsRun_example =
    run-IsRun execute files 7 (λ l. l) ("0001.sql" ∷ "0002.sql" ∷ "0003.sql" ∷ []) started refl

abbrev host : Host
host = record {
  is_absolute = λ path. true;
  resolve = λ cwd path. path;
  dotenv = λ env. env;
  load_secrets = λ env. none;
}

abbrev env : Environment
env = record { database_path = some "gateway.db"; start_token = none }

abbrev with_backup : List String
with_backup = "--" ∷ "--backup" ∷ []

-- Doppler that cannot be asked aborts the command; an unknown flag is answered with the usage.
refusals :
    (resolve_target host "/" true none (record env { start_token = some "t" }) ≡ none)
    × (main setting host "/" true env ("--db" ∷ "--status" ∷ []) disk
        ≡ (disk, record { report = usage ("--db" ∷ "--status" ∷ []); exit_code = 2 }))
unfolding command
refusals = (refl, refl)

targets :
    (target : ResolvedTarget)
    → resolve_target host "/" true (parse_args with_backup no_args).db env ≡ some target
    → target.db_path ≢ "other.db"
unfolding command
targets target e n = ground (arith, e, n, eq_iff "gateway.db" "other.db")

main-keeps_example :
    get "other.db" (main setting host "/" true env with_backup disk).0 ≡ some started
unfolding get
main-keeps_example =
    main-keeps setting host "/" true env with_backup disk "other.db" started refl (inr targets)

abbrev after_run : Disk (List String)
after_run =
    (
      "gateway.db",
      record {
        migrations = some (
            ("0001.sql", row)
            ∷ ("0002.sql", record { applied_at = 7; kind = schema })
            ∷ ("0003.sql", record { applied_at = 7; kind = schema })
            ∷ []);
        content = "0001.sql" ∷ "0002.sql" ∷ "0003.sql" ∷ [];
      },
    )
    ∷ ("other.db", started)
    ∷ ("backup.db", started)
    ∷ []

abbrev result : MigrationRunResult
result = record { applied = "0002.sql" ∷ "0003.sql" ∷ []; skipped = "0001.sql" ∷ [] }

reports :
    run_status setting disk "gateway.db"
    ≡ succeeded (status_report ("0001.sql" ∷ []) ("0002.sql" ∷ "0003.sql" ∷ []))
unfolding command
reports = refl

runs :
    run_apply setting true disk "gateway.db"
    ≡ (after_run, succeeded (apply_report (some "backup.db") result))
unfolding command
runs = refl

run_status-run_apply_example :
    (result.applied ≡ "0002.sql" ∷ "0003.sql" ∷ [])
    × ((now_applied : List String) × (run_status setting after_run "gateway.db"
          ≡ succeeded (status_report now_applied [])))
run_status-run_apply_example =
    run_status-run_apply setting (λ names k. refl) true disk after_run "gateway.db"
      ("0001.sql" ∷ []) ("0002.sql" ∷ "0003.sql" ∷ []) (some "backup.db") result reports runs
