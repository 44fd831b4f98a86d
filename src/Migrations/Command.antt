-- ===== src/Migrations/Command.antt =====
-- The migration command, src/database/migrations/migrate-cli.ts, on a disk of databases. What it
-- prints is kept as the data that its texts are made of.
use ms_gatgeway_llm.Base.{
  ℕ, suc, zero, ◌⊎◌, inl, inr, String, Bool, true, false, not, ◌||◌, Option, none, some, List, [],
  ◌∷◌, Dict, get, put, string_key, ◌==◌, filter, contains, if◌then◌else◌,
}
use ms_gatgeway_llm.Migrations.Runner.{
  Database, Directory, MigrationRunResult, RunError, list_migration_files, list_known_names, run,
}
use ms_gatgeway_llm.Migrations.Arguments.{
  ParsedArgs, no_args, parse_args, Environment, Host, ResolvedTarget, resolve_target, memory,
}

-- The databases by their paths.
abbrev pub Disk : Type 0 → Type 0
Disk D = Dict String (Database D)

pub data Report : Type 0 where
  help_text : Report
  usage : (unknown : List String) → Report
  failure : Report
  status_report : (applied : List String) → (pending : List String) → Report
  apply_report : (backup : Option String) → (result : MigrationRunResult) → Report

pub record CliResult : Type 0 where
  pub report : Report
  pub exit_code : ℕ

abbrev pub failure_result : CliResult
failure_result = record { report = failure; exit_code = 1 }

abbrev pub succeeded : Report → CliResult
succeeded r = record { report = r; exit_code = 0 }

-- The names `-2` to `-999`, until one is free.
unfoldable pub reserve_from : (ℕ → String) → (String → Bool) → (rounds : ℕ) → ℕ → Option String
reserve_from candidate exists zero n = none
reserve_from candidate exists (suc rounds) n =
    let next = reserve_from candidate exists rounds (suc n) in
    if exists (candidate n) then next else some (candidate n)

unfoldable pub reserve_backup_path : String → (ℕ → String) → (String → Bool) → Option String
reserve_backup_path first candidate exists =
    if exists first then reserve_from candidate exists 998 2 else some first

-- What surrounds the command: the directory, the SQL, the time, `sort` and ORDER BY, an empty
-- database, whether SQLite opens the file, and whether and where it writes a copy.
pub record Setting (D : Type 0) : Type 0 where
  pub directory : Directory
  pub exec : String → D → Option D
  pub recorded_at : ℕ
  pub sort : List String → List String
  pub by_name : List String → List String
  pub empty : D
  pub opens : Bool
  pub copies : Bool
  pub first_backup : String → String
  pub next_backup : String → ℕ → String

module _ {D : Type 0} (setting : Setting D) where
  open setting use {
    directory, exec, recorded_at, sort, by_name, empty, opens, copies, first_backup, next_backup,
  }

  abbrev pub exists_in : Disk D → String → Bool
  exists_in disk path = elim (get path disk) [ none ↦ false | some db ↦ true ]

  -- A path that is not there is a new, empty database; one in memory always is.
  unfoldable pub open_database : Disk D → String → Database D
  open_database disk path =
      let fresh : Database D = record { migrations = none; content = empty } in
      if path == memory then fresh else elim (get path disk) [ none ↦ fresh | some db ↦ db ]

  unfoldable pub save_database : Disk D → String → Database D → Disk D
  save_database disk path db = if path == memory then disk else put path db disk

  -- `listAppliedRecords`, without the times.
  unfoldable pub list_applied_records : Database D → List String
  list_applied_records db = by_name (list_known_names db)

  unfoldable pub status_of : List String → List String → CliResult
  status_of files applied =
      succeeded (status_report applied (filter (λ f. not (contains applied f)) files))

  -- A database in memory cannot be opened for reading only.
  unfoldable pub run_status : Disk D → String → CliResult
  run_status disk path = elim (list_migration_files sort directory) [
    | none ↦ failure_result
    | some files ↦ if path == memory then failure_result else elim (get path disk) [
      | none ↦ status_of files []
      | some db ↦ if opens then status_of files (list_applied_records db) else failure_result
    ]
  ]

  abbrev pub Step : Type 0
  Step = Disk D × CliResult

  unfoldable pub report_of : Option String → RunError ⊎ MigrationRunResult → CliResult
  report_of backup (inl e) = failure_result
  report_of backup (inr result) = succeeded (apply_report backup result)

  unfoldable pub finish : Disk D → String → Database D → Option String → Step
  finish disk path db backup =
      let ran = run exec directory recorded_at sort db in
      (save_database disk path ran.0, report_of backup ran.1)

  unfoldable pub finish_with_backup : Disk D → String → Database D → String → Step
  finish_with_backup disk path db backup =
      if copies then finish (put backup db disk) path db (some backup) else (disk, failure_result)

  unfoldable pub run_apply : Bool → Disk D → String → Step
  run_apply backup disk path = elim (list_migration_files sort directory) [
    | none ↦ (disk, failure_result)
    | some files ↦
        if not opens
        then (disk, failure_result)
        else let db = open_database disk path in
          if not backup
          then finish disk path db none
          else elim (reserve_backup_path (first_backup path) (next_backup path) (exists_in disk)) [
            | none ↦ (disk, failure_result)
            | some free ↦ finish_with_backup disk path db free
          ]
  ]

  unfoldable pub run_target : ParsedArgs → Disk D → ResolvedTarget → Step
  run_target args disk target =
      if args.status || args.dry_run
      then (disk, run_status disk target.db_path)
      else run_apply args.backup disk target.db_path

  abbrev pub main_parsed : Host → String → Bool → Environment → ParsedArgs → Disk D → Step
  main_parsed host cwd load_env env args disk =
      if args.help then (disk, succeeded help_text) else elim args.unknown [
        | a ∷ unknown ↦ (disk, record { report = usage (a ∷ unknown); exit_code = 2 })
        | [] ↦ elim (resolve_target host cwd load_env args.db env) [
          | none ↦ (disk, failure_result)
          | some target ↦ run_target args disk target
        ]
      ]

  unfoldable pub main : Host → String → Bool → Environment → List String → Disk D → Step
  unfolding parse_args
  main host cwd load_env env argv = main_parsed host cwd load_env env (parse_args argv no_args)
