-- ===== src/Migrations/Runner.antt =====
-- The migrations of the database, src/database/migrations/migration-runner.ts. What a migration's SQL
-- does is an argument: it answers `none` where it throws, and does not touch `_migrations`. So are the
-- directory and the order of JavaScript's `sort`.
use ms_gatgeway_llm.Base.{
  ℕ, ◌⊎◌, inl, inr, String, Bool, true, false, ◌||◌, Option, none, some, List, [], ◌∷◌, ◌++◌, Dict,
  get, put, string_key, ◌==◌, filter, contains, or_else,
}
use mathlib.Core.Option

pub data MigrationKind : Type 0 where
  schema : MigrationKind
  seed : MigrationKind

pub record MigrationRow : Type 0 where
  pub applied_at : ℕ
  pub kind : MigrationKind

-- A database before its first migration has no table `_migrations`.
pub record Database (D : Type 0) : Type 0 where
  pub migrations : Option (Dict String MigrationRow)
  pub content : D

-- `none` where Node cannot read the directory, or a file of it.
pub record Directory : Type 0 where
  pub entries : Option (List String)
  pub read : String → Option String

pub record MigrationRunResult : Type 0 where
  pub applied : List String
  pub skipped : List String

pub data RunError : Type 0 where
  unreadable_directory : RunError
  unreadable_file : (name : String) → RunError
  failed : (name : String) → RunError

unfoldable pub ends_with : String → String → Bool
ends_with suffix String.[] = suffix == ""
ends_with suffix (String.◌∷◌ c s) = suffix == String.◌∷◌ c s || ends_with suffix s

abbrev pub keys {ℓ κ} : {K : Type ℓ} {V : Type κ} → Dict K V → List K
keys [] = []
keys ((k, v) ∷ d) = k ∷ keys d

-- `listMigrationFiles`.
unfoldable pub list_migration_files : (List String → List String) → Directory → Option (List String)
list_migration_files sort directory =
    Option.map (λ entries. sort (filter (ends_with ".sql") entries)) directory.entries

module _ {D : Type 0} where
  abbrev pub rows : Database D → Dict String MigrationRow
  rows db = or_else db.migrations []

  unfoldable pub ensure_schema : Database D → Database D
  ensure_schema db = record db { migrations = some (rows db) }

  unfoldable pub list_known_names : Database D → List String
  list_known_names db = keys (rows db)

  module _ (exec : String → D → Option D) (directory : Directory) (recorded_at : ℕ) where
    -- INSERT throws where the name is there.
    abbrev pub insert_record : String → D → Database D → Option (Database D)
    insert_record name content db = elim (get name (rows db)) [
      | some row ↦ none
      | none ↦ some (record {
        content = content;
        migrations = some (put name (record { applied_at = recorded_at; kind = schema }) (rows db));
      })
    ]

    -- The transaction: all of it, or nothing.
    unfoldable pub apply_migration : String → String → Database D → Option (Database D)
    apply_migration name sql db = elim (exec sql db.content) [
      | none ↦ none
      | some content ↦ insert_record name content db
    ]

    abbrev pub Run : Type 0
    Run = Database D × (RunError ⊎ MigrationRunResult)

    unfoldable pub run_file : String → (Database D → Run) → Database D → Run
    run_file name rest db = elim (directory.read name) [
      | none ↦ (db, inl (unreadable_file name))
      | some sql ↦ elim (apply_migration name sql db) [
        | none ↦ (db, inl (failed name))
        | some after ↦ rest after
      ]
    ]

    abbrev pub also_skipped : String → MigrationRunResult → MigrationRunResult
    also_skipped name r = record r { skipped = r.skipped ++ name ∷ [] }

    abbrev pub also_applied : String → MigrationRunResult → MigrationRunResult
    also_applied name r = record r { applied = r.applied ++ name ∷ [] }

    -- The loop over the files; the names known are those from before it.
    unfoldable pub run_files : List String → List String → MigrationRunResult → Database D → Run
    run_files known [] r db = (db, inr r)
    run_files known (name ∷ files) r db = elim (contains known name) [
      | true ↦ run_files known files (also_skipped name r) db
      | false ↦ run_file name (run_files known files (also_applied name r)) db
    ]

    unfoldable pub run : (List String → List String) → Database D → Run
    run sort db =
        let ready = ensure_schema db in
        elim (list_migration_files sort directory) [
          | none ↦ (ready, inl unreadable_directory)
          | some files ↦
              run_files (list_known_names ready) files (record { applied = []; skipped = [] }) ready
        ]
