-- ===== src/Migrations/Progress.antt =====
-- How far a run of src/database/migrations/migration-runner.ts comes, and what it leaves behind.
use ms_gatgeway_llm.Base.{
  ℕ, ◌≡◌, ◌⊎◌, or_else, inl, inr, refl, sym, ap, ◌∙◌, String, Bool, true, false, not, Option, none,
  some, List, [], ◌∷◌, ◌++◌, append_assoc, append-nil, get, put, string_key, filter, contains,
  Option-cases, Bool-cases, arith, Dict, ◌==◌,
}
use ms_gatgeway_llm.Migrations.Runner.{
  Database, Directory, MigrationRunResult, MigrationRow, RunError, unreadable_directory,
  unreadable_file, failed, Run, rows, list_migration_files, list_known_names, ensure_schema,
  apply_migration, run_file, run_files, run, also_applied, also_skipped, keys, schema,
}

-- The files that are not recorded yet, and those that are.
abbrev pub pending : List String → List String → List String
pending known files = filter (λ f. not (contains known f)) files

abbrev pub recorded : List String → List String → List String
recorded known files = filter (contains known) files

module _ {D : Type 0} (exec : String → D → Option D) (directory : Directory) (recorded_at : ℕ) where
  abbrev pub row_of : MigrationRow
  row_of = record { applied_at = recorded_at; kind = schema }

  -- The file's SQL is executed on the content, and the file recorded last, with the time of the run.
  abbrev pub IsExecuted : String → String → Database D → Database D → Type 0
  IsExecuted name sql db next =
      (exec sql db.content ≡ some next.content)
      × (get name (rows db) ≡ none)
      × (next.migrations ≡ some (rows db ++ (name, row_of) ∷ []))

  -- The SQL throws, or the file is recorded already, so that the INSERT throws.
  abbrev pub CannotExecute : String → String → Database D → Type 0
  CannotExecute name sql db =
      (exec sql db.content ≡ none) ⊎ ((row : MigrationRow) × (get name (rows db) ≡ some row))

  -- One file after the other is read, executed and recorded, and nothing else happens.
  abbrev pub Progress : List String → Database D → Database D → Type 0
  Progress [] db after = db ≡ after
  Progress (name ∷ names) db after =
      (sql : String) × (next : Database D) × (directory.read name ≡ some sql)
      × IsExecuted name sql db next
      × Progress names next after

  -- Why a run stops before the names that are left.
  abbrev pub Stops : List String → Database D → RunError → Type 0
  Stops left after unreadable_directory = ⊥
  Stops left after (unreadable_file name) =
      (names : List String) × (left ≡ name ∷ names) × (directory.read name ≡ none)
  Stops left after (failed name) =
      (names : List String) × (sql : String) × (left ≡ name ∷ names)
      × (directory.read name ≡ some sql)
      × CannotExecute name sql after

  put-new :
      (k : String) (v : MigrationRow) (d : Dict String MigrationRow)
      → get k d ≡ none
      → put k v d ≡ d ++ (k, v) ∷ []
  unfolding get put
  put-new k v [] h = refl
  put-new k v ((j, w) ∷ d) h = elim (Bool-cases (j == k)) [
    | inl e ↦ ground arith
    | inr e ↦ let ih = put-new k v d in ground arith
  ]

  apply_migration-IsExecuted :
      (name sql : String) (db next : Database D)
      → apply_migration exec directory recorded_at name sql db ≡ some next
      → IsExecuted name sql db next
  unfolding apply_migration
  apply_migration-IsExecuted name sql db next h = elim (Option-cases (exec sql db.content)) [
    | inl e ↦ absurd (ground arith)
    | inr (content, e) ↦ elim (Option-cases (get name (rows db))) [
      | inl f ↦ let k = put-new name row_of (rows db) f in (ground arith, f, ground arith)
      | inr (row, f) ↦ absurd (ground arith)
    ]
  ]

  apply_migration-CannotExecute :
      (name sql : String) (db : Database D)
      → apply_migration exec directory recorded_at name sql db ≡ none
      → CannotExecute name sql db
  unfolding apply_migration
  apply_migration-CannotExecute name sql db h = elim (Option-cases (exec sql db.content)) [
    | inl e ↦ inl e
    | inr (content, e) ↦ elim (Option-cases (get name (rows db))) [
      | inl f ↦ absurd (ground arith)
      | inr (row, f) ↦ inr (row, f)
    ]
  ]

  -- A run over files, from a result so far.
  abbrev pub Ran :
      List String
      → List String
      → MigrationRunResult
      → Database D
      → Run exec directory recorded_at
      → Type 0
  Ran known files r db (after, inr result) =
      Progress (pending known files) db after
      × (result.applied ≡ r.applied ++ pending known files)
      × (result.skipped ≡ r.skipped ++ recorded known files)
  Ran known files r db (after, inl e) =
      (done : List String) × (left : List String) × (pending known files ≡ done ++ left)
      × Progress done db after
      × Stops left after e

  skips :
      (known : List String) (name : String) (files : List String) (r : MigrationRunResult)
      (db : Database D) (out : Run exec directory recorded_at)
      → contains known name ≡ true
      → Ran known files (also_skipped exec directory recorded_at name r) db out
      → Ran known (name ∷ files) r db out
  skips known name files r db (after, inr result) k (p, a, s) =
      rw k (p, a, s ∙ append_assoc r.skipped (name ∷ []) (recorded known files))
  skips known name files r db (after, inl e) k (done, left, split, p, stop) =
      rw k (done, left, split, p, stop)

  applies :
      (known : List String) (name sql : String) (files : List String) (r : MigrationRunResult)
      (db next : Database D) (out : Run exec directory recorded_at)
      → contains known name ≡ false
      → directory.read name ≡ some sql
      → IsExecuted name sql db next
      → Ran known files (also_applied exec directory recorded_at name r) next out
      → Ran known (name ∷ files) r db out
  applies known name sql files r db next (after, inr result) k e m (p, a, s) =
      rw k ((sql, next, e, m, p), a ∙ append_assoc r.applied (name ∷ []) (pending known files), s)
  applies known name sql files r db next (after, inl err) k e m (done, left, split, p, stop) =
      rw k (name ∷ done, left, ap (λ l. name ∷ l) split, (sql, next, e, m, p), stop)

  run_file-Ran :
      (known : List String) (name : String) (files : List String) (r : MigrationRunResult)
      (rest : Database D → Run exec directory recorded_at) (db : Database D)
      → contains known name ≡ false
      → ((next : Database D)
          → Ran known files (also_applied exec directory recorded_at name r) next (rest next))
      → Ran known (name ∷ files) r db (run_file exec directory recorded_at name rest db)
  unfolding run_file
  run_file-Ran known name files r rest db k ih = elim (Option-cases (directory.read name)) [
    | inl e ↦
        rw (e, run_file, k)
          ([], name ∷ pending known files, refl, refl, (pending known files, refl, e))
    | inr (sql, e) ↦ elim (Option-cases (apply_migration exec directory recorded_at name sql db)) [
      | inl m ↦
          rw (e, run_file, m, k)
            (
              [],
              name ∷ pending known files,
              refl,
              refl,
              (pending known files, sql, refl, e, apply_migration-CannotExecute name sql db m),
            )
      | inr (next, m) ↦
          rw (e, run_file, m)
            (applies known name sql files r db next (rest next) k e
              (apply_migration-IsExecuted name sql db next m) (ih next))
    ]
  ]

  run_files-Ran :
      (known files : List String) (r : MigrationRunResult) (db : Database D)
      → Ran known files r db (run_files exec directory recorded_at known files r db)
  unfolding run_files
  run_files-Ran known [] r db = (refl, sym (append-nil r.applied), sym (append-nil r.skipped))
  run_files-Ran known (name ∷ files) r db =
      go (contains known name) refl
        (run_files-Ran known files (also_skipped exec directory recorded_at name r) db)
        (run_files-Ran known files (also_applied exec directory recorded_at name r))
    where
      go :
          (b : Bool)
          → contains known name ≡ b
          → Ran known files (also_skipped exec directory recorded_at name r) db (
              run_files exec directory recorded_at known files
                (also_skipped exec directory recorded_at name r)
                db)
          → ((next : Database D)
              → Ran known files (also_applied exec directory recorded_at name r) next (
                  run_files exec directory recorded_at known files
                    (also_applied exec directory recorded_at name r)
                    next))
          → Ran known (name ∷ files) r db (elim b [
            | true ↦
                run_files exec directory recorded_at known files
                  (also_skipped exec directory recorded_at name r)
                  db
            | false ↦
                run_file exec directory recorded_at name
                  (run_files exec directory recorded_at known files
                    (also_applied exec directory recorded_at name r))
                  db
          ])
      go true k s a = skips known name files r db _ k s
      go false k s a = run_file-Ran known name files r _ db k a

  keys-append :
      (k : String) (v : MigrationRow) (d : Dict String MigrationRow)
      → keys (d ++ (k, v) ∷ []) ≡ keys d ++ k ∷ []
  keys-append k v [] = refl
  keys-append k v ((j, w) ∷ d) = ap (λ l. j ∷ l) (keys-append k v d)

  IsExecuted-names :
      (name sql : String) (db next : Database D)
      → IsExecuted name sql db next
      → list_known_names next ≡ list_known_names db ++ name ∷ []
  unfolding list_known_names
  IsExecuted-names name sql db next (e, f, m) =
      ap (λ o. keys (or_else o [])) m ∙ keys-append name row_of (rows db)

  Progress-names :
      (done : List String) (db after : Database D)
      → Progress done db after
      → list_known_names after ≡ list_known_names db ++ done
  Progress-names [] db after h = sym (append-nil (list_known_names db) ∙ ap list_known_names h)
  Progress-names (name ∷ done) db after (sql, next, e, m, p) =
      Progress-names done next after p
      ∙ ap (λ l. l ++ done) (IsExecuted-names name sql db next m)
      ∙ append_assoc (list_known_names db) (name ∷ []) done

  -- What a run over the directory's files, with the names that are recorded before it, leads to.
  abbrev pub IsRun : List String → Database D → Run exec directory recorded_at → Type 0
  IsRun files db (after, inr result) =
      Progress (pending (list_known_names db) files) (ensure_schema db) after
      × (result.applied ≡ pending (list_known_names db) files)
      × (result.skipped ≡ recorded (list_known_names db) files)
      × (list_known_names after ≡ list_known_names db ++ pending (list_known_names db) files)
  IsRun files db (after, inl e) =
      (done : List String) × (left : List String) × (pending (list_known_names db) files
        ≡ done ++ left)
      × Progress done (ensure_schema db) after
      × Stops left after e
      × (list_known_names after ≡ list_known_names db ++ done)

  Ran-IsRun :
      (files : List String) (db : Database D) (out : Run exec directory recorded_at)
      → Ran
          (list_known_names (ensure_schema db))
          files
          (record { applied = []; skipped = [] })
          (ensure_schema db)
          out
      → IsRun files db out
  unfolding ensure_schema list_known_names
  Ran-IsRun files db (after, inr result) (p, a, s) =
      (p, a, s, Progress-names _ (ensure_schema db) after p)
  Ran-IsRun files db (after, inl e) (done, left, split, p, stop) =
      (done, left, split, p, stop, Progress-names done (ensure_schema db) after p)

  -- Every run, of any migrations on any database, with the files of a directory that can be read: the
  -- files that are not recorded yet are taken one after the other, in the order of the listing. Each is
  -- read, its SQL executed on what the ones before left, and the file recorded after them; nothing else
  -- happens. If the run succeeds they all are, and they are what it answers as applied, the recorded
  -- ones as skipped; else it stops before the first that cannot be read, whose SQL throws or that is
  -- recorded already, with all before it kept and nothing of it. The names recorded after a run are
  -- those before and those of the files executed.
  pub run-IsRun :
      (sort : List String → List String) (files : List String) (db : Database D)
      → list_migration_files sort directory ≡ some files
      → IsRun files db (run exec directory recorded_at sort db)
  unfolding run
  run-IsRun sort files db e =
      rw (e, run)
        (Ran-IsRun files db _
          (run_files-Ran (list_known_names (ensure_schema db)) files _ (ensure_schema db)))
