-- ===== src/Migrations/Reports.antt =====
-- What `--status` and `--dry-run` of src/database/migrations/migrate-cli.ts say, and what a run then does.
use ms_gatgeway_llm.Base.{
  ◌≡◌, inl, inr, refl, sym, ap, ◌∙◌, String, Bool, true, false, not, Option, none, some, List, [],
  ◌++◌, get, put, get-put_self, string_key, ◌==◌, filter-ext, filter-of_none, contains,
  contains-append, contains-filter, all-contained, Option-cases, Bool-cases, arith, subst,
}
use ms_gatgeway_llm.Migrations.Runner.{
  Database, MigrationRunResult, Run, list_migration_files, list_known_names, run,
}
use ms_gatgeway_llm.Migrations.Arguments.{memory}
use ms_gatgeway_llm.Migrations.Progress.{pending, IsRun, run-IsRun}
use ms_gatgeway_llm.Migrations.Command.{
  Disk, Setting, status_report, apply_report, succeeded, Step, open_database, save_database,
  reserve_backup_path, list_applied_records, status_of, report_of, run_status, finish,
  finish_with_backup, run_apply, exists_in,
}

-- After the pending files are recorded too, none is pending.
pending-none : (known files : List String) → pending (known ++ pending known files) files ≡ []
pending-none known files =
    filter-of_none (λ f. not (contains (known ++ pending known files) f)) files
      (all-contained _ files (λ k m.
        let a = contains-append known (pending known files) k in
        let b = contains-filter (λ f. not (contains known f)) files k in ground arith))

module _ {D : Type 0} (setting : Setting D)
    (by_name_law : (names : List String) (k : String)
      → contains (setting.by_name names) k ≡ contains names k) where
  open setting use {directory, exec, recorded_at, sort}

  abbrev names : Disk D → String → List String
  names disk path = list_known_names (open_database setting disk path)

  status_of-pending :
      (files known applied : List String)
      → ((k : String) → contains applied k ≡ contains known k)
      → status_of setting files applied ≡ succeeded (status_report applied (pending known files))
  unfolding status_of
  status_of-pending files known applied h =
      ap (λ l. succeeded (status_report applied l)) (filter-ext _ _ files (λ f. ap not (h f)))

  applied_records :
      (db : Database D) (k : String)
      → contains (list_applied_records setting db) k ≡ contains (list_known_names db) k
  unfolding list_applied_records
  applied_records db k = by_name_law (list_known_names db) k

  run_status_lem :
      (disk : Disk D) (path : String) (applied left : List String)
      → run_status setting disk path ≡ succeeded (status_report applied left)
      → (files : List String) × (list_migration_files sort directory ≡ some files)
        × ((path == memory) ≡ false)
        × (left ≡ pending (names disk path) files)
  unfolding run_status open_database list_known_names
  run_status_lem disk path applied left h =
      elim (Option-cases (list_migration_files sort directory)) [
        | inl e ↦ ground arith
        | inr (files, e) ↦ elim (Option-cases (get path disk)) [
          | inl m ↦
              let s = status_of-pending files [] [] (λ k. refl) in
              (files, e, ground arith, ground arith)
          | inr (db, m) ↦
              let s =
                status_of-pending files (list_known_names db) (list_applied_records setting db)
                  (applied_records db) in
              (files, e, ground arith, ground arith)
        ]
      ]

  -- A run of the command that succeeds ran the migrations on the database, and stored it.
  abbrev Applied : Disk D → String → Disk D → MigrationRunResult → Type 0
  Applied disk path after result =
      (d : Disk D) × (db : Database D) × (run exec directory recorded_at sort
          (open_database setting disk path)
        ≡ (db, inr result))
      × (after ≡ save_database setting d path db)

  finish_lem :
      (disk d : Disk D) (path : String) (backup noted : Option String) (after : Disk D)
      (result : MigrationRunResult)
      → finish setting d path (open_database setting disk path) backup
        ≡ (after, succeeded (apply_report noted result))
      → Applied disk path after result
  unfolding finish report_of
  finish_lem disk d path backup noted after result =
      go (run exec directory recorded_at sort (open_database setting disk path)) refl
    where
      go :
          (r : Run exec directory recorded_at)
          → run exec directory recorded_at sort (open_database setting disk path) ≡ r
          → ◌≡◌ {A = Step setting}
              (save_database setting d path r.0, report_of setting backup r.1)
              (after, succeeded (apply_report noted result))
          → Applied disk path after result
      go (db, inl e) k h = ground arith
      go (db, inr got) k h =
          let same : got ≡ result = ground arith in
          (d, db, k ∙ ap (λ z. (db, inr z)) same, sym (ap (λ z. z.0) h))

  run_apply_lem :
      (backup : Bool) (disk after : Disk D) (path : String) (noted : Option String)
      (result : MigrationRunResult)
      → run_apply setting backup disk path ≡ (after, succeeded (apply_report noted result))
      → (setting.opens ≡ true) × Applied disk path after result
  unfolding run_apply finish_with_backup
  run_apply_lem backup disk after path noted result h =
      let db = open_database setting disk path in
      elim (Option-cases (list_migration_files sort directory)) [
        | inl e ↦ ground arith
        | inr (files, e) ↦ elim (Bool-cases backup) [
          | inr b ↦
              let f : finish setting disk path db none
                  ≡ (after, succeeded (apply_report noted result)) =
                ground arith in
              (ground arith, finish_lem disk disk path none noted after result f)
          | inl b ↦
              elim (Option-cases (
                reserve_backup_path (setting.first_backup path) (setting.next_backup path)
                  (exists_in setting disk))) [
                    | inl n ↦ ground arith
                    | inr (free, n) ↦
                        let f : finish setting (put free db disk) path db (some free)
                            ≡ (after, succeeded (apply_report noted result)) =
                          ground arith in
                        (
                          ground arith,
                          finish_lem disk (put free db disk) path (some free) noted after result f,
                        )
                  ]
        ]
      ]

  stored :
      (d : Disk D) (path : String) (db : Database D)
      → (path == memory) ≡ false
      → get path (save_database setting d path db) ≡ some db
  unfolding save_database
  stored d path db m = let k = get-put_self path db d in ground arith

  reported :
      (disk : Disk D) (path : String) (files : List String) (db : Database D)
      → list_migration_files sort directory ≡ some files
      → (path == memory) ≡ false
      → setting.opens ≡ true
      → get path disk ≡ some db
      → run_status setting disk path
        ≡ succeeded
            (status_report (list_applied_records setting db) (pending (list_known_names db) files))
  unfolding run_status
  reported disk path files db e m o there =
      let s =
        status_of-pending files (list_known_names db) (list_applied_records setting db)
          (applied_records db) in
      ground arith

  -- The command's dry run tells what its run does: on the same disk, and whether or not it makes a
  -- backup, a run that succeeds applies exactly the files that the report has as pending, in its order;
  -- and after it the report has none.
  pub run_status-run_apply :
      (backup : Bool) (disk after : Disk D) (path : String) (applied left : List String)
      (noted : Option String) (result : MigrationRunResult)
      → run_status setting disk path ≡ succeeded (status_report applied left)
      → run_apply setting backup disk path ≡ (after, succeeded (apply_report noted result))
      → (result.applied ≡ left)
        × ((now_applied : List String) × (run_status setting after path
              ≡ succeeded (status_report now_applied [])))
  run_status-run_apply backup disk after path applied left noted result h k =
      let (files, e, m, l) = run_status_lem disk path applied left h in
      let (o, (d, db, r, w)) = run_apply_lem backup disk after path noted result k in
      let (p, a, s, n) =
        subst (IsRun exec directory recorded_at files (open_database setting disk path)) r
          (run-IsRun exec directory recorded_at sort files (open_database setting disk path) e) in
      let none_left : pending (list_known_names db) files ≡ [] =
        ap (λ ks. pending ks files) n ∙ pending-none (names disk path) files in
      let there = ap (get path) w ∙ stored d path db m in
      (
        a ∙ sym l,
        (
          list_applied_records setting db,
          reported after path files db e m o there
              ∙ ap (λ z. succeeded (status_report (list_applied_records setting db) z)) none_left,
        ),
      )
