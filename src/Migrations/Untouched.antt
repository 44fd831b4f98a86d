-- ===== src/Migrations/Untouched.antt =====
-- What the migration command of src/database/migrations/migrate-cli.ts leaves as it is.
use ms_gatgeway_llm.Base.{
  ℕ, suc, zero, ◌≡◌, ◌≢◌, ◌⊎◌, inl, inr, ap, ◌∙◌, String, Bool, true, false, ◌||◌, Option, none,
  some, List, get, put, get-put_ne, string_key, Option-cases, Bool-cases, arith,
}
use ms_gatgeway_llm.Migrations.Runner.{Database}
use ms_gatgeway_llm.Migrations.Arguments.{
  ParsedArgs, no_args, parse_args, Environment, Host, ResolvedTarget, resolve_target,
}
use ms_gatgeway_llm.Migrations.Command.{
  Disk, Setting, exists_in, open_database, save_database, reserve_from, reserve_backup_path, finish,
  finish_with_backup, run_apply, run_target, main_parsed, main,
}

reserve_from-free :
    (candidate : ℕ → String) (exists : String → Bool) (rounds n : ℕ) (path : String)
    → reserve_from candidate exists rounds n ≡ some path
    → exists path ≡ false
unfolding reserve_from
reserve_from-free candidate exists zero n path h = cc
reserve_from-free candidate exists (suc rounds) n path h =
    let ih = reserve_from-free candidate exists rounds (suc n) path in
    elim (Bool-cases (exists (candidate n))) [ inl e ↦ ground arith | inr e ↦ ground arith ]

-- The name of a backup is that of no file.
reserve_backup_path-free :
    (first : String) (candidate : ℕ → String) (exists : String → Bool) (path : String)
    → reserve_backup_path first candidate exists ≡ some path
    → exists path ≡ false
unfolding reserve_backup_path
reserve_backup_path-free first candidate exists path h =
    let k = reserve_from-free candidate exists 998 2 path in
    elim (Bool-cases (exists first)) [ inl e ↦ ground arith | inr e ↦ ground arith ]

-- Arguments that only ask.
abbrev pub only_asks : ParsedArgs → Bool
only_asks args = args.help || (args.status || args.dry_run)

module _ {D : Type 0} (setting : Setting D) (disk : Disk D) (path : String) (db : Database D)
    (there : get path disk ≡ some db) where
  save-keeps :
      (d : Disk D) (target : String) (other : Database D)
      → target ≢ path
      → get path d ≡ some db
      → get path (save_database setting d target other) ≡ some db
  unfolding save_database
  save-keeps d target other n h = let k = get-put_ne target path other d n in ground arith

  finish-keeps :
      (d : Disk D) (target : String) (other : Database D) (backup : Option String)
      → target ≢ path
      → get path d ≡ some db
      → get path (finish setting d target other backup).0 ≡ some db
  unfolding finish
  finish-keeps d target other backup n h = save-keeps d target _ n h

  taken : (free : String) → exists_in setting disk free ≡ false → free ≢ path
  taken free f e = let k = ap (λ p. get p disk) e ∙ there in ground arith

  backup-keeps :
      (target : String) (other : Database D) (free : String)
      → target ≢ path
      → free ≢ path
      → get path (finish_with_backup setting disk target other free).0 ≡ some db
  unfolding finish_with_backup
  backup-keeps target other free n ne =
      let k =
        finish-keeps (put free other disk) target other (some free) n
          (get-put_ne free path other disk ne ∙ there) in
      ground arith

  apply-keeps :
      (backup : Bool) (target : String)
      → target ≢ path
      → get path (run_apply setting backup disk target).0 ≡ some db
  unfolding run_apply
  apply-keeps backup target n =
      let other = open_database setting disk target in
      let plain = finish-keeps disk target other none n there in
      let first = setting.first_backup target in
      elim (Option-cases
        (reserve_backup_path first (setting.next_backup target) (exists_in setting disk))) [
          | inl e ↦ ground arith
          | inr (free, e) ↦
              let ne = taken free (
                reserve_backup_path-free first (setting.next_backup target) (exists_in setting disk)
                  free e) in
              let copied = backup-keeps target other free n ne in ground arith
        ]

  target-keeps :
      (args : ParsedArgs) (target : ResolvedTarget)
      → (only_asks args ≡ true) ⊎ (target.db_path ≢ path)
      → args.help ≡ false
      → get path (run_target setting args disk target).0 ≡ some db
  unfolding run_target
  target-keeps args target (inl a) h = ground arith
  target-keeps args target (inr n) h =
      let k = apply-keeps args.backup target.db_path n in ground arith

  parsed-keeps :
      (host : Host) (cwd : String) (load_env : Bool) (env : Environment) (args : ParsedArgs)
      → (only_asks args ≡ true)
        ⊎ ((target : ResolvedTarget)
            → resolve_target host cwd load_env args.db env ≡ some target
            → target.db_path ≢ path)
      → get path (main_parsed setting host cwd load_env env args disk).0 ≡ some db
  parsed-keeps host cwd load_env env args allowed =
      elim (Option-cases (resolve_target host cwd load_env args.db env)) [
        | inl e ↦ ground arith
        | inr (target, e) ↦
            let may : (only_asks args ≡ true) ⊎ (target.db_path ≢ path) = elim allowed [
              | inl a ↦ inl a
              | inr f ↦ inr (f target e)
            ] in
            let k = target-keeps args target may in ground arith
      ]

-- The command never changes a database that is there, by its migrations or by a backup, unless it is
-- the one that the target resolves to; and not that one either where the arguments ask for help, the
-- status or a dry run.
pub main-keeps :
    {D : Type 0} (setting : Setting D) (host : Host) (cwd : String) (load_env : Bool)
    (env : Environment) (argv : List String) (disk : Disk D) (path : String) (db : Database D)
    → get path disk ≡ some db
    → (only_asks (parse_args argv no_args) ≡ true)
      ⊎ ((target : ResolvedTarget)
          → resolve_target host cwd load_env (parse_args argv no_args).db env ≡ some target
          → target.db_path ≢ path)
    → get path (main setting host cwd load_env env argv disk).0 ≡ some db
unfolding main
main-keeps setting host cwd load_env env argv disk path db there allowed =
    parsed-keeps setting disk path db there host cwd load_env env (parse_args argv no_args) allowed
