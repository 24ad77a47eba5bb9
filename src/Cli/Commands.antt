-- ===== src/Cli/Commands.antt =====
-- The subcommands of cmd/imapsync/db.go that change the database.
use imapsync.Base.{ℕ, Bool, true, false, ◌&&◌, not, Option, [], ◌∷◌, ◌++◌, if◌then◌else◌}
use imapsync.Base.Int.{pos}
use imapsync.Base.Text.{Text, text, is_empty}
use imapsync.Base.Time.{decimal}
use imapsync.Base.Result.{Error, Result, ok, err, errorf}
use imapsync.Config.{FolderPair, Config}
use imapsync.Config.Load.{load_entities_only}
use imapsync.Store.Tables.{Store}
use imapsync.Store.Users.{
  upsert_user, upsert_folder_pair, delete_user, delete_folder_pair, import_config,
}
use imapsync.Store.Runs.{resume_user, forget_user, vacuum}
use imapsync.Cli.{Outcome, failed, reporting, concat, newline}
use imapsync.Cli.Csv.{Reader, import_folders_csv, import_users_csv}

pub record AddUserFlags : Type 0 where
  pub name : Text
  pub a : Text
  pub b : Text
  pub path_a : Text
  pub path_b : Text
  pub disabled : Bool

-- `-users` and `-folders`
pub record CsvFlags : Type 0 where
  pub users : Text
  pub folders : Text

abbrev bool_text : Bool → Text
bool_text true = text "true"
bool_text false = text "false"

-- `quote` is `%q`.
module _ (quote : Text → Text) where
  unfoldable pub db_add_user : Option Error → AddUserFlags → Store → Outcome
  unfolding reporting
  db_add_user fault f s =
      reporting
        (concat (
          text "user "
          ∷ quote f.name
          ∷ text " saved (enabled="
          ∷ bool_text (not f.disabled)
          ∷ text ")"
          ∷ newline
          ∷ []))
        (upsert_user fault
          (record {
            name = f.name;
            user_a = f.a;
            user_b = f.b;
            path_a = f.path_a;
            path_b = f.path_b;
          })
          (not f.disabled) s)

  pair_line : FolderPair → Text → Text
  pair_line fp done =
      concat (text "folder pair " ∷ quote fp.a ∷ text "/" ∷ quote fp.b ∷ done ∷ newline ∷ [])

  unfoldable pub db_add_folder : Option Error → FolderPair → Store → Outcome
  unfolding pair_line reporting
  db_add_folder fault fp s =
      reporting (pair_line fp (text " saved")) (upsert_folder_pair fault fp s)

  unfoldable pub db_remove_folder : Option Error → FolderPair → Store → Outcome
  unfolding pair_line reporting
  db_remove_folder fault fp s =
      reporting (pair_line fp (text " removed")) (delete_folder_pair fault fp s)

  user_line : Text → Text → Text → Text
  user_line before name after = concat (before ∷ quote name ∷ after ∷ newline ∷ [])

  -- The user is removed first. When the state cannot be cleared after that, the error is returned
  -- and the state stays.
  unfoldable pub db_remove_user : Option Error → Option Error → Text → Store → Outcome
  unfolding user_line reporting
  db_remove_user deleting forgetting name s =
      let (deleted, s') = delete_user deleting name s in
      elim deleted [
        | err why ↦ failed why s'
        | ok _ ↦
            reporting
              (user_line (text "user ") name (text " removed (along with its cache and history)"))
              (forget_user forgetting name s')
      ]

  unfoldable pub db_resume_user : Option Error → Text → Store → Outcome
  unfolding user_line reporting
  db_resume_user fault name s =
      reporting
        (user_line (text "error streak for user ") name
          (text " cleared, sync resumes on the next cycle"))
        (resume_user fault name s)

  unfoldable pub db_forget_user : Option Error → Text → Store → Outcome
  unfolding user_line reporting
  db_forget_user fault name s =
      reporting
        (user_line (text "state for user ") name
          (text " reset (cache, status, history); the next cycle starts syncing from scratch"))
        (forget_user fault name s)

unfoldable pub db_vacuum : Option Error → Store → Outcome
unfolding reporting
db_vacuum fault s = reporting (text "VACUUM done" ++ newline) (vacuum fault s)

-- `decode` reads the YAML file at a path.
unfoldable pub db_import_yaml :
    (Text → Result Config) → (ℕ → Option Error) → (ℕ → Option Error) → Text → Store → Outcome
db_import_yaml decode folder_faults user_faults path s =
    if is_empty path
    then failed (errorf (text "-config is not set")) s
    else elim (load_entities_only decode path) [
      | err why ↦ failed why s
      | ok cfg ↦
          let (imported, s') = import_config folder_faults user_faults cfg s in
          reporting
            (concat (
              text "imported from "
              ∷ path
              ∷ text ": folder pairs="
              ∷ decimal (pos imported.folders)
              ∷ text ", users="
              ∷ decimal (pos imported.users)
              ∷ newline
              ∷ []))
            (imported.outcome, s')
    ]

count_line : Text → ℕ → Text
count_line what n = concat (what ∷ decimal (pos n) ∷ newline ∷ [])

-- What is printed before a later failure stays printed.
abbrev pub after_printing : Text → Outcome → Outcome
after_printing before o = record o { printed = before ++ o.printed }

module _ (fold lower : ℕ → ℕ) (read : Reader) where
  unfoldable pub import_folders_flag : (ℕ → Option Error) → Text → Store → Outcome
  unfolding reporting count_line
  import_folders_flag faults path s =
      if is_empty path
      then record { result = ok tt; printed = []; store = s }
      else (let ((outcome, n), s') = import_folders_csv fold read faults path s in
          reporting (count_line (text "folder pairs imported: ") n) (outcome, s'))

  unfoldable pub import_users_flag : (ℕ → Option Error) → Text → Store → Outcome
  unfolding reporting count_line
  import_users_flag faults path s =
      if is_empty path
      then record { result = ok tt; printed = []; store = s }
      else (let ((outcome, n), s') = import_users_csv fold lower read faults path s in
          reporting (count_line (text "users imported: ") n) (outcome, s'))

  -- The folder pairs come first; when they cannot all be imported the users are left alone.
  unfoldable pub db_import_csv :
      (ℕ → Option Error) → (ℕ → Option Error) → CsvFlags → Store → Outcome
  unfolding import_users_flag import_folders_flag
  db_import_csv folder_faults user_faults f s =
      if is_empty f.users && is_empty f.folders
      then failed (errorf (text "at least one of -users / -folders is required")) s
      else (let first = import_folders_flag folder_faults f.folders s in
          let second = import_users_flag user_faults f.users first.store in
          elim first.result [ err why ↦ first | ok _ ↦ after_printing first.printed second ])
