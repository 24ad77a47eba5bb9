-- ===== src/Cli/Steps.antt =====
-- What the subcommands can make of the lists of users and folder pairs, one after the other.
use imapsync.Base.{◌≡◌, refl, ℕ, ◌&&◌, Option, Bool-cases, inl, inr}
use imapsync.Base.Text.{Text, is_empty}
use imapsync.Base.Dict
use imapsync.Base.Result.{Error, Result, ok, err}
use imapsync.Config.{FolderPair, Config}
use imapsync.Config.Load.{load_entities_only}
use imapsync.Store.Tables.{Store, new_store}
use imapsync.Store.Users.{delete_user}
use imapsync.Store.Valid.Imports.{import_config-IsValid}
use imapsync.Store.Valid.{
  IsValid, upsert_user-IsValid, upsert_folder_pair-IsValid, delete_user-IsValid,
  delete_folder_pair-IsValid, resume_user-IsValid, forget_user-IsValid, vacuum-IsValid,
}
use imapsync.Cli.{Outcome, reporting}
use imapsync.Cli.Csv.{Reader}
use imapsync.Cli.Commands.{
  AddUserFlags, CsvFlags, db_add_user, db_add_folder, db_remove_user, db_remove_folder,
  db_resume_user, db_forget_user, db_vacuum, db_import_yaml, db_import_csv, import_users_flag,
  after_printing, import_folders_flag,
}
use imapsync.Cli.Csv.Valid.{import_folders_csv-IsValid, import_users_csv-IsValid}

reporting_store :
    (message : Text) (p : Result (Unit {0}) × Store) → (reporting message p).store ≡ p.1
unfolding reporting
reporting_store message (ok _, s) = refl
reporting_store message (err why, s) = refl

-- One subcommand on the tables, whatever its flags, and whatever the database and the files give.
pub data CommandStep : Store → Store → Type 0 where
  add_user :
      (quote : Text → Text) (fault : Option Error) (f : AddUserFlags) (s : Store)
      → CommandStep s (db_add_user quote fault f s).store
  add_folder :
      (quote : Text → Text) (fault : Option Error) (fp : FolderPair) (s : Store)
      → CommandStep s (db_add_folder quote fault fp s).store
  remove_user :
      (quote : Text → Text) (deleting forgetting : Option Error) (name : Text) (s : Store)
      → CommandStep s (db_remove_user quote deleting forgetting name s).store
  remove_folder :
      (quote : Text → Text) (fault : Option Error) (fp : FolderPair) (s : Store)
      → CommandStep s (db_remove_folder quote fault fp s).store
  resume_user :
      (quote : Text → Text) (fault : Option Error) (name : Text) (s : Store)
      → CommandStep s (db_resume_user quote fault name s).store
  forget_user :
      (quote : Text → Text) (fault : Option Error) (name : Text) (s : Store)
      → CommandStep s (db_forget_user quote fault name s).store
  vacuum : (fault : Option Error) (s : Store) → CommandStep s (db_vacuum fault s).store
  import_yaml :
      (decode : Text → Result Config) (folder_faults user_faults : ℕ → Option Error) (path : Text)
      (s : Store)
      → CommandStep s (db_import_yaml decode folder_faults user_faults path s).store
  import_csv :
      (fold lower : ℕ → ℕ) (read : Reader) (folder_faults user_faults : ℕ → Option Error)
      (f : CsvFlags) (s : Store)
      → CommandStep s (db_import_csv fold lower read folder_faults user_faults f s).store

import_folders_flag-IsValid :
    (fold lower : ℕ → ℕ) (read : Reader) (faults : ℕ → Option Error) (path : Text) (s : Store)
    → IsValid s
    → IsValid (import_folders_flag fold lower read faults path s).store
unfolding import_folders_flag
import_folders_flag-IsValid fold lower read faults path s valid =
    elim (Bool-cases (is_empty path)) [
      | inl empty ↦ rw (import_folders_flag, empty) valid
      | inr given ↦
          rw (import_folders_flag, given, reporting_store)
            (import_folders_csv-IsValid fold read faults path s valid)
    ]

import_users_flag-IsValid :
    (fold lower : ℕ → ℕ) (read : Reader) (faults : ℕ → Option Error) (path : Text) (s : Store)
    → IsValid s
    → IsValid (import_users_flag fold lower read faults path s).store
unfolding import_users_flag
import_users_flag-IsValid fold lower read faults path s valid = elim (Bool-cases (is_empty path)) [
  | inl empty ↦ rw (import_users_flag, empty) valid
  | inr given ↦
      rw (import_users_flag, given, reporting_store)
        (import_users_csv-IsValid fold lower read faults path s valid)
]

-- A second part runs only if the first one succeeds.
either-IsValid :
    (r : Result (Unit {0})) (first second : Outcome)
    → IsValid first.store
    → IsValid second.store
    → IsValid (elim r as (λ _. Outcome) [ err why ↦ first | ok _ ↦ second ]).store
either-IsValid (err why) first second one two = one
either-IsValid (ok _) first second one two = two

db_import_csv-IsValid :
    (fold lower : ℕ → ℕ) (read : Reader) (folder_faults user_faults : ℕ → Option Error)
    (f : CsvFlags) (s : Store)
    → IsValid s
    → IsValid (db_import_csv fold lower read folder_faults user_faults f s).store
unfolding db_import_csv
db_import_csv-IsValid fold lower read folder_faults user_faults f s valid =
    let first = import_folders_flag fold lower read folder_faults f.folders s in
    let second = import_users_flag fold lower read user_faults f.users first.store in
    let one : IsValid first.store =
      import_folders_flag-IsValid fold lower read folder_faults f.folders s valid in
    elim (Bool-cases (is_empty f.users && is_empty f.folders)) [
      | inl nothing ↦ rw (db_import_csv, nothing) valid
      | inr given ↦
          rw (db_import_csv, given)
            (either-IsValid first.result first (after_printing first.printed second) one
              (import_users_flag-IsValid fold lower read user_faults f.users first.store one))
    ]

db_import_yaml-IsValid :
    (decode : Text → Result Config) (folder_faults user_faults : ℕ → Option Error) (path : Text)
    (s : Store)
    → IsValid s
    → IsValid (db_import_yaml decode folder_faults user_faults path s).store
unfolding db_import_yaml
db_import_yaml-IsValid decode folder_faults user_faults path s valid =
    go (load_entities_only decode path) refl
  where
    go :
        (found : Result Config)
        → load_entities_only decode path ≡ found
        → IsValid (db_import_yaml decode folder_faults user_faults path s).store
    go (err why) e = elim (Bool-cases (is_empty path)) [
      | inl empty ↦ rw (db_import_yaml, empty) valid
      | inr given ↦ rw (db_import_yaml, given, e) valid
    ]
    go (ok cfg) e = elim (Bool-cases (is_empty path)) [
      | inl empty ↦ rw (db_import_yaml, empty) valid
      | inr given ↦
          rw (db_import_yaml, given, e, reporting_store)
            (import_config-IsValid folder_faults user_faults cfg s valid)
    ]

db_remove_user-IsValid :
    (quote : Text → Text) (deleting forgetting : Option Error) (name : Text) (s : Store)
    → IsValid s
    → IsValid (db_remove_user quote deleting forgetting name s).store
unfolding db_remove_user
db_remove_user-IsValid quote deleting forgetting name s valid =
    go (delete_user deleting name s).0 refl
  where
    one : IsValid (delete_user deleting name s).1
    one = delete_user-IsValid deleting name s valid

    go :
        (r : Result (Unit {0}))
        → (delete_user deleting name s).0 ≡ r
        → IsValid (db_remove_user quote deleting forgetting name s).store
    go (err why) e = rw (db_remove_user, e) one
    go (ok _) e =
        rw (db_remove_user, e, reporting_store) (forget_user-IsValid forgetting name _ one)

-- Every subcommand keeps the tables valid.
CommandStep-IsValid : {s s' : Store} → CommandStep s s' → IsValid s → IsValid s'
unfolding Dict.keys db_add_user db_add_folder db_remove_folder db_resume_user db_forget_user
    db_vacuum
CommandStep-IsValid (CommandStep.add_user quote fault f s) valid =
    rw (db_add_user, reporting_store) (upsert_user-IsValid fault _ _ s valid)
CommandStep-IsValid (CommandStep.add_folder quote fault fp s) valid =
    rw (db_add_folder, reporting_store) (upsert_folder_pair-IsValid fault fp s valid)
CommandStep-IsValid (CommandStep.remove_user quote deleting forgetting name s) valid =
    db_remove_user-IsValid quote deleting forgetting name s valid
CommandStep-IsValid (CommandStep.remove_folder quote fault fp s) valid =
    rw (db_remove_folder, reporting_store) (delete_folder_pair-IsValid fault fp s valid)
CommandStep-IsValid (CommandStep.resume_user quote fault name s) valid =
    rw (db_resume_user, reporting_store) (resume_user-IsValid fault name s valid)
CommandStep-IsValid (CommandStep.forget_user quote fault name s) valid =
    rw (db_forget_user, reporting_store) (forget_user-IsValid fault name s valid)
CommandStep-IsValid (CommandStep.vacuum fault s) valid =
    rw (db_vacuum, reporting_store) (vacuum-IsValid fault s valid)
CommandStep-IsValid (CommandStep.import_yaml decode folder_faults user_faults path s) valid =
    db_import_yaml-IsValid decode folder_faults user_faults path s valid
CommandStep-IsValid (CommandStep.import_csv fold lower read folder_faults user_faults f s) valid =
    db_import_csv-IsValid fold lower read folder_faults user_faults f s valid

-- What the subcommands make of a new database.
pub data Reachable : Store → Type 0 where
  created : Reachable new_store
  next : {s s' : Store} → Reachable s → CommandStep s s' → Reachable s'

-- Whatever subcommands are run on a new database, with whatever flags and files, and whichever of
-- their statements fail: each user has a name and two addresses that are not blank, no two users
-- have one name, and each folder pair has two names that are not blank.
pub Reachable-IsValid : {s : Store} → Reachable s → IsValid s
unfolding Dict.keys
Reachable-IsValid Reachable.created = (tt, tt, tt)
Reachable-IsValid (Reachable.next before step) = CommandStep-IsValid step (Reachable-IsValid before)
