-- ===== src/Store/Valid/Imports.antt =====
-- `ImportConfig` of internal/store/store.go keeps the tables valid.
use imapsync.Base.{ℕ, ◌+◌, true, Option, List, [], ◌∷◌, list_eq, nat_eq}
use imapsync.Base.Result.{Error, Result, ok, err}
use imapsync.Config.{User, FolderPair, Config}
use imapsync.Store.Tables.{Store}
use imapsync.Store.Users.{
  upsert_user, upsert_folder_pair, import_folders, import_users, import_config, Imported,
}
use imapsync.Store.Valid.{IsValid, upsert_user-IsValid, upsert_folder_pair-IsValid}

-- A loop over rows stops with the tables at the first error, and goes on otherwise.
stop-IsValid :
    (outcome : Result (Unit {0})) (failure : Error → Result (Unit {0}) × ℕ) (s : Store)
    (more : (Result (Unit {0}) × ℕ) × Store)
    → IsValid s
    → IsValid more.1
    → IsValid
        (elim outcome as (λ _. (Result (Unit {0}) × ℕ) × Store) [
          | err e ↦ (failure e, s)
          | ok _ ↦ more
        ]).1
stop-IsValid (err e) failure s more stopped on = stopped
stop-IsValid (ok _) failure s more stopped on = on

import_folders-IsValid :
    (faults : ℕ → Option Error) (n : ℕ) (fps : List FolderPair) (s : Store)
    → IsValid s
    → IsValid (import_folders faults n fps s).1
unfolding import_folders
import_folders-IsValid faults n [] s valid = valid
import_folders-IsValid faults n (fp ∷ rest) s valid =
    let s' = (upsert_folder_pair (faults n) fp s).1 in
    let after : IsValid s' = upsert_folder_pair-IsValid (faults n) fp s valid in
    stop-IsValid (upsert_folder_pair (faults n) fp s).0 (λ e. (err e, n)) s'
      (import_folders faults (n + 1) rest s') after
      (import_folders-IsValid faults (n + 1) rest s' after)

import_users-IsValid :
    (faults : ℕ → Option Error) (n : ℕ) (us : List User) (s : Store)
    → IsValid s
    → IsValid (import_users faults n us s).1
unfolding import_users
import_users-IsValid faults n [] s valid = valid
import_users-IsValid faults n (u ∷ rest) s valid =
    let s' = (upsert_user (faults n) u true s).1 in
    let after : IsValid s' = upsert_user-IsValid (faults n) u true s valid in
    stop-IsValid (upsert_user (faults n) u true s).0 (λ e. (err e, n)) s'
      (import_users faults (n + 1) rest s') after
      (import_users-IsValid faults (n + 1) rest s' after)

pub import_config-IsValid :
    (folder_faults user_faults : ℕ → Option Error) (cfg : Config) (s : Store)
    → IsValid s
    → IsValid (import_config folder_faults user_faults cfg s).1
unfolding import_config
import_config-IsValid folder_faults user_faults cfg s valid =
    let folders = import_folders folder_faults 0 cfg.folders s in
    let after : IsValid folders.1 = import_folders-IsValid folder_faults 0 cfg.folders s valid in
    go (folders.0).0 after (import_users-IsValid user_faults 0 cfg.users folders.1 after)
  where
    go :
        (outcome : Result (Unit {0}))
        → IsValid (import_folders folder_faults 0 cfg.folders s).1
        → IsValid
            (import_users user_faults 0 cfg.users
              (import_folders folder_faults 0 cfg.folders s).1).1
        → IsValid
            (elim outcome as (λ _. Imported × Store) [
              | err e ↦ (
                record {
                  folders = ((import_folders folder_faults 0 cfg.folders s).0).1;
                  users = 0;
                  outcome = err e;
                },
                (import_folders folder_faults 0 cfg.folders s).1,
              )
              | ok _ ↦ (
                record {
                  folders = ((import_folders folder_faults 0 cfg.folders s).0).1;
                  users =
                      ((import_users user_faults 0 cfg.users
                        (import_folders folder_faults 0 cfg.folders s).1).0
                      ).1;
                  outcome =
                      ((import_users user_faults 0 cfg.users
                        (import_folders folder_faults 0 cfg.folders s).1).0
                      ).0;
                },
                (import_users user_faults 0 cfg.users
                    (import_folders folder_faults 0 cfg.folders s).1).1,
              )
            ]).1
    go (err e) first second = first
    go (ok _) first second = second
