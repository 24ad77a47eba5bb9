-- ===== src/Cli/Csv/Valid.antt =====
-- Imports from CSV keep the lists of users and folder pairs valid.
use imapsync.Base.{◌≡◌, refl, ℕ, ◌+◌, Bool, Option, none, some, List, [], ◌∷◌, Bool-cases, inl, inr}
use imapsync.Base.Text.{Text, text}
use imapsync.Base.Result.{Error, Result, ok, err}
use imapsync.Config.{User, FolderPair}
use imapsync.Store.Tables.{Store}
use imapsync.Store.Users.{upsert_user, upsert_folder_pair}
use imapsync.Store.Valid.{IsValid, upsert_user-IsValid, upsert_folder_pair-IsValid}
use imapsync.Cli.Csv.{
  Reader, Row, saved, advance, import_rows, folder_row, user_row, row_pair, row_user, is_header,
  read_csv, import_folders_csv, import_users_csv,
}

-- A row keeps the tables valid, whatever it does.
abbrev Keeps : Row → Type 0
Keeps row = (i n : ℕ) (rec : List Text) (s : Store) → IsValid s → IsValid (row i n rec s).1

saved_store : (path : Text) (i : ℕ) (p : Result (Unit {0}) × Store) → (saved path i p).1 ≡ p.1
unfolding saved
saved_store path i (ok _, s) = refl
saved_store path i (err why, s) = refl

folder_row-Keeps :
    (fold : ℕ → ℕ) (faults : ℕ → Option Error) (path : Text) → Keeps (folder_row fold faults path)
unfolding folder_row
folder_row-Keeps fold faults path i n rec s valid = go (row_pair rec) refl
  where
    go :
        (found : Option FolderPair)
        → row_pair rec ≡ found
        → IsValid (folder_row fold faults path i n rec s).1
    go none e = rw (folder_row, e) valid
    go (some fp) e = elim (Bool-cases (is_header fold (text "folder_a") i fp.a)) [
      | inl header ↦ rw (folder_row, e, header) valid
      | inr row ↦
          rw (folder_row, e, row, saved_store path i (upsert_folder_pair (faults n) fp s))
            (upsert_folder_pair-IsValid (faults n) fp s valid)
    ]

user_row-Keeps :
    (fold lower : ℕ → ℕ) (faults : ℕ → Option Error) (path : Text)
    → Keeps (user_row fold lower faults path)
unfolding user_row
user_row-Keeps fold lower faults path i n rec s valid = go (row_user lower rec) refl
  where
    go :
        (found : Option (User × Bool))
        → row_user lower rec ≡ found
        → IsValid (user_row fold lower faults path i n rec s).1
    go none e = rw (user_row, e) valid
    go (some (u, enabled)) e = elim (Bool-cases (is_header fold (text "name") i u.name)) [
      | inl header ↦ rw (user_row, e, header) valid
      | inr row ↦
          rw (user_row, e, row, saved_store path i (upsert_user (faults n) u enabled s))
            (upsert_user-IsValid (faults n) u enabled s valid)
    ]

import_rows-IsValid :
    (row : Row)
    → Keeps row
    → (i n : ℕ) (rows : List (List Text)) (s : Store) → IsValid s
    → IsValid (import_rows row i n rows s).1
unfolding import_rows
import_rows-IsValid row keeps i n [] s valid = valid
import_rows-IsValid row keeps i n (rec ∷ rows) s valid =
    go (row i n rec s).0 (keeps i n rec s valid) (
      import_rows-IsValid row keeps (i + 1) (advance (row i n rec s).0 n) rows (row i n rec s).1
        (keeps i n rec s valid))
  where
    go :
        (outcome : Result Bool)
        → IsValid (row i n rec s).1
        → IsValid (import_rows row (i + 1) (advance (row i n rec s).0 n) rows (row i n rec s).1).1
        → IsValid
            (elim outcome as (λ _. (Result (Unit {0}) × ℕ) × Store) [
              | err why ↦ ((err why, n), (row i n rec s).1)
              | ok _ ↦ import_rows row (i + 1) (advance (row i n rec s).0 n) rows (row i n rec s).1
            ]).1
    go (err why) stopped on = stopped
    go (ok _) stopped on = on

pub import_folders_csv-IsValid :
    (fold : ℕ → ℕ) (read : Reader) (faults : ℕ → Option Error) (path : Text) (s : Store)
    → IsValid s
    → IsValid (import_folders_csv fold read faults path s).1
unfolding import_folders_csv
import_folders_csv-IsValid fold read faults path s valid = go (read_csv read path) refl
  where
    go :
        (found : Result (List (List Text)))
        → read_csv read path ≡ found
        → IsValid (import_folders_csv fold read faults path s).1
    go (err why) e = rw (import_folders_csv, e) valid
    go (ok rows) e =
        rw (import_folders_csv, e)
          (import_rows-IsValid (folder_row fold faults path) (folder_row-Keeps fold faults path) 0 0
            rows s valid)

pub import_users_csv-IsValid :
    (fold lower : ℕ → ℕ) (read : Reader) (faults : ℕ → Option Error) (path : Text) (s : Store)
    → IsValid s
    → IsValid (import_users_csv fold lower read faults path s).1
unfolding import_users_csv
import_users_csv-IsValid fold lower read faults path s valid = go (read_csv read path) refl
  where
    go :
        (found : Result (List (List Text)))
        → read_csv read path ≡ found
        → IsValid (import_users_csv fold lower read faults path s).1
    go (err why) e = rw (import_users_csv, e) valid
    go (ok rows) e =
        rw (import_users_csv, e)
          (import_rows-IsValid (user_row fold lower faults path)
            (user_row-Keeps fold lower faults path) 0 0 rows s valid)
