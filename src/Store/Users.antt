-- ===== src/Store/Users.antt =====
-- internal/store/store.go and state.go: the tables of users and folder pairs.
use imapsync.Base.{
  ℕ, ◌+◌, Bool, true, false, ◌&&◌, ◌||◌, not, Option, none, some, List, [], ◌∷◌, ◌++◌, map, ◌==◌,
  list_eq, nat_eq, if◌then◌else◌, any, filter,
}
use imapsync.Base.Text.{Text, text, trim_space, is_empty}
use imapsync.Base.Dict
use imapsync.Base.Dict.{Dict}
use imapsync.Base.Sort.{sort, text_leb}
use imapsync.Base.Result.{Error, Result, ok, err, errorf}
use imapsync.Config.{User, FolderPair, Config}
use imapsync.Store.Tables.{Store, UserRow, statement}

unfoldable pub upsert_user : Option Error → User → Bool → Store → Result (Unit {0}) × Store
upsert_user fault u enabled s =
    let name = trim_space u.name in
    let a = trim_space u.user_a in
    let b = trim_space u.user_b in
    if is_empty name || is_empty a || is_empty b
    then (err (errorf (text "user: empty field")), s)
    else statement fault (text "upserting user: ")
        (
          ok tt,
          record s {
            users =
                Dict.insert name
                  (record {
                    user_a = a;
                    user_b = b;
                    path_a = trim_space u.path_a;
                    path_b = trim_space u.path_b;
                    enabled = enabled;
                  })
                  s.users;
          },
        )
        s

abbrev pub same_pair_names : FolderPair → FolderPair → Bool
same_pair_names p q = p.a == q.a && p.b == q.b

-- INSERT OR IGNORE
unfoldable pub upsert_folder_pair : Option Error → FolderPair → Store → Result (Unit {0}) × Store
upsert_folder_pair fault fp s =
    let pair : FolderPair = record { a = trim_space fp.a; b = trim_space fp.b } in
    if is_empty pair.a || is_empty pair.b
    then (err (errorf (text "folder pair: empty name")), s)
    else statement fault (text "inserting folder pair: ")
        (
          ok tt,
          if any (same_pair_names pair) s.folder_pairs
              then s
              else record s { folder_pairs = s.folder_pairs ++ (pair ∷ []) },
        )
        s

-- `n == 0` rows affected is an error of its own.
unfoldable pub set_user_enabled : Option Error → Text → Bool → Store → Result (Unit {0}) × Store
set_user_enabled fault raw enabled s =
    let name = trim_space raw in
    statement fault (text "changing enabled: ")
      (elim (Dict.lookup name s.users) [
        | none ↦ (err (errorf (text "user not found")), s)
        | some row ↦ (
          ok tt,
          record s { users = Dict.insert name (record row { enabled = enabled }) s.users },
        )
      ])
      s

unfoldable pub delete_user : Option Error → Text → Store → Result (Unit {0}) × Store
delete_user fault raw s =
    let name = trim_space raw in
    statement fault (text "deleting user: ")
      (if Dict.member name s.users
        then (ok tt, record s { users = Dict.erase name s.users })
        else (err (errorf (text "user not found")), s))
      s

unfoldable pub delete_folder_pair : Option Error → FolderPair → Store → Result (Unit {0}) × Store
delete_folder_pair fault fp s =
    let pair : FolderPair = record { a = trim_space fp.a; b = trim_space fp.b } in
    statement fault (text "deleting folder pair: ")
      (if any (same_pair_names pair) s.folder_pairs
        then (
          ok tt,
          record s { folder_pairs = filter (λ q. not (same_pair_names pair q)) s.folder_pairs },
        )
        else (err (errorf (text "folder pair not found")), s))
      s

unfoldable pub user_of : Text × UserRow → User
user_of (name, row) = record {
  name = name;
  user_a = row.user_a;
  user_b = row.user_b;
  path_a = row.path_a;
  path_b = row.path_b;
}

unfoldable pub query_users : Option Error → Bool → Store → Result (List User)
unfolding user_of
query_users (some e) only_enabled s = err e
query_users none only_enabled s = ok (
    map user_of (
      sort (λ p q. text_leb p.0 q.0)
        (Dict.keep (λ name row. not only_enabled || row.enabled) s.users)))

-- `ListUsers` and `AllUsers`
abbrev pub list_users : Option Error → Store → Result (List User)
list_users fault = query_users fault true

abbrev pub all_users : Option Error → Store → Result (List User)
all_users fault = query_users fault false

-- ORDER BY folder_a, folder_b
unfoldable pub pair_leb : FolderPair → FolderPair → Bool
pair_leb p q = if p.a == q.a then text_leb p.b q.b else text_leb p.a q.a

unfoldable pub list_folder_pairs : Option Error → Store → Result (List FolderPair)
unfolding pair_leb
list_folder_pairs (some e) s = err e
list_folder_pairs none s = ok (sort pair_leb s.folder_pairs)

-- The configuration is changed only if both reads succeed.
unfoldable pub load_into : Option Error → Option Error → Store → Config → Result (Unit {0}) × Config
load_into users_fault folders_fault s cfg = elim (list_users users_fault s) [
  | err e ↦ (err e, cfg)
  | ok users ↦ elim (list_folder_pairs folders_fault s) [
    | err e ↦ (err e, cfg)
    | ok folders ↦ (ok tt, record cfg { users = users; folders = folders })
  ]
]

-- The loops of `ImportConfig` stop at the first error and count what was done. `faults` tells the
-- database's answer to each statement.
unfoldable pub import_folders :
    (ℕ → Option Error) → ℕ → List FolderPair → Store → (Result (Unit {0}) × ℕ) × Store
import_folders faults n [] s = ((ok tt, n), s)
import_folders faults n (fp ∷ rest) s =
    let (outcome, s') = upsert_folder_pair (faults n) fp s in
    let more = import_folders faults (n + 1) rest s' in
    elim outcome [ err e ↦ ((err e, n), s') | ok _ ↦ more ]

unfoldable pub import_users :
    (ℕ → Option Error) → ℕ → List User → Store → (Result (Unit {0}) × ℕ) × Store
import_users faults n [] s = ((ok tt, n), s)
import_users faults n (u ∷ rest) s =
    let (outcome, s') = upsert_user (faults n) u true s in
    let more = import_users faults (n + 1) rest s' in
    elim outcome [ err e ↦ ((err e, n), s') | ok _ ↦ more ]

pub record Imported : Type 0 where
  pub folders : ℕ
  pub users : ℕ
  pub outcome : Result (Unit {0})

unfoldable pub import_config :
    (ℕ → Option Error) → (ℕ → Option Error) → Config → Store → Imported × Store
unfolding import_folders import_users
import_config folder_faults user_faults cfg s =
    let ((first, folders), s') = import_folders folder_faults 0 cfg.folders s in
    let ((second, users), s'') = import_users user_faults 0 cfg.users s' in
    elim first [
      | err e ↦ (record { folders = folders; users = 0; outcome = err e }, s')
      | ok _ ↦ (record { folders = folders; users = users; outcome = second }, s'')
    ]
