-- ===== src/Store/Opening/Kept.antt =====
-- What opening a database keeps of it.
use imapsync.Base.{
  ◌≡◌, refl, ◌∙◌, Bool, true, false, Option, none, some, List, [], IsDistinct, list_eq, nat_eq,
  if◌then◌else◌,
}
use imapsync.Base.Int.{ℤ, int_leb}
use imapsync.Base.Text.{Text, text, trim_space, is_empty}
use imapsync.Base.Dict.{Dict}
use imapsync.Base.Result.{Error, ok, err}
use imapsync.Config.{FolderPair}
use imapsync.Store.Tables.{UserRow, StatusRow, RunRow}
use imapsync.Store.Opening.{
  UserTable, Database, OpenFaults, Opened, exec, because, in_context, and_then, with_users, created,
  new_users, schema_version, migrate_state, add_columns, path_columns, ensure_user_path_columns,
  create_schema, create_state_schema, open_database,
}
use imapsync.Store.Opening.Columns.{rows_of, users_of, view, view-add_columns}

-- What the program reads of a database besides the cache.
pub record Lists : Type 0 where
  pub users : Dict Text UserRow
  pub folder_pairs : List FolderPair
  pub user_status : Dict Text StatusRow
  pub user_run : Dict (Text × ℤ) RunRow

abbrev view_of : Option UserTable → Dict Text UserRow
view_of none = []
view_of (some t) = view t

unfoldable pub lists_of : Database → Lists
lists_of db = record {
  users = view_of db.users;
  folder_pairs = rows_of db.folder_pairs;
  user_status = rows_of db.user_status;
  user_run = rows_of db.user_run;
}

-- Parts that keep the lists, one after the other.
exec-lists_of :
    (fault : Option Error) (db : Database) (rest : Opened) (l : Lists)
    → lists_of db ≡ l
    → lists_of rest.1 ≡ l
    → lists_of (exec fault db rest).1 ≡ l
exec-lists_of none db rest l before after = after
exec-lists_of (some e) db rest l before after = before

in_context-lists_of :
    (context : Text) (p : Opened) → lists_of (in_context context p).1 ≡ lists_of p.1
in_context-lists_of context (ok _, db) = refl
in_context-lists_of context (err e, db) = refl

and_then-lists_of :
    (p : Opened) (part : Database → Opened) (l : Lists)
    → lists_of p.1 ≡ l
    → ((db : Database) → lists_of db ≡ l → lists_of (part db).1 ≡ l)
    → lists_of (and_then p part).1 ≡ l
and_then-lists_of (ok _, db) part l before after = after db before
and_then-lists_of (err e, db) part l before after = before

if-lists_of :
    (b : Bool) (p q : Opened) (l : Lists)
    → lists_of p.1 ≡ l
    → lists_of q.1 ≡ l
    → lists_of (if b then p else q).1 ≡ l
if-lists_of true p q l hp hq = hp
if-lists_of false p q l hp hq = hq

migrate_state-lists_of :
    (f : OpenFaults) (db : Database) → lists_of (migrate_state f db).1 ≡ lists_of db
unfolding migrate_state lists_of
migrate_state-lists_of f db = exec-lists_of f.reading_version db _ _ refl (
    if-lists_of (int_leb schema_version db.user_version) _ _ _ refl (
      exec-lists_of f.dropping_endpoint db _ _ refl (
        exec-lists_of f.dropping_cache _ _ _ refl
          (exec-lists_of f.setting_version _ _ _ refl refl))))

path_columns-IsDistinct : IsDistinct path_columns
unfolding list_eq
path_columns-IsDistinct = (refl, (refl, tt))

ensure_user_path_columns-lists_of :
    (f : OpenFaults) (db : Database) → lists_of (ensure_user_path_columns f db).1 ≡ lists_of db
unfolding ensure_user_path_columns lists_of
ensure_user_path_columns-lists_of f db = go db.users
  where
    with : Option UserTable → Database
    with found = record db { users = found }

    go :
        (found : Option UserTable)
        → lists_of (ensure_user_path_columns f (with found)).1 ≡ lists_of (with found)
    go none =
        exec-lists_of (because (text "checking for the users table: ") f.finding_users) (with none)
          (ok tt, with none) _ refl refl
    go (some t) =
        exec-lists_of (because (text "checking for the users table: ") f.finding_users)
          (with (some t)) _ _ refl
          (exec-lists_of (because (text "reading users table schema: ") f.reading_columns)
            (with (some t)) (with_users (with (some t)) (add_columns f t.columns path_columns t)) _
            refl
            (rw (view-add_columns f t.columns path_columns t path_columns-IsDistinct (λ c h. refl))
              refl))

pub rows_of-created : {A : Type 0} (t : Option (List A)) → rows_of (created [] t) ≡ rows_of t
rows_of-created none = refl
rows_of-created (some t) = refl

view_of-created : (t : Option UserTable) → view_of (created new_users t) ≡ view_of t
unfolding users_of
view_of-created none = refl
view_of-created (some t) = refl

create_schema-lists_of :
    (f : OpenFaults) (db : Database) → lists_of (create_schema f db).1 ≡ lists_of db
unfolding create_schema lists_of
create_schema-lists_of f db =
    let pairs = rows_of-created db.folder_pairs in
    exec-lists_of f.creating_pairs db _ _ refl (
      exec-lists_of f.creating_users _ _ _ (rw pairs refl)
        (rw (pairs, view_of-created db.users) refl))

create_state_schema-lists_of :
    (f : OpenFaults) (db : Database) → lists_of (create_state_schema f db).1 ≡ lists_of db
unfolding create_state_schema lists_of
create_state_schema-lists_of f db =
    let status = rows_of-created db.user_status in
    let runs = rows_of-created db.user_run in
    exec-lists_of f.creating_endpoint db _ _ refl (
      exec-lists_of f.creating_cache _ _ _ refl (
        exec-lists_of f.creating_status _ _ _ refl (
          exec-lists_of f.creating_run _ _ _ (rw status refl) (
            exec-lists_of f.creating_index _ _ _ (rw (status, runs) refl)
              (rw (status, runs) refl)))))

-- Opening a database never changes what is read of its users, folder pairs, statuses and history,
-- whatever version it has, whichever columns and tables are missing, and whichever statement fails.
pub open_database-lists_of :
    (f : OpenFaults) (path : Text) (db : Database)
    → lists_of (open_database f path db).1 ≡ lists_of db
unfolding open_database
open_database-lists_of f path db =
    let last : Database → Opened =
      λ d. in_context (text "creating sqlite state-cache schema: ") (create_state_schema f d) in
    let third : Database → Opened =
      λ d. and_then (in_context (text "creating sqlite schema: ") (create_schema f d)) last in
    let second : Database → Opened =
      λ d. and_then (in_context (text "migrating sqlite: ") (ensure_user_path_columns f d)) third in
    let first = in_context (text "migrating sqlite: ") (migrate_state f db) in
    let l = lists_of db in
    if-lists_of (is_empty (trim_space path)) _
      (exec (because (text "opening sqlite: ") f.opening) db (and_then first second)) l refl
      (exec-lists_of (because (text "opening sqlite: ") f.opening) db (and_then first second) l refl
        (and_then-lists_of first second l
          (in_context-lists_of (text "migrating sqlite: ") (migrate_state f db)
            ∙ migrate_state-lists_of f db)
          (λ db1 h1.
            and_then-lists_of
              (in_context (text "migrating sqlite: ") (ensure_user_path_columns f db1)) third l
              (in_context-lists_of (text "migrating sqlite: ") (ensure_user_path_columns f db1)
                ∙ ensure_user_path_columns-lists_of f db1
                ∙ h1)
              (λ db2 h2.
                and_then-lists_of
                  (in_context (text "creating sqlite schema: ") (create_schema f db2)) last l
                  (in_context-lists_of (text "creating sqlite schema: ") (create_schema f db2)
                    ∙ create_schema-lists_of f db2
                    ∙ h2)
                  (λ db3 h3.
                    in_context-lists_of (text "creating sqlite state-cache schema: ")
                      (create_state_schema f db3)
                    ∙ create_state_schema-lists_of f db3
                    ∙ h3)))))
