-- ===== src/Store/Opening.antt =====
-- `Open`, `migrateState` and `ensureUserPathColumns` of internal/store/store.go: a database file of an
-- earlier version, and what is made of it. What the database reports for each statement is an
-- argument.
pub mod Columns
pub mod Kept
pub mod Migrated
use imapsync.Base.{
  ℕ, Bool, true, false, ◌&&◌, ◌||◌, not, Option, none, some, List, [], ◌∷◌, ◌++◌, map, ◌==◌,
  list_eq, nat_eq, contains, if◌then◌else◌,
}
use imapsync.Base.Int.{ℤ, pos, int_leb}
use imapsync.Base.Text.{Text, text, trim_space, is_empty}
use imapsync.Base.Dict
use imapsync.Base.Dict.{Dict}
use imapsync.Base.Result.{Error, Result, ok, err, errorf, wrap}
use imapsync.Config.{FolderPair}
use imapsync.Store.Tables.{Store, UserRow, EndpointRow, MsgRow, StatusRow, RunRow, Scope}

-- A row of `users`; the columns that came later are in `paths`, under their names.
pub record StoredUser : Type 0 where
  pub user_a : Text
  pub user_b : Text
  pub enabled : Bool
  pub paths : Dict Text Text

-- `columns` has the names of the later columns that the table has.
pub record UserTable : Type 0 where
  pub columns : List Text
  pub rows : Dict Text StoredUser

-- A database file; a table that has not been created is `none`.
pub record Database : Type 0 where
  pub user_version : ℤ
  pub users : Option UserTable
  pub folder_pairs : Option (List FolderPair)
  pub sync_endpoint : Option (Dict Scope EndpointRow)
  pub sync_msg_cache : Option (Dict (Scope × Text) MsgRow)
  pub user_status : Option (Dict Text StatusRow)
  pub user_run : Option (Dict (Text × ℤ) RunRow)

-- The errors of the statements, in their order.
pub record OpenFaults : Type 0 where
  pub opening : Option Error
  pub reading_version : Option Error
  pub dropping_endpoint : Option Error
  pub dropping_cache : Option Error
  pub setting_version : Option Error
  pub finding_users : Option Error
  pub reading_columns : Option Error
  pub adding : Text → Option Error
  pub creating_pairs : Option Error
  pub creating_users : Option Error
  pub creating_endpoint : Option Error
  pub creating_cache : Option Error
  pub creating_status : Option Error
  pub creating_run : Option Error
  pub creating_index : Option Error

abbrev pub schema_version : ℤ
schema_version = pos 2

abbrev pub Opened : Type 0
Opened = Result (Unit {0}) × Database

-- `if err != nil { return err }` after a statement; `rest` is what follows.
abbrev pub exec : Option Error → Database → Opened → Opened
exec (some e) before rest = (err e, before)
exec none before rest = rest

-- A cache of an earlier version is thrown away.
unfoldable pub migrate_state : OpenFaults → Database → Opened
migrate_state f db =
    let no_endpoint : Database = record db { sync_endpoint = none } in
    let no_cache : Database = record no_endpoint { sync_msg_cache = none } in
    exec f.reading_version db (
      if int_leb schema_version db.user_version
      then (ok tt, db)
      else exec f.dropping_endpoint db (
          exec f.dropping_cache no_endpoint (
            exec f.setting_version no_cache
              (ok tt, record no_cache { user_version = schema_version }))))

-- ALTER TABLE users ADD COLUMN … DEFAULT ''
unfoldable pub add_column : Text → UserTable → UserTable
add_column col t = record {
  columns = t.columns ++ (col ∷ []);
  rows = map (λ p. (p.0, record (p.1) { paths = Dict.insert col [] (p.1).paths })) t.rows;
}

-- One round of the loop over the columns: `have` is what the table had before it.
unfoldable pub add_missing :
    OpenFaults → List Text → Text → UserTable → Result (Unit {0}) × UserTable
unfolding add_column
add_missing f have col t = if contains have col then (ok tt, t) else elim (f.adding col) [
  | some e ↦ (err (wrap (text "adding column " ++ (col ++ text " to users: ")) e), t)
  | none ↦ (ok tt, add_column col t)
]

unfoldable pub add_columns :
    OpenFaults → List Text → List Text → UserTable → Result (Unit {0}) × UserTable
unfolding add_missing
add_columns f have [] t = (ok tt, t)
add_columns f have (col ∷ cols) t =
    let (outcome, t') = add_missing f have col t in
    let more = add_columns f have cols t' in elim outcome [ err e ↦ (err e, t') | ok _ ↦ more ]

abbrev pub path_columns : List Text
path_columns = text "path_a" ∷ text "path_b" ∷ []

-- `fmt.Errorf("…: %w", err)` around the error of a statement.
abbrev pub because : Text → Option Error → Option Error
because context none = none
because context (some e) = some (wrap context e)

-- The same around what a part of several statements reports.
abbrev pub in_context : Text → Opened → Opened
in_context context (ok _, db) = (ok tt, db)
in_context context (err e, db) = (err (wrap context e), db)

abbrev pub with_users : Database → Result (Unit {0}) × UserTable → Opened
with_users db (outcome, t) = (outcome, record db { users = some t })

-- A database without the table is left to the schema.
unfoldable pub ensure_user_path_columns : OpenFaults → Database → Opened
unfolding add_columns
ensure_user_path_columns f db =
    exec (because (text "checking for the users table: ") f.finding_users) db (elim db.users [
      | none ↦ (ok tt, db)
      | some t ↦
          exec (because (text "reading users table schema: ") f.reading_columns) db
            (with_users db (add_columns f t.columns path_columns t))
    ])

-- CREATE TABLE IF NOT EXISTS
abbrev pub created {ℓ} : {T : Type ℓ} → T → Option T → Option T
created empty none = some empty
created empty (some t) = some t

abbrev pub new_users : UserTable
new_users = record { columns = path_columns; rows = [] }

unfoldable pub create_schema : OpenFaults → Database → Opened
create_schema f db =
    let db1 : Database = record db { folder_pairs = created [] db.folder_pairs } in
    exec f.creating_pairs db
      (exec f.creating_users db1 (ok tt, record db1 { users = created new_users db.users }))

unfoldable pub create_state_schema : OpenFaults → Database → Opened
create_state_schema f db =
    let db1 : Database = record db { sync_endpoint = created [] db.sync_endpoint } in
    let db2 : Database = record db1 { sync_msg_cache = created [] db.sync_msg_cache } in
    let db3 : Database = record db2 { user_status = created [] db.user_status } in
    let db4 : Database = record db3 { user_run = created [] db.user_run } in
    exec f.creating_endpoint db (
      exec f.creating_cache db1 (
        exec f.creating_status db2
          (exec f.creating_run db3 (exec f.creating_index db4 (ok tt, db4)))))

-- The next part runs on the database that a part has left, if that part succeeded.
abbrev pub and_then : Opened → (Database → Opened) → Opened
and_then (ok _, db) part = part db
and_then (err e, db) part = (err e, db)

unfoldable pub open_database : OpenFaults → Text → Database → Opened
unfolding migrate_state ensure_user_path_columns create_schema create_state_schema
open_database f path db =
    if is_empty (trim_space path)
    then (err (errorf (text "sqlite path not set")), db)
    else exec (because (text "opening sqlite: ") f.opening) db (
        and_then (in_context (text "migrating sqlite: ") (migrate_state f db)) (λ db1.
          and_then (in_context (text "migrating sqlite: ") (ensure_user_path_columns f db1)) (λ db2.
            and_then (in_context (text "creating sqlite schema: ") (create_schema f db2)) (λ db3.
              in_context (text "creating sqlite state-cache schema: ")
                (create_state_schema f db3)))))
