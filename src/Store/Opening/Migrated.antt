-- ===== src/Store/Opening/Migrated.antt =====
-- What opening a database makes of it when no statement fails.
use imapsync.Base.{
  ◌≡◌, refl, arith, ◌==◌, ◌&&◌, ◌||◌, not, eq_iff, eq_comm, contains-append, Bool, true, false,
  Option, none, some, List, [], ◌∷◌, contains, list_eq, nat_eq, if◌then◌else◌, Bool-cases, inl, inr,
}
use imapsync.Base.Int.{int_leb}
use imapsync.Base.Text.{Text, text, trim_space, is_empty}
use imapsync.Base.Dict.{Dict}
use imapsync.Base.Result.{ok}
use imapsync.Store.Tables.{EndpointRow, MsgRow, Scope}
use imapsync.Store.Opening.{
  UserTable, Database, OpenFaults, Opened, in_context, and_then, created, new_users, schema_version,
  migrate_state, add_missing, add_columns, path_columns, add_column, ensure_user_path_columns,
  create_schema, create_state_schema, open_database,
}
use imapsync.Store.Opening.Columns.{rows_of}
use imapsync.Store.Opening.Kept.{rows_of-created}

-- Every statement succeeds.
abbrev pub no_faults : OpenFaults
no_faults = record {
  opening = none;
  reading_version = none;
  dropping_endpoint = none;
  dropping_cache = none;
  setting_version = none;
  finding_users = none;
  reading_columns = none;
  adding = λ col. none;
  creating_pairs = none;
  creating_users = none;
  creating_endpoint = none;
  creating_cache = none;
  creating_status = none;
  creating_run = none;
  creating_index = none;
}

abbrev is_there {ℓ} : {T : Type ℓ} → Option T → Bool
is_there none = false
is_there (some t) = true

abbrev has_column : Text → Option UserTable → Bool
has_column col none = false
has_column col (some t) = contains t.columns col

-- All tables of the schema are there, that of the users with both path columns.
abbrev pub IsComplete : Database → Type 0
IsComplete db =
    (has_column (text "path_a") db.users ≡ true)
    × (has_column (text "path_b") db.users ≡ true)
    × (is_there db.folder_pairs ≡ true)
    × (is_there db.sync_endpoint ≡ true)
    × (is_there db.sync_msg_cache ≡ true)
    × (is_there db.user_status ≡ true)
    × (is_there db.user_run ≡ true)

is_there-created {ℓ} : {T : Type ℓ} (e : T) (t : Option T) → is_there (created e t) ≡ true
is_there-created e none = refl
is_there-created e (some t) = refl

add_missing-columns :
    (have : List Text) (col c : Text) (t : UserTable)
    → contains (add_missing no_faults have col t).1.columns c
      ≡ (contains t.columns c || (not (contains have col) && c == col))
unfolding add_missing add_column
add_missing-columns have col c t = elim (Bool-cases (contains have col)) [
  | inl there ↦ rw (add_missing, there) (ground arith)
  | inr absent ↦
      rw (add_missing, absent)
        (ground (arith, contains-append t.columns (col ∷ []) c, eq_comm c col))
]

-- The cache as it is read.
abbrev pub cache_of : Database → Dict Scope EndpointRow × Dict (Scope × Text) MsgRow
cache_of db = (rows_of db.sync_endpoint, rows_of db.sync_msg_cache)

add_missing-ok :
    (have : List Text) (col : Text) (t : UserTable) → (add_missing no_faults have col t).0 ≡ ok tt
unfolding add_missing
add_missing-ok have col t = elim (Bool-cases (contains have col)) [
  | inl there ↦ rw (add_missing, there) refl
  | inr absent ↦ rw (add_missing, absent) refl
]

add_columns-ok :
    (have cols : List Text) (t : UserTable) → (add_columns no_faults have cols t).0 ≡ ok tt
unfolding add_columns
add_columns-ok have [] t = refl
add_columns-ok have (col ∷ cols) t =
    rw (add_columns, add_missing-ok have col t)
      (add_columns-ok have cols (add_missing no_faults have col t).1)

-- The columns that are wanted are there in the end, and those that were there stay.
add_columns-columns :
    (have cols : List Text) (c : Text) (t : UserTable)
    → (contains have c ≡ true → contains t.columns c ≡ true)
    → contains cols c || contains t.columns c ≡ true
    → contains (add_columns no_faults have cols t).1.columns c ≡ true
unfolding add_columns
add_columns-columns have [] c t had wanted = ground (arith, wanted)
add_columns-columns have (col ∷ cols) c t had wanted =
    let added = add_missing-columns have col c t in
    rw (add_columns, add_missing-ok have col t)
      (add_columns-columns have cols c (add_missing no_faults have col t).1
        (λ h. ground (arith, added, had h))
        (ground (arith, added, wanted, had, eq_iff c col, eq_iff col c)))

abbrev Tables : Type 0
Tables = Dict Scope EndpointRow × Dict (Scope × Text) MsgRow

-- Success in the present version, with this cache and with all tables.
abbrev pub IsReady : Tables → Opened → Type 0
IsReady cache (outcome, after) =
    (outcome ≡ ok tt)
    × (int_leb schema_version after.user_version ≡ true)
    × (cache_of after ≡ cache)
    × IsComplete after

abbrev last : Database → Opened
last d = in_context (text "creating sqlite state-cache schema: ") (create_state_schema no_faults d)

abbrev third : Database → Opened
third d = and_then (in_context (text "creating sqlite schema: ") (create_schema no_faults d)) last

abbrev second : Database → Opened
second d =
    and_then (in_context (text "migrating sqlite: ") (ensure_user_path_columns no_faults d)) third

third-IsReady :
    (d : Database) (cache : Tables)
    → int_leb schema_version d.user_version ≡ true
    → cache_of d ≡ cache
    → ((col : Text)
        → contains path_columns col ≡ true
        → has_column col (created new_users d.users) ≡ true)
    → IsReady cache (third d)
unfolding create_schema create_state_schema list_eq
third-IsReady d cache version same columns = (
  refl,
  version,
  rw (rows_of-created d.sync_endpoint, rows_of-created d.sync_msg_cache) same,
  (
    columns (text "path_a") refl,
    columns (text "path_b") refl,
    is_there-created [] d.folder_pairs,
    is_there-created [] d.sync_endpoint,
    is_there-created [] d.sync_msg_cache,
    is_there-created [] d.user_status,
    is_there-created [] d.user_run,
  ),
)

second-IsReady :
    (d : Database) (cache : Tables)
    → int_leb schema_version d.user_version ≡ true
    → cache_of d ≡ cache
    → IsReady cache (second d)
unfolding ensure_user_path_columns
second-IsReady d cache version same = go d.users
  where
    with : Option UserTable → Database
    with found = record d { users = found }

    go : (found : Option UserTable) → IsReady cache (second (with found))
    go none = third-IsReady (with none) cache version same (λ col wanted. wanted)
    go (some t) = rw (add_columns-ok t.columns path_columns t) (
        third-IsReady (with (some (add_columns no_faults t.columns path_columns t).1)) cache version
          same
          (λ col wanted.
            add_columns-columns t.columns path_columns col t (λ h. h) (ground (arith, wanted))))

-- When no statement fails, opening a database at a path that is not blank succeeds and gives all
-- tables, that of the users with the columns path_a and path_b, in the present version or a later
-- one. The cache is thrown away if the version was an earlier one, and kept otherwise.
pub open_database-IsReady :
    (path : Text) (db : Database)
    → is_empty (trim_space path) ≡ false
    → IsReady
        (if int_leb schema_version db.user_version then cache_of db else ([], []))
        (open_database no_faults path db)
unfolding open_database migrate_state
open_database-IsReady path db given = elim (Bool-cases (int_leb schema_version db.user_version)) [
  | inl present ↦
      rw (open_database, given, migrate_state, present)
        (second-IsReady db (cache_of db) present refl)
  | inr earlier ↦
      rw (open_database, given, migrate_state, earlier)
        (second-IsReady
          (record db { user_version = schema_version; sync_endpoint = none; sync_msg_cache = none })
          ([], []) refl refl)
]
