-- ===== src/Tests/Operating.antt =====
-- The theorems on the command line and on the database file at concrete inputs.
use imapsync.Base.{
  ◌≡◌, refl, ℕ, ◌==◌, ◌&&◌, ◌||◌, not, true, false, none, some, List, [], All, ◌∷◌, list_eq, nat_eq,
  contains, filter, contains-filter, IsDistinct, arith, if◌then◌else◌, inl,
}
use imapsync.Base.Int.{pos, int_leb}
use imapsync.Base.Text.{Text, text, trim_space}
use imapsync.Base.Dict
use imapsync.Base.Result.{Error, Result, ok, err, errorf}
use imapsync.Config.{User, FolderPair}
use imapsync.Config.Checked.{names}
use imapsync.Base.Sort.{sort}
use imapsync.Store.Tables.{Store, new_store}
use imapsync.Store.Users.{upsert_user, load_into, user_of, query_users, list_folder_pairs}
use imapsync.Store.Valid.{IsValid}
use imapsync.Store.Opening.{Database, OpenFaults, schema_version, open_database}
use imapsync.Store.Opening.Migrated.{no_faults, IsReady, cache_of, open_database-IsReady}
use imapsync.Store.Opening.Kept.{lists_of, open_database-lists_of}
use imapsync.Store.Lock
use imapsync.Store.Lock.{
  Flock, lock_path, open_exclusive, opened, Host, IsExclusive, Reachable-IsExclusive,
}
use imapsync.Syncer.Pool.{State, Steps, hands, finishes, here, step, start, reload}
use imapsync.Syncer.Pool.Cycle.{count}
use imapsync.Syncer.Pool.Reload.{cycle_reloaded}
use imapsync.Cli.{reporting}
use imapsync.Cli.Commands.{AddUserFlags, db_add_user, db_remove_user, db_add_folder, db_import_csv}
use imapsync.Cli.Csv.{Reader}
use imapsync.Cli.Removal.{WithoutUser, db_remove_user-WithoutUser}
use imapsync.Cli.Steps.{CommandStep, Reachable, Reachable-IsValid}
use imapsync.Cli.Daemon.{load_from_sqlite}
use imapsync.Cli.Loading.{count_checks, FitsPaths, load_from_sqlite-Reachable}
use imapsync.Config.Load.{checked}
use imapsync.Tests.Configuring.{config}

abbrev ann_flags : AddUserFlags
ann_flags = record {
  name = text " ann ";
  a = text "ann@a";
  b = text "ann@b";
  path_a = [];
  path_b = [];
  disabled = false;
}

abbrev plain_quote : Text → Text
plain_quote s = s

abbrev with_ann : Store
with_ann = (db_add_user plain_quote none ann_flags new_store).store

abbrev sent : FolderPair
sent = record { a = text "Sent"; b = text "Sent Items" }

-- A file with a comment, a header and two users, the second of them without an address on B.
abbrev users_file : Reader
users_file path = ok (
  (text "# users" ∷ [])
      ∷ (text "name" ∷ text "user_a" ∷ text "user_b" ∷ [])
      ∷ (text "bob" ∷ text "bob@a" ∷ text "bob@b" ∷ text "no" ∷ [])
      ∷ (text "eve" ∷ text "eve@a" ∷ text " " ∷ [])
      ∷ [],
  none,
)

abbrev same_code : ℕ → ℕ
same_code c = c

abbrev imported : Store
imported =
    (db_import_csv same_code same_code users_file (λ n. none) (λ n. none)
      (record { users = text "u.csv"; folders = [] })
      (db_add_folder plain_quote none sent with_ann).store).store

imported-Reachable : Reachable imported
imported-Reachable =
    Reachable.next
      (Reachable.next
        (Reachable.next Reachable.created
          (CommandStep.add_user plain_quote none ann_flags new_store))
        (CommandStep.add_folder plain_quote none sent with_ann))
      (CommandStep.import_csv same_code same_code users_file (λ n. none) (λ n. none)
        (record { users = text "u.csv"; folders = [] })
        (db_add_folder plain_quote none sent with_ann).store)

Reachable-IsValid_example : IsValid imported
Reachable-IsValid_example = Reachable-IsValid imported-Reachable

with_ann_member : Dict.member (trim_space (text "ann ")) with_ann.users ≡ true
unfolding db_add_user upsert_user reporting Dict.member Dict.insert Dict.lookup trim_space list_eq
with_ann_member = refl

db_remove_user-WithoutUser_example :
    ((db_remove_user plain_quote none none (text "ann ") with_ann).result ≡ ok tt)
    × WithoutUser
        (trim_space (text "ann "))
        with_ann
        (db_remove_user plain_quote none none (text "ann ") with_ann).store
db_remove_user-WithoutUser_example =
    db_remove_user-WithoutUser plain_quote (text "ann ") with_ann with_ann_member

with_ann-FitsPaths : All (FitsPaths config) with_ann.users
unfolding db_add_user upsert_user reporting Dict.insert trim_space list_eq
with_ann-FitsPaths = ((inl refl, inl refl), tt)

load_from_sqlite-Reachable_example :
    load_from_sqlite (λ path. none) none none with_ann config
    ≡ checked
        (count_checks (load_into none none with_ann config).1)
        (load_into none none with_ann config).1
load_from_sqlite-Reachable_example =
    load_from_sqlite-Reachable (λ path. none) with_ann config refl
      (Reachable.next Reachable.created (CommandStep.add_user plain_quote none ann_flags new_store))
      with_ann-FitsPaths

-- A file of the first version, without the columns of the paths; adding the second one fails.
abbrev old_file : Database
old_file = record {
  user_version = pos 1;
  users = some (record {
    columns = [];
    rows =
        (
          text "ann",
          record { user_a = text "ann@a"; user_b = text "ann@b"; enabled = true; paths = [] },
        )
        ∷ [];
  });
  folder_pairs = some (sent ∷ []);
  sync_endpoint = some [];
  sync_msg_cache = none;
  user_status = some [];
  user_run = none;
}

abbrev full : Error
full = errorf (text "disk is full")

abbrev full_disk : OpenFaults
full_disk = record {
  opening = none;
  reading_version = none;
  dropping_endpoint = none;
  dropping_cache = none;
  setting_version = none;
  finding_users = none;
  reading_columns = none;
  adding = λ col. if col == text "path_b" then some full else none;
  creating_pairs = none;
  creating_users = none;
  creating_endpoint = none;
  creating_cache = none;
  creating_status = none;
  creating_run = none;
  creating_index = none;
}

open_database-lists_of_example :
    lists_of (open_database full_disk (text "x.db") old_file).1 ≡ lists_of old_file
open_database-lists_of_example = open_database-lists_of full_disk (text "x.db") old_file

open_database-IsReady_example :
    IsReady
      (if int_leb schema_version old_file.user_version then cache_of old_file else ([], []))
      (open_database no_faults (text "x.db") old_file)
unfolding trim_space
open_database-IsReady_example = open_database-IsReady (text "x.db") old_file refl

-- Locks as the list of the files that are locked.
abbrev list_lock : Text → List Text → Result (Unit {0}) × List Text
list_lock p fs = if contains fs p then (err (errorf (text "EWOULDBLOCK")), fs) else (ok tt, p ∷ fs)

abbrev list_unlock : Text → List Text → List Text
list_unlock p fs = filter (λ q. not (q == p)) fs

list_lock-ok : (p : Text) (fs : List Text) → contains fs p ≡ false → (list_lock p fs).0 ≡ ok tt
list_lock-ok p fs h = ground (arith, h)

list_lock-err :
    (p : Text) (fs : List Text)
    → contains fs p ≡ true
    → (e : Error) × ((list_lock p fs).0 ≡ err e) × ((list_lock p fs).1 ≡ fs)
list_lock-err p fs h = (errorf (text "EWOULDBLOCK"), ground (arith, h), ground (arith, h))

contains-list_lock :
    (p q : Text) (fs : List Text)
    → contains fs p ≡ false
    → contains (list_lock p fs).1 q ≡ (q == p || contains fs q)
contains-list_lock p q fs h = ground (arith, h)

contains-list_unlock :
    (p q : Text) (fs : List Text) → contains (list_unlock p fs) q ≡ (not (q == p) && contains fs q)
contains-list_unlock p q fs = ground (arith, contains-filter (λ r. not (r == p)) fs q)

abbrev locks : Flock
locks = record {
  Files = List Text;
  held = λ p fs. contains fs p;
  lock = list_lock;
  unlock = list_unlock;
  lock_grants = list_lock-ok;
  lock_refuses = list_lock-err;
  lock_held = contains-list_lock;
  unlock_held = contains-list_unlock;
}

abbrev no_store : Host locks
no_store = record { stores = []; files = [] }

abbrev one_store : Host locks
one_store =
    opened locks (open_exclusive locks none none (text "x.db") no_store.files) no_store.stores

-- A second process asks for the same database.
Reachable-IsExclusive_example :
    IsExclusive locks
      (opened locks (open_exclusive locks none none (text "x.db") one_store.files) one_store.stores)
Reachable-IsExclusive_example = Reachable-IsExclusive locks (
    Lock.Reachable.next
      (Lock.Reachable.next (Lock.Reachable.start [])
        (Lock.LockStep.opens none none (text "x.db") no_store))
      (Lock.LockStep.opens none none (text "x.db") one_store))

abbrev ann : User
ann = record {
  name = text "ann";
  user_a = text "ann@a";
  user_b = text "ann@b";
  path_a = [];
  path_b = [];
}

abbrev ann_done : State
ann_done = record { waiting = []; busy = []; done = ann ∷ [] }

-- The users in the file of the configuration give way to those of the database.
ann-Steps : Steps 1 false (start (reload (some with_ann) none none config).users) ann_done
unfolding reload query_users list_folder_pairs db_add_user upsert_user reporting Dict.insert
    Dict.keep trim_space list_eq sort user_of
ann-Steps = step (hands _ ann [] refl (omega arith)) (step (finishes _ ann [] [] refl) here)

config-IsDistinct : IsDistinct (names config config.users)
unfolding list_eq
config-IsDistinct = (refl, tt)

cycle_reloaded_example : count (λ u. u.name == text "ann") ann_done.done ≡ (
    if contains (names config (reload (some with_ann) none none config).users) (text "ann")
    then 1
    else 0)
cycle_reloaded_example =
    cycle_reloaded none none with_ann config 1 ann_done
      (Reachable-IsValid (
        Reachable.next Reachable.created
          (CommandStep.add_user plain_quote none ann_flags new_store)))
      config-IsDistinct ann-Steps (refl, refl) (text "ann")
