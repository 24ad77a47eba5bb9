-- ===== src/Cli/Loading.antt =====
-- The lists that the daemon loads from a database that the subcommands have filled.
use imapsync.Base.{
  ◌≡◌, refl, ap, sym, ◌⊎◌, ℕ, ◌+◌, ltb, true, false, ◌&&◌, ◌||◌, not, Option, none, List, [], ◌∷◌,
  map, arith, eq_refl, All, IsDistinct, contains, length, ◌==◌, eq_iff, list_eq, nat_eq,
}
use mathlib.Core.Path.{subst}
use imapsync.Base.Int.{pos, int_leb}
use imapsync.Base.Text.{Text, is_empty}
use imapsync.Base.Dict
use imapsync.Base.Dict.{Dict}
use imapsync.Base.Dict.Rows.{All-keep, IsDistinct-keep}
use imapsync.Base.Sort.{sort, text_leb, All-sort, IsDistinct-sort}
use imapsync.Base.Result.{Error}
use imapsync.Config.{User, FolderPair, Config, path_overridable}
use imapsync.Config.Servers.{refuse}
use imapsync.Config.Validate.{
  ConfigError, no_folders, no_users, too_many_workers, check_folders, check_users,
  validate_entities,
}
use imapsync.Config.Checked.{IsUsable, names, check_user_iff}
use imapsync.Config.Load.{checked}
use imapsync.Store.Tables.{Store, UserRow}
use imapsync.Store.Users.{user_of, query_users, pair_leb, list_folder_pairs, load_into}
use imapsync.Store.Valid.{IsValidUser, IsValidPair, IsValid}
use imapsync.Cli.Steps.{Reachable, Reachable-IsValid}
use imapsync.Cli.Daemon.{load_from_sqlite}

module _ (c : Config) where
  check_users_complete :
      (i : ℕ) (seen : List Text) (us : List User)
      → All (IsUsable c) us
      → IsDistinct (names c us)
      → ((k : Text) → contains seen k ≡ true → contains (names c us) k ≡ false)
      → check_users c i seen us ≡ none
  unfolding check_users
  check_users_complete i seen [] usable distinct fresh = refl
  check_users_complete i seen (u ∷ us) (now, usable) (first, distinct) fresh =
      let rest =
        check_users_complete (i + 1) (u.name ∷ seen) us usable distinct
          (λ k h. ground (arith, eq_iff k u.name, first, h, fresh k)) in
      rw ((check_user_iff c i u).1 now, rest) (ground (arith, eq_refl u.name, fresh u.name))

check_folders_complete :
    (i : ℕ) (fs : List FolderPair) → All IsValidPair fs → check_folders i fs ≡ none
unfolding check_folders
check_folders_complete i [] h = refl
check_folders_complete i (f ∷ fs) (now, h) =
    ground (arith, now, check_folders_complete (i + 1) fs h)

-- The checks of `ValidateEntities` that only count.
abbrev pub count_checks : Config → Option ConfigError
count_checks c = refuse (length c.folders == 0 && not c.sync_all_folders) no_folders (
    refuse (length c.users == 0) no_users (
      refuse (int_leb (pos (length c.users)) c.workers && ltb 1 (length c.users)) too_many_workers
        none))

validate_entities_counts :
    (c : Config)
    → check_folders 0 c.folders ≡ none
    → check_users c 0 [] c.users ≡ none
    → validate_entities c ≡ count_checks c
unfolding validate_entities
validate_entities_counts c folders users = rw (folders, users) refl

-- A path is stored for a user only where the side's type takes one.
abbrev pub FitsPaths : Config → Text × UserRow → Type 0
FitsPaths c p =
    ((is_empty (p.1).path_a ≡ true) ⊎ (path_overridable c.server_a.type ≡ true))
    × ((is_empty (p.1).path_b ≡ true) ⊎ (path_overridable c.server_b.type ≡ true))

IsUsable-map :
    (c : Config) (rows : Dict Text UserRow)
    → All IsValidUser rows
    → All (FitsPaths c) rows
    → All (IsUsable c) (map user_of rows)
unfolding user_of
IsUsable-map c [] valid fits = tt
IsUsable-map c (row ∷ rows) (v, valid) (f, fits) =
    ((v.0, v.1, v.2, f.0, f.1), IsUsable-map c rows valid fits)

names-map :
    (c : Config) (rows : Dict Text UserRow) → names c (map user_of rows) ≡ map (λ p. p.0) rows
unfolding user_of
names-map c [] = refl
names-map c (row ∷ rows) = ap (◌∷◌ row.0) (names-map c rows)

keys_lem : (rows : Dict Text UserRow) → Dict.keys rows ≡ map (λ p. p.0) rows
unfolding Dict.keys
keys_lem [] = refl
keys_lem (row ∷ rows) = ap (◌∷◌ row.0) (keys_lem rows)

-- The users that are loaded have distinct names.
pub IsDistinct-names :
    (c : Config) (s : Store)
    → IsValid s
    → IsDistinct (
        names c (
          map user_of (
            sort
              (λ (p q : Text × UserRow). text_leb p.0 q.0)
              (Dict.keep (λ name row. not true || row.enabled) s.users))))
IsDistinct-names c s valid = subst IsDistinct (sym (names-map c _)) (
    IsDistinct-sort _ (λ (p : Text × UserRow). p.0) _
      (subst IsDistinct (keys_lem _) (IsDistinct-keep _ s.users valid.1)))

module _ (s : Store) (cfg : Config) (valid : IsValid s) where
  -- The rows of the users that are loaded, in their order.
  rows : Dict Text UserRow
  rows =
      sort (λ (p q : Text × UserRow). text_leb p.0 q.0)
        (Dict.keep (λ name row. not true || row.enabled) s.users)

  filled : Config
  filled = record cfg { users = map user_of rows; folders = sort pair_leb s.folder_pairs }

  rows-All : (P : Text × UserRow → Type 0) → All P s.users → All P rows
  unfolding rows
  rows-All P h = All-sort _ P _ (All-keep P _ s.users h)

  users_pass : All (FitsPaths cfg) s.users → check_users filled 0 [] filled.users ≡ none
  unfolding filled rows
  users_pass fits =
      check_users_complete filled 0 [] (map user_of rows)
        (IsUsable-map filled rows (rows-All IsValidUser valid.0) (rows-All (FitsPaths cfg) fits))
        (IsDistinct-names filled s valid) (λ k h. cc)

  folders_pass : check_folders 0 filled.folders ≡ none
  unfolding filled
  folders_pass = check_folders_complete 0 _ (All-sort pair_leb IsValidPair s.folder_pairs valid.2)

-- What `loadFromSQLite` loads from a database that the subcommands have filled passes every check of
-- its names, addresses and folder pairs, so that only the numbers of users, pairs and workers can be
-- refused. The database opens and is read without an error, and a path is stored for a user only
-- where the type of that side takes one.
pub load_from_sqlite-Reachable :
    (opening : Text → Option Error) (s : Store) (cfg : Config)
    → opening cfg.sqlite_path ≡ none
    → Reachable s
    → All (FitsPaths cfg) s.users
    → load_from_sqlite opening none none s cfg
      ≡ checked (count_checks (load_into none none s cfg).1) (load_into none none s cfg).1
unfolding load_from_sqlite load_into query_users list_folder_pairs filled rows
load_from_sqlite-Reachable opening s cfg opens reached fits =
    let valid = Reachable-IsValid reached in
    rw (load_from_sqlite, opens)
      (ap (λ why. checked why (filled s cfg valid))
        (validate_entities_counts (filled s cfg valid) (folders_pass s cfg valid)
          (users_pass s cfg valid fits)))
