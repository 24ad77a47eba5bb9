-- ===== src/Config/Validate.antt =====
-- `validateBase` and `ValidateEntities` of config/config.go.
use imapsync.Base.{
  ℕ, ◌+◌, ltb, Bool, ◌&&◌, ◌||◌, not, Option, none, some, List, [], ◌∷◌, ◌==◌, list_eq, nat_eq,
  contains, length, if◌then◌else◌,
}
use imapsync.Base.Int.{pos, int_ltb, int_leb}
use imapsync.Base.Text.{Text, is_empty}
use imapsync.Config.{
  FolderPair, User, Config, source_yaml, source_sqlite, direction_both, direction_a_to_b,
  direction_b_to_a, read_only_type, path_overridable, folder_discoverable,
}
use imapsync.Config.Servers.{ServerError, refuse, first_error, is_blank, validate_server}

pub data ConfigError : Type 0 where
  server_a_invalid server_b_invalid : ServerError → ConfigError
  sqlite_path_required unknown_source state_cache_needs_path unknown_direction : ConfigError
  both_read_only a_read_only b_read_only a_not_discoverable b_not_discoverable : ConfigError
  workers_below_one batch_below_one : ConfigError
  no_folders no_users too_many_workers : ConfigError
  empty_folder empty_name empty_address path_a_invalid path_b_invalid duplicate_name :
      ℕ → ConfigError

unfoldable pub in_server : (ServerError → ConfigError) → Option ServerError → Option ConfigError
in_server side none = none
in_server side (some why) = some (side why)

unfoldable pub check_source : Config → Option ConfigError
check_source c =
    if c.source == source_yaml
    then none
    else if c.source == source_sqlite
    then refuse (is_blank c.sqlite_path) sqlite_path_required none
    else some unknown_source

unfoldable pub check_direction : Config → Option ConfigError
check_direction c =
    refuse
      (not (
        c.direction == direction_both
        || c.direction == direction_a_to_b
        || c.direction == direction_b_to_a))
      unknown_direction none

unfoldable pub check_read_only : Config → Option ConfigError
check_read_only c =
    let a = read_only_type c.server_a.type in
    let b = read_only_type c.server_b.type in
    refuse (a && b) both_read_only (
      refuse (a && c.direction == direction_b_to_a) a_read_only
        (refuse (b && c.direction == direction_a_to_b) b_read_only none))

unfoldable pub check_discovery : Config → Option ConfigError
check_discovery c =
    refuse (c.sync_all_folders && not (folder_discoverable c.server_a.type)) a_not_discoverable (
      refuse (c.sync_all_folders && not (folder_discoverable c.server_b.type)) b_not_discoverable
        none)

unfoldable pub check_counts : Config → Option ConfigError
check_counts c =
    refuse (int_ltb c.workers (pos 1)) workers_below_one
      (refuse (int_ltb c.fetch_batch_size (pos 1)) batch_below_one none)

module _ (lower : ℕ → ℕ) (load_ca : Text → Bool) where
  unfoldable pub validate_base : Config → Option ConfigError
  validate_base c =
      first_error (in_server server_a_invalid (validate_server lower load_ca c.server_a)) (
        first_error (in_server server_b_invalid (validate_server lower load_ca c.server_b)) (
          first_error (check_source c) (
            refuse (c.state_cache && is_blank c.sqlite_path) state_cache_needs_path (
              first_error (check_direction c) (
                first_error (check_read_only c)
                  (first_error (check_discovery c) (check_counts c)))))))

-- The loops carry the position for the error.
unfoldable pub check_folders : ℕ → List FolderPair → Option ConfigError
check_folders i [] = none
check_folders i (f ∷ rest) =
    let more = check_folders (i + 1) rest in
    refuse (is_blank f.a || is_blank f.b) (empty_folder i) more

module _ (c : Config) where
  unfoldable pub check_user : ℕ → User → Option ConfigError
  check_user i u = refuse (is_blank u.name) (empty_name i) (
      refuse (is_blank u.user_a || is_blank u.user_b) (empty_address i) (
        refuse (not (is_empty u.path_a) && not (path_overridable c.server_a.type))
          (path_a_invalid i)
          (refuse (not (is_empty u.path_b) && not (path_overridable c.server_b.type))
            (path_b_invalid i) none)))

  unfoldable pub check_users : ℕ → List Text → List User → Option ConfigError
  check_users i seen [] = none
  check_users i seen (u ∷ rest) =
      let more = check_users (i + 1) (u.name ∷ seen) rest in
      first_error (check_user i u) (refuse (contains seen u.name) (duplicate_name i) more)

unfoldable pub validate_entities : Config → Option ConfigError
validate_entities c = refuse (length c.folders == 0 && not c.sync_all_folders) no_folders (
    first_error (check_folders 0 c.folders) (
      refuse (length c.users == 0) no_users (
        first_error (check_users c 0 [] c.users) (
          refuse (int_leb (pos (length c.users)) c.workers && ltb 1 (length c.users))
            too_many_workers none))))
