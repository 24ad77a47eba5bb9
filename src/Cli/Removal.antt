-- ===== src/Cli/Removal.antt =====
-- What `db-remove-user` leaves of a user, and of the others.
use imapsync.Base.{
  ◌≡◌, refl, true, not, none, ◌==◌, eq_comm, list_eq, nat_eq, pair_eq, arith, if◌then◌else◌,
}
use imapsync.Base.Int.{ℤ, int_eq}
use imapsync.Base.Text.{Text, trim_space}
use imapsync.Base.Dict
use imapsync.Base.Dict.{Dict, lookup-keep, lookup-erase}
use imapsync.Base.Result.{ok}
use imapsync.Store.Tables.{Store, Scope}
use imapsync.Store.Users.{delete_user}
use imapsync.Store.Runs.{forget_user}
use imapsync.Cli.{reporting}
use imapsync.Cli.Commands.{db_remove_user}

-- Nothing is found for the one user, and for another what was there before.
abbrev pub WithoutUser : Text → Store → Store → Type 0
WithoutUser name s s' =
    (u : Text)
    → (Dict.lookup u s'.users ≡ (if u == name then none else Dict.lookup u s.users))
      × (Dict.lookup u s'.user_status ≡ (if u == name then none else Dict.lookup u s.user_status))
      × ((at : ℤ)
          → Dict.lookup (u, at) s'.user_run
            ≡ (if u == name then none else Dict.lookup (u, at) s.user_run))
      × ((side : Text × Text)
          → Dict.lookup (u, side) s'.sync_endpoint
            ≡ (if u == name then none else Dict.lookup (u, side) s.sync_endpoint))
      × ((side : Text × Text) (id : Text)
          → Dict.lookup ((u, side), id) s'.sync_msg_cache
            ≡ (if u == name then none else Dict.lookup ((u, side), id) s.sync_msg_cache))

-- A user that the database has is removed with everything that is stored for it, when no statement
-- fails: the row, the status, the history and the cache of each pair and side. Every other user
-- keeps all of this.
pub db_remove_user-WithoutUser :
    (quote : Text → Text) (name : Text) (s : Store)
    → Dict.member (trim_space name) s.users ≡ true
    → ((db_remove_user quote none none name s).result ≡ ok tt)
      × WithoutUser (trim_space name) s (db_remove_user quote none none name s).store
unfolding db_remove_user delete_user forget_user reporting
db_remove_user-WithoutUser quote name s found =
    let n = trim_space name in
    rw (db_remove_user, delete_user, found)
      (
        refl,
        λ u. (
          ground (arith, eq_comm n u, lookup-erase n u s.users),
          ground (arith, lookup-keep (λ k. not (k == n)) u s.user_status),
          λ at. ground (arith, lookup-keep (λ (k : Text × ℤ). not (k.0 == n)) (u, at) s.user_run),
          λ side.
              ground (arith, lookup-keep (λ (k : Scope). not (k.0 == n)) (u, side) s.sync_endpoint),
          λ side id. ground (
            arith,
            lookup-keep (λ (k : Scope × Text). not ((k.0).0 == n)) ((u, side), id) s.sync_msg_cache,
          ),
        ),
      )
