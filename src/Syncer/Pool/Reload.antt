-- ===== src/Syncer/Pool/Reload.antt =====
-- The cycle on the lists that were read again from the database.
use imapsync.Base.{
  ◌≡◌, refl, ℕ, false, Option, none, some, List, [], ◌∷◌, arith, eq_iff, contains, IsDistinct, ◌==◌,
  list_eq, nat_eq, if◌then◌else◌, ◌∙◌,
}
use imapsync.Base.Text.{Text}
use imapsync.Base.Result.{Error}
use imapsync.Config.{User, Config}
use imapsync.Config.Checked.{names}
use imapsync.Store.Tables.{Store}
use imapsync.Store.Users.{query_users, list_folder_pairs}
use imapsync.Store.Valid.{IsValid}
use imapsync.Cli.Loading.{IsDistinct-names}
use imapsync.Syncer.Pool.{State, Steps, start, IsOver, reload}
use imapsync.Syncer.Pool.Cycle.{count, cycle_exactly_once}

reload-IsDistinct :
    (users_fault folders_fault : Option Error) (db : Store) (c : Config)
    → IsValid db
    → IsDistinct (names c c.users)
    → IsDistinct (names c (reload (some db) users_fault folders_fault c).users)
unfolding reload query_users list_folder_pairs
reload-IsDistinct (some e) folders_fault db c valid distinct = distinct
reload-IsDistinct none (some e) db c valid distinct = distinct
reload-IsDistinct none none db c valid distinct = IsDistinct-names c db valid

count-names :
    (c : Config) (name : Text) (us : List User)
    → IsDistinct (names c us)
    → count (λ u. u.name == name) us ≡ (if contains (names c us) name then 1 else 0)
unfolding count
count-names c name [] distinct = refl
count-names c name (u ∷ us) (fresh, distinct) =
    ground (arith, count-names c name us distinct, eq_iff u.name name, eq_iff name u.name, fresh)

-- A cycle on the lists that were read again from a valid database, or that were kept because it could
-- not be read, processes each name that is listed exactly once and no other: the cycle is over, its
-- context was never done, and the names that were listed before are distinct.
pub cycle_reloaded :
    (users_fault folders_fault : Option Error) (db : Store) (c : Config) (w : ℕ) (s : State)
    → IsValid db
    → IsDistinct (names c c.users)
    → Steps w false (start (reload (some db) users_fault folders_fault c).users) s
    → IsOver s
    → (name : Text)
    → count (λ u. u.name == name) s.done ≡ (
        if contains (names c (reload (some db) users_fault folders_fault c).users) name
        then 1
        else 0)
cycle_reloaded users_fault folders_fault db c w s valid distinct steps over name =
    cycle_exactly_once w _ s steps over (λ u. u.name == name)
    ∙ count-names c name _ (reload-IsDistinct users_fault folders_fault db c valid distinct)
