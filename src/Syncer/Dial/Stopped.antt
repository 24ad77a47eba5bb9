-- ===== src/Syncer/Dial/Stopped.antt =====
-- When `userStopped` skips a user.
use imapsync.Base.{◌≡◌, refl, false, ◌&&◌, not, Option, none, some, arith, list_eq, nat_eq}
use imapsync.Base.Int.{ℤ, pos, int_leb}
use imapsync.Base.Text.{Text}
use imapsync.Base.Dict
use imapsync.Base.Result.{Error}
use imapsync.Store.Tables.{Store, StatusRow}
use imapsync.Store.Runs.{user_status_of, scan_user_status}
use imapsync.Store.Runs.Streak.{streak_of}
use imapsync.Syncer.Dial.{user_stopped}

-- A user is skipped exactly if the limit is positive and the streak in the table has reached it;
-- without a store, or when the table cannot be read, no user is skipped.
pub user_stopped_iff :
    (limit : ℤ) (name : Text) (st : Store) (why : Error)
    → (user_stopped (some st) none limit name
        ≡ (not (int_leb limit (pos 0)) && int_leb limit (pos (streak_of name st))))
      × (user_stopped (some st) (some why) limit name ≡ false)
      × (user_stopped none none limit name ≡ false)
unfolding user_stopped user_status_of scan_user_status streak_of
user_stopped_iff limit name st why = (go (Dict.lookup name st.user_status) refl, ground arith, refl)
  where
    go :
        (found : Option StatusRow)
        → Dict.lookup name st.user_status ≡ found
        → user_stopped (some st) none limit name
          ≡ (not (int_leb limit (pos 0)) && int_leb limit (pos (streak_of name st)))
    go none e = ground (arith, e)
    go (some row) e = ground (arith, e)
