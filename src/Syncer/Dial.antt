-- ===== src/Syncer/Dial.antt =====
-- `dial`, `resolveFolders` and `userStopped` of internal/syncer.
pub mod Retry
pub mod Stopped
use imapsync.Base.{
  ℕ, zero, suc, ◌+◌, Bool, true, false, ◌&&◌, not, Option, none, some, List, [], ◌∷◌, ◌++◌,
  if◌then◌else◌,
}
use imapsync.Base.Int.{ℤ, pos, negsuc, int_leb, int_ltb, pos_part}
use imapsync.Base.Text.{Text, text}
use imapsync.Base.Result.{Error, Result, ok, err, wrap, errorf}
use imapsync.Config.{FolderPair}
use imapsync.Endpoint.{FolderInfo}
use imapsync.Store.Tables.{Store}
use imapsync.Store.Runs.{user_status_of}
use imapsync.Syncer.Discover.{Side, pair_folders}
use imapsync.Syncer.Errors.{is_conn_err}

-- `max(1, connect_retries+1)` attempts are one, and this many more.
unfoldable pub retries : ℤ → ℕ
retries n = pos_part n

-- `connect` is `backend.Connect`; it changes the world `N` outside. `cancelled i` is the context's
-- error, if the context is done before the pause in front of attempt `i` is over.
module _ {N S : Type 0} (connect : N → Result S × N) (cancelled : ℕ → Option Error) where
  -- Attempt `i`, with `left` more allowed after it.
  unfoldable pub attempt : ℕ → ℕ → N → Result S × N
  attempt zero i n = connect n
  attempt (suc left) i n =
      let (outcome, n') = connect n in
      let next = attempt left (i + 1) n' in
      elim outcome [
        | ok s ↦ (ok s, n')
        | err why ↦
            if is_conn_err why
            then elim (cancelled (i + 1)) [ some stop ↦ (err stop, n') | none ↦ next ]
            else (err why, n')
      ]

  unfoldable pub dial : ℤ → N → Result S × N
  unfolding attempt retries
  dial connect_retries n = attempt (retries connect_retries) 0 n

-- `resolveFolders`; the sides' addresses stand in the message of a side without a lister.
module _ (fold : ℕ → ℕ) {A B : Type 0} (side_a : Side A) (side_b : Side B)
    (addr_a addr_b : Text) where
  abbrev no_lister : Text → Error
  no_lister addr =
      errorf (text "sync_all_folders: " ++ (addr ++ text " does not support folder discovery"))

  unfoldable pub resolve_folders :
      Bool → List FolderPair → Bool → Bool → List Text → A → B → Result (List FolderPair) × A × B
  unfolding pair_folders
  resolve_folders false configured dir_a_to_b dir_b_to_a exclude sa sb = (ok configured, sa, sb)
  resolve_folders true configured dir_a_to_b dir_b_to_a exclude sa sb = elim side_a.lister [
    | none ↦ (err (no_lister addr_a), sa, sb)
    | some list_a ↦ elim side_b.lister [
      | none ↦ (err (no_lister addr_b), sa, sb)
      | some list_b ↦
          let (found_a, sa') = list_a sa in
          elim found_a [
            | err why ↦ (err (wrap (text "sync_all_folders, side A: ") why), sa', sb)
            | ok fa ↦
                let (found_b, sb') = list_b sb in
                elim found_b [
                  | err why ↦ (err (wrap (text "sync_all_folders, side B: ") why), sa', sb')
                  | ok fb ↦
                      let (pairs, created_a, created_b) =
                        pair_folders fold side_a side_b dir_a_to_b dir_b_to_a exclude fa fb sa'
                          sb' in
                      (ok pairs, created_a, created_b)
                ]
          ]
    ]
  ]

-- `userStopped`: `none` stands for a syncer without a store; a failed read does not stop the user.
unfoldable pub user_stopped : Option Store → Option Error → ℤ → Text → Bool
user_stopped none fault max_fail_streak name = false
user_stopped (some st) fault max_fail_streak name =
    let found = user_status_of fault name st in
    if int_leb max_fail_streak (pos 0) then false else elim found [
      | err why ↦ false
      | ok status ↦ elim status [
        | none ↦ false
        | some row ↦ int_leb max_fail_streak (pos row.fail_streak)
      ]
    ]
