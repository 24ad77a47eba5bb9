-- ===== src/Syncer/User/Recorded.antt =====
-- What the database holds of a user after `SyncUser`.
use imapsync.Base.{
  ℕ, ◌≡◌, refl, sym, true, false, Option, none, some, ◌==◌, list_eq, nat_eq, eq_refl, arith,
}
use mathlib.Core.Path.{subst}
use imapsync.Base.Int.{ℤ}
use imapsync.Base.Text.{Text}
use imapsync.Base.Dict
use imapsync.Base.Dict.{Dict, lookup-insert}
use imapsync.Base.Time.{Time}
use imapsync.Endpoint.{Endpoint}
use imapsync.Config.{User}
use imapsync.Store.Tables.{Store, StatusRow}
use imapsync.Store.Runs.{put_status, first_status, next_status, record_run, with_status}
use imapsync.Stats.{UserStats, Collector, begin_user, end_user, update}
use imapsync.Syncer.Dial.{user_stopped}
use imapsync.Syncer.Pair.{Rules}
use imapsync.Syncer.User.{Backends, run_result, persist_status}
use imapsync.Syncer.User.Whole.{
  Plan, Outside, Shared, counters, state_of, run_session, finish, sync_user,
}

-- The row has the counters, and its streak is 0 exactly if no error was counted.
abbrev pub Shows : StatusRow → UserStats → Type 0
Shows row us =
    (row.copied_a_b ≡ us.copied_a_to_b)
    × (row.copied_b_a ≡ us.copied_b_to_a)
    × (row.skipped_dup ≡ us.skipped_dup)
    × (row.errors ≡ us.errors)
    × (row.last_error ≡ us.last_err)
    × ((row.fail_streak == 0) ≡ (us.errors == 0))

-- The status of the user is that of a run with these counters.
abbrev pub IsRecorded : Text → Store → UserStats → Type 0
IsRecorded name st us =
    (row : StatusRow) × (Dict.lookup name st.user_status ≡ some row) × Shows row us

first_status-Shows : (now : Time) (us : UserStats) → Shows (first_status (run_result now us)) us
unfolding first_status list_eq
first_status-Shows now us = (refl, refl, refl, refl, refl, ground arith)

next_status-Shows :
    (now : Time) (us : UserStats) (old : StatusRow)
    → Shows (next_status (first_status (run_result now us)) old) us
unfolding first_status next_status list_eq
next_status-Shows now us old = (refl, refl, refl, refl, refl, ground arith)

with_status-run_result :
    (now : Time) (us : UserStats) → with_status (run_result now us) ≡ run_result now us
with_status-run_result now us = ground arith

put_status-IsRecorded :
    (name : Text) (now : Time) (us : UserStats) (d : Dict Text StatusRow)
    → (row : StatusRow) × (Dict.lookup name (put_status name (run_result now us) d) ≡ some row)
      × Shows row us
unfolding put_status
put_status-IsRecorded name now us d = go (Dict.lookup name d) refl
  where
    go :
        (found : Option StatusRow)
        → Dict.lookup name d ≡ found
        → (row : StatusRow) × (Dict.lookup name (put_status name (run_result now us) d) ≡ some row)
          × Shows row us
    go none e =
        let row = first_status (run_result now us) in
        (
          row,
          rw (e, put_status, lookup-insert name name row d, eq_refl name) refl,
          first_status-Shows now us,
        )
    go (some old) e =
        let row = next_status (first_status (run_result now us)) old in
        (
          row,
          rw (e, put_status, lookup-insert name name row d, eq_refl name) refl,
          next_status-Shows now us old,
        )

record_run-IsRecorded :
    (name : Text) (now : Time) (us : UserStats) (st : Store)
    → IsRecorded name (record_run none name (run_result now us) st).1 us
unfolding record_run
record_run-IsRecorded name now us st =
    rw (with_status-run_result now us) (put_status-IsRecorded name now us st.user_status)

module _ (r : Rules) (A B : Endpoint) {N : Type 0} (backends : Backends A B N) (connect_retries : ℤ)
    (plan : Plan A B) (outside : Outside) (u : User) where
  abbrev pub address_of : Shared N → ℕ
  address_of g = (begin_user outside.begun u.name g.collector).0

  abbrev pub shown : ℕ → Collector → UserStats
  shown address c = counters r A B backends connect_retries plan outside u c address

  finish-IsRecorded :
      (address : ℕ) (us : UserStats) (store : Store) (net : N) (c : Collector)
      → plan.has_state ≡ true
      → outside.record_fault ≡ none
      → let g = finish r A B backends connect_retries plan outside u address us store net c in
        IsRecorded u.name g.store (shown address g.collector)
  unfolding finish persist_status
  finish-IsRecorded address us store net c kept fine =
      let us' = shown address (end_user outside.ended address (update address (λ old. us) c)) in
      let written : (finish r A B backends connect_retries plan outside u address us store net
            c).store
          ≡ (record_run none u.name (run_result outside.recorded us') store).1 =
        rw (finish, kept, fine) refl in
      subst (λ st. IsRecorded u.name st us') (sym written)
        (record_run-IsRecorded u.name outside.recorded us' store)

  -- With a store that can be written, the status of a user who is not skipped is, after `SyncUser`,
  -- that of a run with the counters that the collector shows, however the run went; its streak is 0
  -- exactly if no error was counted. A user who is skipped leaves everything as it was.
  pub sync_user_lem :
      (g : Shared N)
      → let stopped =
          user_stopped
            (state_of r A B backends connect_retries plan outside u g.store)
            outside.status_fault
            plan.max_fail_streak
            u.name in
        let g' = sync_user r A B backends connect_retries plan outside u g in
        (stopped ≡ true → g' ≡ g)
        × (stopped ≡ false
            → plan.has_state ≡ true
            → outside.record_fault ≡ none
            → IsRecorded u.name g'.store (shown (address_of g) g'.collector))
  unfolding sync_user
  sync_user_lem g =
      let (us, store, net) =
        run_session r A B backends connect_retries plan outside u
          (shown (address_of g) (begin_user outside.begun u.name g.collector).1) g.store g.net in
      (
        λ yes. rw (sync_user, yes) refl,
        λ no kept fine.
            rw (sync_user, no)
              (finish-IsRecorded (address_of g) us store net
                (begin_user outside.begun u.name g.collector).1 kept fine),
      )
