-- ===== src/Syncer/User/Whole.antt =====
-- `SyncUser` of internal/syncer/syncer.go from the check of the streak to the record of the run.
use imapsync.Base.{ℕ, Bool, true, Option, none, some, List, ◌++◌, if◌then◌else◌}
use imapsync.Base.Int.{ℤ}
use imapsync.Base.Text.{Text, text}
use imapsync.Base.Time.{Time}
use imapsync.Base.Result.{Error, ok, err, wrap}
use imapsync.Endpoint.{Endpoint}
use imapsync.Config.{User, FolderPair}
use imapsync.Store.Tables.{Store}
use imapsync.Stats.{
  UserStats, Collector, add_error, begin_user, end_user, update, get_elem?, fresh_user,
}
use imapsync.Syncer.Discover.{Side}
use imapsync.Syncer.Dial.{resolve_folders, user_stopped}
use imapsync.Syncer.Pair.{Rules, World, Session}
use imapsync.Syncer.User.{Backends, Run, connect, visit_pairs, persist_status}

-- What the configuration says of folders and of the streak. `has_state` is whether the syncer has a
-- store.
pub record Plan (A B : Endpoint) : Type 0 where
  pub fold : ℕ → ℕ
  pub side_a : Side A.State
  pub side_b : Side B.State
  pub addr_a : Text
  pub addr_b : Text
  pub sync_all_folders : Bool
  pub folder_pairs : List FolderPair
  pub exclude : List Text
  pub max_fail_streak : ℤ
  pub has_state : Bool

-- What happens outside during the run: the times of its start, its end and its record, the world of
-- each call of `syncPair`, and the database's errors on reading and on writing the status.
pub record Outside : Type 0 where
  pub begun : Time
  pub ended : Time
  pub recorded : Time
  pub world : ℕ → World
  pub status_fault : Option Error
  pub record_fault : Option Error

-- What the users of a cycle share.
pub record Shared (N : Type 0) : Type 0 where
  pub collector : Collector
  pub store : Store
  pub net : N

module _ (r : Rules) (A B : Endpoint) {N : Type 0} (backends : Backends A B N) (connect_retries : ℤ)
    (plan : Plan A B) (outside : Outside) (u : User) where
  -- `sess.close()`, if the session is open.
  unfoldable pub close : Run r A B backends connect_retries u → N
  close run =
      if run.is_open
      then backends.close_b run.session.b (backends.close_a run.session.a run.net)
      else run.net

  -- The folders, then the pairs.
  unfoldable pub sync_folders :
      Run r A B backends connect_retries u → Run r A B backends connect_retries u
  unfolding resolve_folders visit_pairs
  sync_folders run =
      let s = run.session in
      let (resolved, a, b) =
        resolve_folders plan.fold plan.side_a plan.side_b plan.addr_a plan.addr_b
          plan.sync_all_folders plan.folder_pairs r.dir_a_to_b r.dir_b_to_a plan.exclude s.a s.b in
      let listed : Session r A B = record s { a = a; b = b } in
      elim resolved [
        | err why ↦ record run {
          session = record listed {
            us = add_error (wrap (text "user " ++ (u.name ++ text ": ")) why) s.us;
          };
        }
        | ok pairs ↦
            visit_pairs r A B backends connect_retries u outside.world pairs
              (record run { session = listed })
      ]

  -- The counters, the store and the network after the session.
  unfoldable pub run_session : UserStats → Store → N → UserStats × Store × N
  unfolding connect sync_folders close
  run_session us store net =
      let (connected, us', net') = connect r A B backends connect_retries u us net in
      elim connected [
        | none ↦ (us', store, net')
        | some ab ↦
            let opened : Session r A B = record {
              a = ab.0;
              b = ab.1;
              store = store;
              us = us';
              polls = 0;
            } in
            let run =
              sync_folders (record { session = opened; is_open = true; net = net'; passes = 0 }) in
            (run.session.us, run.session.store, close run)
      ]

  -- The syncer's store, as the functions that can do without one see it.
  abbrev pub state_of : Store → Option Store
  state_of st = if plan.has_state then some st else none

  -- The counters behind the pointer that `BeginUser` returned.
  abbrev pub counters : Collector → ℕ → UserStats
  counters c address = elim (get_elem? c.heap address) [ none ↦ fresh_user u.name | some us ↦ us ]

  -- The deferred calls: the end of the user, and the record of the run.
  unfoldable pub finish : ℕ → UserStats → Store → N → Collector → Shared N
  unfolding end_user update persist_status
  finish address us store net c =
      let filed = update address (λ old. us) c in
      record {
        collector = end_user outside.ended address filed;
        store =
            elim (persist_status outside.record_fault outside.recorded u.name
              (counters (end_user outside.ended address filed) address) (state_of store)) [
                | none ↦ store
                | some st ↦ st
              ];
        net = net;
      }

  unfoldable pub sync_user : Shared N → Shared N
  unfolding user_stopped begin_user run_session finish
  sync_user g =
      let (address, c) = begin_user outside.begun u.name g.collector in
      let (us, store, net) = run_session (counters c address) g.store g.net in
      if user_stopped (state_of g.store) outside.status_fault plan.max_fail_streak u.name
      then g
      else finish address us store net c
