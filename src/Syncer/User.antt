-- ===== src/Syncer/User.antt =====
-- `SyncUser`, `connect`, `reconnect` and `persistStatus` of internal/syncer/syncer.go.
pub mod Passes
pub mod Limit
pub mod Whole
pub mod Recorded
use imapsync.Base.{
  ℕ, zero, suc, ◌+◌, ◌<◌, Bool, true, false, not, Option, none, some, List, [], ◌∷◌, ◌++◌, ltb,
  if◌then◌else◌,
}
use imapsync.Base.Int.{ℤ}
use imapsync.Base.Text.{Text, text}
use imapsync.Base.Time.{Time}
use imapsync.Base.Result.{Error, Result, ok, err, wrap}
use imapsync.Endpoint.{Endpoint}
use imapsync.Config.{User, FolderPair, connect_as, side_a, side_b}
use imapsync.Store.Tables.{Store}
use imapsync.Store.Runs.{RunResult, record_run, status_ok, status_error}
use imapsync.Stats.{UserStats, add_error}
use imapsync.Syncer.Errors.{is_conn_err}
use imapsync.Syncer.Dial.{dial}
use imapsync.Syncer.Pair.{Rules, World, Session, sync_pair}

-- `persistStatus`: what is recorded of a run that is over; a failed write is only logged.
abbrev pub run_result : Time → UserStats → RunResult
run_result now us = record {
  at = now;
  status = if ltb 0 us.errors then status_error else status_ok;
  copied_a_to_b = us.copied_a_to_b;
  copied_b_to_a = us.copied_b_to_a;
  skipped_dup = us.skipped_dup;
  errors = us.errors;
  last_error = us.last_err;
}

unfoldable pub persist_status : Option Error → Time → Text → UserStats → Option Store → Option Store
persist_status fault now name us none = none
persist_status fault now name us (some st) = some (record_run fault name (run_result now us) st).1

-- The two backends; connecting and closing change the world `N` outside.
pub record Backends (A B : Endpoint) (N : Type 0) : Type 0 where
  pub connect_a : Text → N → Result A.State × N
  pub connect_b : Text → N → Result B.State × N
  pub close_a : A.State → N → N
  pub close_b : B.State → N → N
  pub cancelled : ℕ → Option Error

module _ (r : Rules) (A B : Endpoint) {N : Type 0} (backends : Backends A B N) (connect_retries : ℤ)
    (u : User) where
  abbrev pub user_context : Text
  user_context = text "user " ++ (u.name ++ text ": ")

  -- Both endpoints, or the counters with the error; a first endpoint is closed again.
  unfoldable pub connect : UserStats → N → Option (A.State × B.State) × UserStats × N
  connect us n =
      let (dialled_a, n1) =
        dial (backends.connect_a (connect_as u side_a)) backends.cancelled connect_retries n in
      elim dialled_a [
        | err why ↦ (none, add_error (wrap user_context why) us, n1)
        | ok a ↦
            let (dialled_b, n2) =
              dial (backends.connect_b (connect_as u side_b)) backends.cancelled connect_retries
                n1 in
            elim dialled_b [
              | err why ↦ (none, add_error (wrap user_context why) us, backends.close_a a n2)
              | ok b ↦ (some (a, b), us, n2)
            ]
      ]

  -- A run over the pairs; `passes` counts the calls of `syncPair`. After a failed `reconnect` the
  -- session is not open.
  pub record Run : Type 0 where
    pub session : Session r A B
    pub is_open : Bool
    pub net : N
    pub passes : ℕ

  abbrev pub note : Option Error → Session r A B → Session r A B
  note none s = s
  note (some why) s = record s { us = add_error why s.us }

  -- `syncPair` and the error that it reports.
  unfoldable pub try_pair : (ℕ → World) → FolderPair → Run → Option Error × Run
  try_pair world fp run =
      let (failed, s) = sync_pair r A B (world run.passes) u.name fp run.session in
      (failed, record run { session = note failed s; passes = run.passes + 1 })

  -- After a lost connection the pair is tried once more; `false` ends the user.
  unfoldable pub retry_pair : (ℕ → World) → FolderPair → Run → Bool × Run
  unfolding connect try_pair
  retry_pair world fp run =
      let closed = backends.close_b run.session.b (backends.close_a run.session.a run.net) in
      let (connected, us, n) = connect run.session.us closed in
      elim connected [
        | none ↦ (
          false,
          record run { session = record (run.session) { us = us }; is_open = false; net = n },
        )
        | some ab ↦
            let opened : Session r A B = record (run.session) { a = ab.0; b = ab.1; us = us } in
            let again : Run = record run { session = opened; net = n } in
            (true, (try_pair world fp again).1)
      ]

  -- One round of the loop over the pairs.
  unfoldable pub visit_pair : (ℕ → World) → FolderPair → Run → Bool × Run
  unfolding try_pair retry_pair
  visit_pair world fp run =
      let s = run.session in
      let asked : Run = record run { session = record s { polls = s.polls + 1 } } in
      let (failed, tried) = try_pair world fp asked in
      let retried = retry_pair world fp tried in
      elim ((world run.passes).ctx s.polls) [
        | some why ↦ (
          false,
          record asked {
            session =
                note
                  (some (wrap (text "user " ++ (u.name ++ text ": processing interrupted: ")) why))
                  asked.session;
          },
        )
        | none ↦ elim failed [
          | none ↦ (true, tried)
          | some why ↦ if is_conn_err why then retried else (true, tried)
        ]
      ]

  unfoldable pub visit_pairs : (ℕ → World) → List FolderPair → Run → Run
  visit_pairs world [] run = run
  visit_pairs world (fp ∷ fps) run =
      let (go_on, run') = visit_pair world fp run in
      let more = visit_pairs world fps run' in if go_on then more else run'
