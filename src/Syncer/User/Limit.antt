-- ===== src/Syncer/User/Limit.antt =====
-- What `persistStatus` records over several runs, and whom `userStopped` then skips.
use imapsync.Base.{
  ℕ, ◌+◌, ◌≤◌, ◌<◌, ◌≡◌, refl, ap, ◌∙◌, true, false, ◌&&◌, not, Option, none, some, List, [], ◌∷◌,
  length, map, All, list_eq, nat_eq, arith,
}
use imapsync.Base.Int.{pos, int_leb}
use imapsync.Base.Text.{Text}
use imapsync.Base.Time.{Time}
use imapsync.Base.Result.{errorf}
use imapsync.Store.Tables.{Store}
use imapsync.Store.Runs.{RunResult, record_run}
use imapsync.Store.Runs.Streak.{record_runs, streak_of, streak_after, streak-record_runs}
use imapsync.Stats.{UserStats}
use imapsync.Syncer.Dial.{user_stopped}
use imapsync.Syncer.Dial.Stopped.{user_stopped_iff}
use imapsync.Syncer.User.{run_result, persist_status}

-- The store after these runs of a user, the oldest first, each written without a fault.
unfoldable pub persist_runs : Text → List (Time × UserStats) → Option Store → Option Store
unfolding persist_status
persist_runs name [] st = st
persist_runs name ((now, us) ∷ runs) st =
    persist_runs name runs (persist_status none now name us st)

abbrev results : List (Time × UserStats) → List RunResult
results = map (λ run. run_result run.0 run.1)

persist_runs-record_runs :
    (name : Text) (runs : List (Time × UserStats)) (st : Store)
    → persist_runs name runs (some st) ≡ some (record_runs name (results runs) st)
unfolding persist_runs record_runs persist_status
persist_runs-record_runs name [] st = refl
persist_runs-record_runs name ((now, us) ∷ runs) st =
    persist_runs-record_runs name runs (record_run none name (run_result now us) st).1

-- Each of the runs had an error.
abbrev pub HaveFailed : List (Time × UserStats) → Type 0
HaveFailed runs = All (λ run. 0 < run.1.errors) runs

streak_after-failed :
    (n : ℕ) (runs : List (Time × UserStats))
    → HaveFailed runs
    → streak_after n (results runs) ≡ n + length runs
unfolding streak_after list_eq
streak_after-failed n [] h = omega arith
streak_after-failed n ((now, us) ∷ runs) (failed, h) =
    ground (arith, failed, streak_after-failed (n + 1) runs h)

streak_after_clean :
    (n : ℕ) (now : Time) (us : UserStats)
    → us.errors ≡ 0
    → streak_after n (results ((now, us) ∷ [])) ≡ 0
unfolding streak_after list_eq
streak_after_clean n now us clean = ground (arith, clean)

-- Who is skipped after these runs.
user_stopped-streak_after :
    (limit : ℕ) (name : Text) (st : Store) (runs : List (Time × UserStats)) (n : ℕ)
    → streak_after (streak_of name st) (results runs) ≡ n
    → user_stopped (persist_runs name runs (some st)) none (pos limit) name
      ≡ (not (int_leb (pos limit) (pos 0)) && int_leb (pos limit) (pos n))
user_stopped-streak_after limit name st runs n e =
    ap (λ s. user_stopped s none (pos limit) name) (persist_runs-record_runs name runs st)
    ∙ (user_stopped_iff (pos limit) name (record_runs name (results runs) st) (errorf [])).0
    ∙ ap (λ k. not (int_leb (pos limit) (pos 0)) && int_leb (pos limit) (pos k))
        (streak-record_runs name (results runs) st ∙ e)

-- After as many failed runs as the limit, one after the other, the user is skipped, whatever was
-- recorded before; after a run without an error the user is not. The limit is at least 1.
pub user_stopped-persist_runs :
    (limit : ℕ) (name : Text) (st : Store) (runs : List (Time × UserStats)) (now : Time)
    (us : UserStats)
    → 1 ≤ limit
    → HaveFailed runs
    → limit ≤ length runs
    → us.errors ≡ 0
    → (user_stopped (persist_runs name runs (some st)) none (pos limit) name ≡ true)
      × (user_stopped (persist_status none now name us (some st)) none (pos limit) name ≡ false)
unfolding persist_runs
user_stopped-persist_runs limit name st runs now us positive failed enough clean =
    let long = streak_after-failed (streak_of name st) runs failed in
    let none_left = streak_after_clean (streak_of name st) now us clean in
    (
      user_stopped-streak_after limit name st runs (streak_of name st + length runs) long
          ∙ ground (arith, positive, enough),
      user_stopped-streak_after limit name st ((now, us) ∷ []) 0 none_left
          ∙ ground (arith, positive),
    )
