-- ===== src/Tests/Running.antt =====
-- The theorems on copying, on a user's run and on the rows of the cache at concrete inputs.
use imapsync.Base.{
  arith, ℕ, ◌+◌, ◌*◌, ◌≤◌, ◌≡◌, refl, true, false, none, some, List, [], ◌∷◌, list_eq, nat_eq,
  pair_eq, length,
}
use imapsync.Base.Int.{pos}
use imapsync.Base.Text.{Text, text}
use imapsync.Base.Result.{ok}
use imapsync.Dedup.{Entry, entry_of}
use imapsync.Config.{User}
use imapsync.Store.Tables.{Store}
use imapsync.Store.State.{put_cached_msgs}
use imapsync.Stats.{UserStats, fresh_user, begin_cycle, new}
use imapsync.Base.Time.{Time}
use imapsync.Syncer.Copy.{copy_missing}
use imapsync.Syncer.Copy.Outcome.{copy_missing_counts}
use imapsync.Syncer.Dial.{user_stopped}
use imapsync.Syncer.User.{Backends, Run, visit_pairs, persist_status}
use imapsync.Syncer.User.Limit.{persist_runs, user_stopped-persist_runs}
use imapsync.Syncer.User.Whole.{Plan, Outside, Shared, sync_user}
use imapsync.Syncer.User.Recorded.{IsRecorded, shown, address_of, sync_user_lem}
use imapsync.Syncer.User.Passes.{visit_pairs_passes}
use imapsync.Tests.{plain_mail, first_letter, second_letter, folder}
use imapsync.Tests.Syncing.{rules, world, session, inbox}
use imapsync.Tests.Storing.{store, side_a, two_cached}

abbrev two_entries : List Entry
two_entries = entry_of first_letter ∷ entry_of second_letter ∷ []

copy_missing_counts_example :
    let c =
      copy_missing plain_mail
        (text "X-Hash")
        (folder false)
        (folder false)
        (λ k. none)
        true
        (λ e. e.id)
        (text "stop")
        two_entries
        []
        []
        (fresh_user (text "ann"))
        0 in
    c.n + c.us.errors ≡ (fresh_user (text "ann")).errors + length two_entries
copy_missing_counts_example =
    copy_missing_counts plain_mail (text "X-Hash") (folder false) (folder false) (λ k. none)
      (λ k. refl) true (λ e. e.id) (text "stop") two_entries [] [] (fresh_user (text "ann")) 0

abbrev flags : List Text
flags = text "Seen" ∷ text "Draft" ∷ []

abbrev full : Store
full = (put_cached_msgs none side_a two_cached store).1

abbrev backends : Backends (folder false) (folder true) ℕ
backends = record {
  connect_a = λ name n. (ok [], n + 1);
  connect_b = λ name n. (ok [], n + 1);
  close_a = λ s n. n;
  close_b = λ s n. n;
  cancelled = λ i. none;
}

abbrev ann : User
ann = record { name = text "ann"; user_a = text "a"; user_b = text "b"; path_a = []; path_b = [] }

abbrev first_run : Run rules (folder false) (folder true) backends (pos 3) ann
first_run = record { session = session; is_open = true; net = 0; passes = 0 }

visit_pairs_passes_example :
    (visit_pairs rules
      (folder false)
      (folder true)
      backends
      (pos 3)
      ann
      (λ i. world)
      (inbox ∷ [])
      first_run).passes
    ≤ 0 + 2 * 1
visit_pairs_passes_example =
    visit_pairs_passes rules (folder false) (folder true) backends (pos 3) ann (λ i. world)
      (inbox ∷ []) first_run

-- A run with an error.
abbrev failed_run : UserStats
failed_run = record (fresh_user (text "ann")) { errors = 1; last_err = text "lost" }

abbrev failed_runs : List (Time × UserStats)
failed_runs = (pos 1, failed_run) ∷ (pos 2, failed_run) ∷ []

user_stopped-persist_runs_example :
    (user_stopped (persist_runs (text "ann") failed_runs (some store)) none (pos 2) (text "ann")
      ≡ true)
    × (user_stopped
          (persist_status none (pos 3) (text "ann") (fresh_user (text "ann")) (some store))
          none
          (pos 2)
          (text "ann")
        ≡ false)
user_stopped-persist_runs_example =
    user_stopped-persist_runs 2 (text "ann") store failed_runs (pos 3) (fresh_user (text "ann"))
      (omega arith) (omega arith, (omega arith, tt)) (omega arith) refl

abbrev plan : Plan (folder false) (folder true)
plan = record {
  fold = λ c. c;
  side_a = record { read_only = false; creator = none; lister = none };
  side_b = record { read_only = true; creator = none; lister = none };
  addr_a = text "a";
  addr_b = text "b";
  sync_all_folders = false;
  folder_pairs = inbox ∷ [];
  exclude = [];
  max_fail_streak = pos 10;
  has_state = true;
}

abbrev outside : Outside
outside = record {
  begun = pos 10;
  ended = pos 20;
  recorded = pos 21;
  world = λ i. world;
  status_fault = none;
  record_fault = none;
}

abbrev shared : Shared ℕ
shared = record { collector = begin_cycle (pos 9) new; store = store; net = 0 }

sync_user_lem_example :
    let stopped = user_stopped (some store) none (pos 10) (text "ann") in
    let g' =
      sync_user rules (folder false) (folder true) backends (pos 3) plan outside ann shared in
    (stopped ≡ true → g' ≡ shared)
    × (stopped ≡ false
        → plan.has_state ≡ true
        → outside.record_fault ≡ none
        → IsRecorded (text "ann") g'.store (
            shown rules
              (folder false)
              (folder true)
              backends
              (pos 3)
              plan
              outside
              ann
              (address_of rules
                (folder false)
                (folder true)
                backends
                (pos 3)
                plan
                outside
                ann
                shared)
              g'.collector))
sync_user_lem_example =
    sync_user_lem rules (folder false) (folder true) backends (pos 3) plan outside ann shared
