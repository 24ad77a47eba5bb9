-- ===== src/Tests/Storing.antt =====
-- The theorems on the store and on the statistics at concrete inputs.
use imapsync.Base.{
  ℕ, ◌≡◌, ◌≤◌, length, IsDistinct, false, none, List, [], ◌∷◌, ◌==◌, list_eq, nat_eq, pair_eq,
}
use imapsync.Base.Int.{ℤ, int_eq, pos}
use imapsync.Base.Text.{Text, text}
use imapsync.Base.Dict
use imapsync.Store.Tables.{Store, Scope, StatusRow}
use imapsync.Store.State.{CachedMsg}
use imapsync.Store.Runs.{RunResult, status_ok, status_error, user_run_keep, times_of, record_run}
use imapsync.Store.Runs.History.{record_run-length}
use imapsync.Store.Runs.Streak.{record_runs, streak_of, streak_after, streak-record_runs}

abbrev status_row : StatusRow
status_row = record {
  last_run_at = pos 5;
  last_ok_at = pos 0;
  status = status_error;
  copied_a_b = 0;
  copied_b_a = 0;
  skipped_dup = 0;
  errors = 1;
  last_error = text "EOF";
  fail_since = pos 5;
  fail_streak = 1;
}

abbrev pub store : Store
store = record {
  users = [];
  folder_pairs = [];
  sync_endpoint = [];
  sync_msg_cache = [];
  user_status = (text "ann", status_row) ∷ [];
  user_run = [];
}

abbrev pub side_a : Scope
side_a = (text "ann", (text "INBOX", text "a"))

abbrev side_b : Scope
side_b = (text "ann", (text "INBOX", text "b"))

abbrev cached : Text → CachedMsg
cached id = record {
  id = id;
  msg_id = text "m";
  xhash = [];
  surrogate = text "s";
  internal_date = pos 1_500_000_000;
  flags = (92 ∷ text "Seen") ∷ (92 ∷ text "Draft") ∷ [];
}

abbrev pub two_cached : List CachedMsg
two_cached = cached (text "1") ∷ cached (text "2") ∷ []

abbrev run : ℕ → Text → RunResult
run at status = record {
  at = pos at;
  status = status;
  copied_a_to_b = 0;
  copied_b_to_a = 0;
  skipped_dup = 0;
  errors = 0;
  last_error = [];
}

abbrev runs : List RunResult
runs = run 6 status_ok ∷ run 7 status_error ∷ run 8 status_error ∷ []

streak-record_runs_example :
    streak_of (text "ann") (record_runs (text "ann") runs store)
    ≡ streak_after (streak_of (text "ann") store) runs
streak-record_runs_example = streak-record_runs (text "ann") runs store

store_history : IsDistinct (Dict.keys store.user_run)
unfolding Dict.keys
store_history = tt

after_run : IsDistinct (Dict.keys (record_run none (text "ann") (run 6 status_ok) store).1.user_run)
after_run = (record_run-length (text "ann") (run 6 status_ok) store store_history).1

record_run-length_example :
    (length (
        times_of
          (text "ann")
          (record_run none
            (text "ann")
            (run 7 status_error)
            (record_run none (text "ann") (run 6 status_ok) store).1).1.user_run)
      ≤ user_run_keep)
    × IsDistinct (
        Dict.keys
          (record_run none
            (text "ann")
            (run 7 status_error)
            (record_run none (text "ann") (run 6 status_ok) store).1).1.user_run)
    × ((u : Text) (t : ℤ)
        → (u == text "ann") ≡ false
        → Dict.lookup
            (u, t)
            (record_run none
              (text "ann")
              (run 7 status_error)
              (record_run none (text "ann") (run 6 status_ok) store).1).1.user_run
          ≡ Dict.lookup (u, t) (record_run none (text "ann") (run 6 status_ok) store).1.user_run)
record_run-length_example =
    record_run-length (text "ann") (run 7 status_error)
      (record_run none (text "ann") (run 6 status_ok) store).1 after_run
