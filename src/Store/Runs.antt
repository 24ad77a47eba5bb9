-- ===== src/Store/Runs.antt =====
-- internal/store/state.go: the outcome of each run, the error streak of a user, and the commands
-- that clear a user's state.
pub mod Streak
pub mod History
use imapsync.Base.{
  ℕ, zero, suc, ◌+◌, Bool, true, false, ◌&&◌, ◌||◌, not, Option, none, some, List, [], ◌∷◌, ◌++◌,
  map, ◌==◌, list_eq, nat_eq, pair_eq, if◌then◌else◌, contains, filter,
}
use imapsync.Base.Int.{ℤ, pos, negsuc, int_ltb, int_leb, int_eq}
use imapsync.Base.Text.{Text, text, is_empty, trim_space}
use imapsync.Base.Dict
use imapsync.Base.Dict.{Dict}
use imapsync.Base.Sort.{sort}
use imapsync.Base.Time.{Time, zero_time, unix, from_unix}
use imapsync.Base.Result.{Error, Result, ok, err, errorf, wrap}
use imapsync.Store.Tables.{Store, StatusRow, RunRow, statement}

pub record RunResult : Type 0 where
  pub at : Time
  pub status : Text
  pub copied_a_to_b : ℕ
  pub copied_b_to_a : ℕ
  pub skipped_dup : ℕ
  pub errors : ℕ
  pub last_error : Text

pub record UserStatus : Type 0 where
  pub last_run : Time
  pub last_ok : Time
  pub status : Text
  pub copied_a_to_b : ℕ
  pub copied_b_to_a : ℕ
  pub skipped_dup : ℕ
  pub errors : ℕ
  pub last_error : Text
  pub fail_since : Time
  pub fail_streak : ℕ

abbrev pub user_run_keep : ℕ
user_run_keep = 200

abbrev pub status_ok : Text
status_ok = text "ok"

abbrev pub status_error : Text
status_error = text "error"

abbrev pub run_row : RunResult → RunRow
run_row r = record {
  status = r.status;
  copied_a_b = r.copied_a_to_b;
  copied_b_a = r.copied_b_to_a;
  skipped_dup = r.skipped_dup;
  errors = r.errors;
  last_error = r.last_error;
}

-- The row that is inserted for a user without a status.
unfoldable pub first_status : RunResult → StatusRow
first_status r =
    let failed = r.status == status_error in
    record {
      last_run_at = unix r.at;
      last_ok_at = if failed then pos 0 else unix r.at;
      status = r.status;
      copied_a_b = r.copied_a_to_b;
      copied_b_a = r.copied_b_to_a;
      skipped_dup = r.skipped_dup;
      errors = r.errors;
      last_error = r.last_error;
      fail_since = if failed then unix r.at else pos 0;
      fail_streak = if failed then 1 else 0;
    }

-- ON CONFLICT DO UPDATE: `excluded` is the row that was to be inserted.
unfoldable pub next_status : StatusRow → StatusRow → StatusRow
next_status excluded old =
    let failed = excluded.status == status_error in
    record excluded {
      last_ok_at =
          if int_ltb (pos 0) excluded.last_ok_at then excluded.last_ok_at else old.last_ok_at;
      fail_since =
          if failed
          then (if int_ltb (pos 0) old.fail_since then old.fail_since else excluded.last_run_at)
          else pos 0;
      fail_streak = if failed then old.fail_streak + 1 else 0;
    }

unfoldable pub put_status : Text → RunResult → Dict Text StatusRow → Dict Text StatusRow
put_status user r d = elim (Dict.lookup user d) [
  | none ↦ Dict.insert user (first_status r) d
  | some old ↦ Dict.insert user (next_status (first_status r) old) d
]

unfoldable pub times_of : Text → Dict (Text × ℤ) RunRow → List ℤ
times_of user [] = []
times_of user (((name, at), r) ∷ rows) =
    let rest = times_of user rows in if name == user then at ∷ rest else rest

unfoldable pub take_times : ℕ → List ℤ → List ℤ
take_times zero ts = []
take_times (suc n) [] = []
take_times (suc n) (t ∷ ts) = t ∷ take_times n ts

-- SELECT run_at … ORDER BY run_at DESC LIMIT n
unfoldable pub newest : ℕ → Text → Dict (Text × ℤ) RunRow → List ℤ
unfolding times_of take_times
newest n user rows = take_times n (sort (λ s t. int_leb t s) (times_of user rows))

unfoldable pub trim_runs : Text → Dict (Text × ℤ) RunRow → Dict (Text × ℤ) RunRow
trim_runs user rows =
    let kept = newest user_run_keep user rows in
    Dict.keep (λ k r. not (k.0 == user) || contains kept k.1) rows

abbrev pub with_status : RunResult → RunResult
with_status r = if is_empty r.status then record r { status = status_ok } else r

unfoldable pub record_run : Option Error → Text → RunResult → Store → Result (Unit {0}) × Store
record_run fault user given s =
    let r = with_status given in
    statement fault (text "writing user_run: ")
      (
        ok tt,
        record s {
          user_status = put_status user r s.user_status;
          user_run = trim_runs user (Dict.insert (user, unix r.at) (run_row r) s.user_run);
        },
      )
      s

abbrev positive_time : ℤ → Time
positive_time t = if int_ltb (pos 0) t then from_unix t else zero_time

unfoldable pub scan_user_status : StatusRow → UserStatus
scan_user_status row = record {
  last_run = from_unix row.last_run_at;
  last_ok = positive_time row.last_ok_at;
  status = row.status;
  copied_a_to_b = row.copied_a_b;
  copied_b_to_a = row.copied_b_a;
  skipped_dup = row.skipped_dup;
  errors = row.errors;
  last_error = row.last_error;
  fail_since = positive_time row.fail_since;
  fail_streak = row.fail_streak;
}

unfoldable pub user_status_of : Option Error → Text → Store → Result (Option UserStatus)
user_status_of (some e) user s = err (wrap (text "reading user_status: ") e)
user_status_of none user s = elim (Dict.lookup user s.user_status) [
  | none ↦ ok none
  | some row ↦ ok (some (scan_user_status row))
]

scan_all : Dict Text StatusRow → Dict Text UserStatus
scan_all [] = []
scan_all ((name, row) ∷ rows) = (name, scan_user_status row) ∷ scan_all rows

unfoldable pub user_statuses : Option Error → Store → Result (Dict Text UserStatus)
unfolding scan_all
user_statuses (some e) s = err (wrap (text "reading user_status: ") e)
user_statuses none s = ok (scan_all s.user_status)

unfoldable pub resume_user : Option Error → Text → Store → Result (Unit {0}) × Store
resume_user fault raw s =
    let user = trim_space raw in
    statement fault (text "clearing error streak: ")
      (elim (Dict.lookup user s.user_status) [
        | none ↦ (err (errorf (text "user has no status (nothing to clear)")), s)
        | some row ↦ (
          ok tt,
          record s {
            user_status =
                Dict.insert user (record row { fail_streak = 0; fail_since = pos 0 }) s.user_status;
          },
        )
      ])
      s

result_of : ℤ → RunRow → RunResult
result_of at r = record {
  at = from_unix at;
  status = r.status;
  copied_a_to_b = r.copied_a_b;
  copied_b_to_a = r.copied_b_a;
  skipped_dup = r.skipped_dup;
  errors = r.errors;
  last_error = r.last_error;
}

results_at : Text → List ℤ → Dict (Text × ℤ) RunRow → List RunResult
results_at user [] rows = []
results_at user (t ∷ ts) rows =
    let rest = results_at user ts rows in
    elim (Dict.lookup (user, t) rows) [ none ↦ rest | some r ↦ result_of t r ∷ rest ]

-- `if limit <= 0 { limit = 50 }`
unfoldable pub row_limit : ℤ → ℕ
row_limit (pos n) = if n == 0 then 50 else n
row_limit (negsuc n) = 50

-- The runs come newest first.
unfoldable pub user_runs : Option Error → Text → ℤ → Store → Result (List RunResult)
unfolding results_at result_of row_limit
user_runs (some e) user limit s = err (wrap (text "reading user_run: ") e)
user_runs none user limit s =
    let n = row_limit limit in ok (results_at user (newest n user s.user_run) s.user_run)

-- `Vacuum` leaves every row where it was.
unfoldable pub vacuum : Option Error → Store → Result (Unit {0}) × Store
vacuum fault s = statement fault (text "VACUUM: ") (ok tt, s) s

unfoldable pub forget_user : Option Error → Text → Store → Result (Unit {0}) × Store
forget_user fault raw s =
    let name = trim_space raw in
    statement fault (text "clearing state: ")
      (
        ok tt,
        record s {
          sync_msg_cache = Dict.keep (λ k r. not ((k.0).0 == name)) s.sync_msg_cache;
          sync_endpoint = Dict.keep (λ k r. not (k.0 == name)) s.sync_endpoint;
          user_status = Dict.keep (λ k r. not (k == name)) s.user_status;
          user_run = Dict.keep (λ k r. not (k.0 == name)) s.user_run;
        },
      )
      s
