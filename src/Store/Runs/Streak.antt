-- ===== src/Store/Runs/Streak.antt =====
-- The error streak over the runs of a user.
use imapsync.Base.{
  ℕ, ◌+◌, ◌≡◌, refl, ◌∙◌, ap, Option, none, some, List, [], ◌∷◌, arith, ◌==◌, list_eq, nat_eq,
  eq_iff, eq_refl, if◌then◌else◌,
}
use imapsync.Base.Int.{pos}
use imapsync.Base.Text.{Text, trim_space}
use imapsync.Base.Dict
use imapsync.Base.Dict.{Dict, lookup-insert}
use imapsync.Base.Result.{ok}
use imapsync.Store.Tables.{Store, StatusRow}
use imapsync.Store.Runs.{
  RunResult, first_status, next_status, put_status, record_run, resume_user, with_status,
  status_error,
}

-- The store after these runs of a user, the oldest first.
unfoldable pub record_runs : Text → List RunResult → Store → Store
record_runs user [] s = s
record_runs user (r ∷ rs) s = record_runs user rs (record_run none user r s).1

-- What a run makes of the streak: an error lengthens it and any other outcome ends it.
unfoldable pub streak_after : ℕ → List RunResult → ℕ
streak_after n [] = n
streak_after n (r ∷ rs) = streak_after (if r.status == status_error then n + 1 else 0) rs

-- The streak that the table holds; a user without a row has none.
unfoldable pub streak_of : Text → Store → ℕ
streak_of user s = elim (Dict.lookup user s.user_status) [ none ↦ 0 | some row ↦ row.fail_streak ]

abbrev row_streak : Option StatusRow → ℕ
row_streak found = elim found [ none ↦ 0 | some row ↦ row.fail_streak ]

abbrev next_streak : ℕ → RunResult → ℕ
next_streak n r = if r.status == status_error then n + 1 else 0

streak-put_status :
    (user : Text) (r : RunResult) (d : Dict Text StatusRow)
    → row_streak (Dict.lookup user (put_status user r d))
      ≡ next_streak (row_streak (Dict.lookup user d)) r
unfolding put_status first_status next_status
streak-put_status user r d = go (Dict.lookup user d) refl
  where
    go :
        (found : Option StatusRow)
        → Dict.lookup user d ≡ found
        → row_streak (Dict.lookup user (put_status user r d))
          ≡ next_streak (row_streak (Dict.lookup user d)) r
    go none e = rw (e, put_status, lookup-insert user user (first_status r) d, eq_refl user) refl
    go (some old) e =
        rw
          (
            e,
            put_status,
            lookup-insert user user (next_status (first_status r) old) d,
            eq_refl user,
          )
          refl

with_status-status :
    (r : RunResult) → (with_status r).status == status_error ≡ r.status == status_error
unfolding list_eq
with_status-status r = go r.status refl
  where
    go :
        (t : Text)
        → r.status ≡ t
        → (with_status r).status == status_error ≡ r.status == status_error
    go [] e = rw e refl
    go (c ∷ cs) e = rw e refl

streak-record_run :
    (user : Text) (r : RunResult) (s : Store)
    → streak_of user (record_run none user r s).1 ≡ next_streak (streak_of user s) r
unfolding streak_of record_run
streak-record_run user r s =
    streak-put_status user (with_status r) s.user_status ∙ rw (with_status-status r) refl

-- After any runs of a user, recorded one after the other, the streak in the table is what the runs
-- make of the streak before them.
pub streak-record_runs :
    (user : Text) (rs : List RunResult) (s : Store)
    → streak_of user (record_runs user rs s) ≡ streak_after (streak_of user s) rs
unfolding record_runs streak_after
streak-record_runs user [] s = refl
streak-record_runs user (r ∷ rs) s =
    streak-record_runs user rs (record_run none user r s).1
    ∙ ap (λ n. streak_after n rs) (streak-record_run user r s)

-- Clearing the streak of a user that has a status succeeds, makes that user's streak 0 and leaves
-- the streak of every other user as it was.
pub streak-resume_user :
    (raw name : Text) (s : Store) (row : StatusRow)
    → Dict.lookup (trim_space raw) s.user_status ≡ some row
    → ((resume_user none raw s).0 ≡ ok tt)
      × (streak_of name (resume_user none raw s).1
          ≡ (if trim_space raw == name then 0 else streak_of name s))
unfolding streak_of resume_user
streak-resume_user raw name s row e = (
  rw (e, resume_user) refl,
  ground (
    arith,
    e,
    eq_iff (trim_space raw) name,
    lookup-insert (trim_space raw) name (record row { fail_streak = 0; fail_since = pos 0 })
        s.user_status,
  ),
)
