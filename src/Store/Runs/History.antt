-- ===== src/Store/Runs/History.antt =====
-- The history of a user's runs, which `RecordRun` keeps short.
use imapsync.Base.{
  ◌≡◌, refl, ℕ, zero, suc, ◌≤◌, Bool, false, ◌||◌, not, none, List, [], ◌∷◌, arith, IsDistinct,
  Subset, contains, length, length-Subset, ◌==◌, eq_iff, eq_refl, eq_comm, list_eq, nat_eq, pair_eq,
  Bool-cases, inl, inr,
}
use imapsync.Base.Int.{ℤ, int_eq, int_leb}
use imapsync.Base.Sort.{sort}
use imapsync.Base.Text.{Text}
use imapsync.Base.Time.{unix}
use imapsync.Base.Dict
use imapsync.Base.Dict.{Dict, contains-keys, lookup-keep, lookup-insert}
use imapsync.Base.Dict.Rows.{IsDistinct-keep, IsDistinct-insert}
use imapsync.Store.Tables.{Store, RunRow}
use imapsync.Store.Runs.{
  RunResult, user_run_keep, times_of, take_times, newest, trim_runs, record_run, with_status,
  run_row,
}

length-take_times : (n : ℕ) (ts : List ℤ) → length (take_times n ts) ≤ n
unfolding take_times
length-take_times zero ts = omega arith
length-take_times (suc n) [] = omega arith
length-take_times (suc n) (t ∷ ts) = omega (arith, length-take_times n ts)

contains-times_of :
    (user : Text) (t : ℤ) (rows : Dict (Text × ℤ) RunRow)
    → contains (times_of user rows) t ≡ contains (Dict.keys rows) (user, t)
unfolding times_of Dict.keys pair_eq
contains-times_of user t [] = refl
contains-times_of user t (((name, at), r) ∷ rows) =
    ground (arith, eq_iff name user, eq_iff user name, contains-times_of user t rows)

times_of-IsDistinct :
    (user : Text) (rows : Dict (Text × ℤ) RunRow)
    → IsDistinct (Dict.keys rows)
    → IsDistinct (times_of user rows)
unfolding times_of Dict.keys
times_of-IsDistinct user [] d = tt
times_of-IsDistinct user (((name, at), r) ∷ rows) (fresh, d) = elim (Bool-cases (name == user)) [
  | inl same ↦ rw same (
    ground (arith, fresh, contains-times_of user at rows, eq_iff name user),
    times_of-IsDistinct user rows d,
  )
  | inr other ↦ rw other (times_of-IsDistinct user rows d)
]

-- What is left of the user's runs is among those that are to be kept.
Subset-trim_runs :
    (user : Text) (rows : Dict (Text × ℤ) RunRow)
    → Subset (times_of user (trim_runs user rows)) (newest user_run_keep user rows)
unfolding trim_runs Dict.member
Subset-trim_runs user rows t h =
    let test : Text × ℤ → Bool =
      λ k. not (k.0 == user) || contains (newest user_run_keep user rows) k.1 in
    ground (
      arith,
      h,
      eq_refl user,
      contains-times_of user t (trim_runs user rows),
      contains-keys (user, t) (trim_runs user rows),
      lookup-keep test (user, t) rows,
    )

-- Where the rows of the history have distinct keys, as a table has: after a run is recorded without
-- an error, the user has at most `user_run_keep` rows of history, the keys are distinct again, and
-- every row of another user is as it was.
pub record_run-length :
    (user : Text) (given : RunResult) (s : Store)
    → IsDistinct (Dict.keys s.user_run)
    → (length (times_of user (record_run none user given s).1.user_run) ≤ user_run_keep)
      × IsDistinct (Dict.keys (record_run none user given s).1.user_run)
      × ((u : Text) (t : ℤ)
          → (u == user) ≡ false
          → Dict.lookup (u, t) (record_run none user given s).1.user_run
            ≡ Dict.lookup (u, t) s.user_run)
unfolding record_run trim_runs newest pair_eq
record_run-length user given s distinct =
    let r = with_status given in
    let rows = Dict.insert (user, unix r.at) (run_row r) s.user_run in
    let kept = newest user_run_keep user rows in
    let test : Text × ℤ → Bool = λ k. not (k.0 == user) || contains kept k.1 in
    let inserted = IsDistinct-insert (user, unix r.at) (run_row r) s.user_run distinct in
    let left = IsDistinct-keep (λ k v. test k) rows inserted in
    let bound =
      length-Subset (times_of user (trim_runs user rows)) kept
        (times_of-IsDistinct user (trim_runs user rows) left) (Subset-trim_runs user rows) in
    (
      omega (
        arith,
        bound,
        length-take_times user_run_keep (sort (λ s t. int_leb t s) (times_of user rows)),
      ),
      left,
      λ u t other. ground (
        arith,
        other,
        eq_comm u user,
        lookup-keep test (u, t) rows,
        lookup-insert (user, unix r.at) (u, t) (run_row r) s.user_run,
      ),
    )
