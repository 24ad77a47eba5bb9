-- ===== src/Syncer/Dial/Retry.antt =====
-- How often `dial` tries again.
use imapsync.Base.{ℕ, zero, suc, ◌+◌, ◌≤◌, ◌≡◌, true, Option, none, arith}
use imapsync.Base.Int.{ℤ}
use imapsync.Base.Result.{Error, Result, ok, err}
use imapsync.Syncer.Errors.{is_conn_err}
use imapsync.Syncer.Dial.{attempt, dial, retries}

module _ {N S : Type 0} (connect : N → Result S × N) (cancelled : ℕ → Option Error) where
  -- The connection is lost this many times, then the server answers.
  pub data Flaky : ℕ → N → S → N → Type 0 where
    answers : {n n' : N} {s : S} → connect n ≡ (ok s, n') → Flaky 0 n s n'
    loses :
        {k : ℕ} {n n' n'' : N} {s : S} (why : Error)
        → connect n ≡ (err why, n')
        → is_conn_err why ≡ true
        → Flaky k n' s n''
        → Flaky (suc k) n s n''

  attempt_answers :
      (left i k : ℕ) (n n' : N) (s : S)
      → ((j : ℕ) → cancelled j ≡ none)
      → Flaky k n s n'
      → k ≤ left
      → attempt connect cancelled left i n ≡ (ok s, n')
  unfolding attempt
  attempt_answers zero i k n n' s going (answers e) h = e
  attempt_answers (suc left) i k n n' s going (answers e) h = ground (arith, e)
  attempt_answers zero i k n n' s going (loses why e lost f) h = absurd (omega arith)
  attempt_answers (suc left) i k n n' s going (loses {k = j} {n' = m} why e lost f) h =
      ground
        (arith, e, lost, going (i + 1), attempt_answers left (i + 1) j m n' s going f (omega arith))

  -- A connection that is lost at most `connect_retries` times before the server answers is made,
  -- as long as the context is not done.
  pub dial_answers :
      (connect_retries : ℤ) (k : ℕ) (n n' : N) (s : S)
      → ((j : ℕ) → cancelled j ≡ none)
      → Flaky k n s n'
      → k ≤ retries connect_retries
      → dial connect cancelled connect_retries n ≡ (ok s, n')
  unfolding dial
  dial_answers connect_retries k n n' s going f h =
      attempt_answers (retries connect_retries) 0 k n n' s going f h
