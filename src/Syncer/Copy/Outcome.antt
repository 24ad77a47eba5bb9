-- ===== src/Syncer/Copy/Outcome.antt =====
-- What `copyMissing` accounts for.
use imapsync.Base.{ℕ, ◌+◌, ◌≡◌, Bool, none, List, [], ◌∷◌, length, arith}
use imapsync.Base.Text.{Text}
use imapsync.Mailbox.Message.{Mail}
use imapsync.Endpoint.{Endpoint}
use imapsync.Dedup.{Entry}
use imapsync.Stats.{UserStats, add_error}
use imapsync.Syncer.Copy.{
  Context, Copying, copy_one, note_copied, copy_step, poll, copy_loop, copy_missing,
}

module _ (m : Mail) (hash_header : Text) (Src Dst : Endpoint) (ctx : Context)
    (going : (k : ℕ) → ctx k ≡ none) (incremental : Bool) (place : Entry → Text)
    (interrupted : Text) where
  counted-copy_step :
      (e : Entry) (c : Copying m hash_header Src Dst)
      → let c' = copy_step m hash_header Src Dst incremental place e c in
        c'.n + c'.us.errors ≡ c.n + c.us.errors + 1
  unfolding copy_step copy_one note_copied add_error
  counted-copy_step e c = ground arith

  counted-copy_loop :
      (i : ℕ) (es : List Entry) (c : Copying m hash_header Src Dst)
      → let c' = copy_loop m hash_header Src Dst ctx incremental place interrupted i es c in
        c'.n + c'.us.errors ≡ c.n + c.us.errors + length es
  unfolding copy_loop poll
  counted-copy_loop i [] c = omega arith
  counted-copy_loop i (e ∷ es) c =
      let asked = record c { polls = c.polls + 1 } in
      ground (
        arith,
        going c.polls,
        counted-copy_step e c,
        counted-copy_step e asked,
        counted-copy_loop (i + 1) es (copy_step m hash_header Src Dst incremental place e c),
        counted-copy_loop (i + 1) es (copy_step m hash_header Src Dst incremental place e asked),
      )

  -- As long as the context is not done, every message that was to be copied either counts as
  -- copied or adds one error.
  pub copy_missing_counts :
      (entries : List Entry) (src : Src.State) (dst : Dst.State) (us : UserStats) (polls : ℕ)
      → let c =
          copy_missing m hash_header Src Dst ctx incremental place interrupted entries src dst us
            polls in
        c.n + c.us.errors ≡ us.errors + length entries
  unfolding copy_missing
  copy_missing_counts entries src dst us polls = omega (
    arith,
    counted-copy_loop 0 entries
        (record { src = src; dst = dst; us = us; polls = polls; n = 0; cache = [] }),
  )
