-- ===== src/Syncer/User/Passes.antt =====
-- How often a user's pairs are tried.
use imapsync.Base.{ℕ, ◌+◌, ◌*◌, ◌≤◌, ◌≡◌, refl, List, [], ◌∷◌, length, arith}
use imapsync.Base.Int.{ℤ}
use imapsync.Endpoint.{Endpoint}
use imapsync.Config.{User, FolderPair}
use imapsync.Syncer.Pair.{Rules, World}
use imapsync.Syncer.User.{Backends, Run, try_pair, retry_pair, visit_pair, visit_pairs}

module _ (r : Rules) (A B : Endpoint) {N : Type 0} (backends : Backends A B N) (connect_retries : ℤ)
    (u : User) (world : ℕ → World) where
  passes-try_pair :
      (fp : FolderPair) (run : Run r A B backends connect_retries u)
      → (try_pair r A B backends connect_retries u world fp run).1.passes ≡ run.passes + 1
  unfolding try_pair
  passes-try_pair fp run = refl

  passes-retry_pair :
      (fp : FolderPair) (run : Run r A B backends connect_retries u)
      → (retry_pair r A B backends connect_retries u world fp run).1.passes ≤ run.passes + 1
  unfolding retry_pair try_pair
  passes-retry_pair fp run = ground arith

  passes-visit_pair :
      (fp : FolderPair) (run : Run r A B backends connect_retries u)
      → (visit_pair r A B backends connect_retries u world fp run).1.passes ≤ run.passes + 2
  unfolding visit_pair
  passes-visit_pair fp run =
      let s = run.session in
      let asked = record run { session = record s { polls = s.polls + 1 } } in
      ground (
        arith,
        passes-try_pair fp asked,
        passes-retry_pair fp (try_pair r A B backends connect_retries u world fp asked).1,
      )

  -- A user's run makes at most two passes over each folder pair, however often connections break.
  pub visit_pairs_passes :
      (fps : List FolderPair) (run : Run r A B backends connect_retries u)
      → (visit_pairs r A B backends connect_retries u world fps run).passes
        ≤ run.passes + 2 * length fps
  unfolding visit_pairs
  visit_pairs_passes [] run = omega arith
  visit_pairs_passes (fp ∷ fps) run = ground (
    arith,
    passes-visit_pair fp run,
    visit_pairs_passes fps (visit_pair r A B backends connect_retries u world fp run).1,
  )
