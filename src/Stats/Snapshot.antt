-- ===== src/Stats/Snapshot.antt =====
-- The snapshot under the invariant: it exists, and a change of one user's counters shows in the
-- totals by exactly that change.
use mathlib.Core.Option
use imapsync.Base.{
  ℕ, ◌+◌, ◌≡◌, refl, sym, ◌∙◌, true, Option, none, some, List, [], ◌∷◌, list_eq, nat_eq,
  if◌then◌else◌, arith, ◌==◌, eq_iff, eq_refl, contains, IsDistinct, Subset,
}
use imapsync.Base.Text.{Text}
use imapsync.Base.Dict
use imapsync.Base.Time.{Time}
use imapsync.Stats.{
  UserStats, Collector, Total, Report, update, begin_cycle, find_user, snapshot_users, sum_users,
  snapshot, add_total, no_total,
}
use imapsync.Stats.Totals.{update-IsSound, IsSound, KeepsName, get_elem?-modify}

-- A registered name has statistics.
find_user-some :
    (c : Collector) (name : Text)
    → IsSound c
    → Dict.member name c.by_name ≡ true
    → (u : UserStats) × (find_user c name ≡ some u) × (u.name ≡ name)
unfolding Dict.member find_user
find_user-some c name h m = go (Dict.lookup name c.by_name) refl
  where
    go :
        (found : Option ℕ)
        → Dict.lookup name c.by_name ≡ found
        → (u : UserStats) × (find_user c name ≡ some u) × (u.name ≡ name)
    go none e = ground (arith, e, m)
    go (some a) e = let (u, at, n) = h.named name a e in (u, rw (e, find_user) at, n)

-- Two names that lead to one address are one name.
address-injective :
    (c : Collector) (n m : Text) (a : ℕ)
    → IsSound c
    → Dict.lookup n c.by_name ≡ some a
    → Dict.lookup m c.by_name ≡ some a
    → n ≡ m
address-injective c n m a h p q =
    let (u, at, e) = h.named n a p in let (v, at', e') = h.named m a q in cc

-- What a measure adds up to over statistics, and over the names that lead to them.
abbrev pub total_of : (UserStats → ℕ) → List UserStats → ℕ
total_of measure [] = 0
total_of measure (u ∷ us) = measure u + total_of measure us

abbrev measure_of : (UserStats → ℕ) → Option UserStats → ℕ
measure_of measure none = 0
measure_of measure (some u) = measure u

total_names : (UserStats → ℕ) → Collector → List Text → ℕ
total_names measure c [] = 0
total_names measure c (name ∷ names) =
    measure_of measure (find_user c name) + total_names measure c names

total_of-snapshot_users :
    (measure : UserStats → ℕ) (c : Collector) (names : List Text) (us : List UserStats)
    → snapshot_users c names ≡ some us
    → total_of measure us ≡ total_names measure c names
unfolding snapshot_users total_names
total_of-snapshot_users measure c [] [] e = refl
total_of-snapshot_users measure c [] (u ∷ us) e = cc
total_of-snapshot_users measure c (m ∷ names) [] e = ground arith
total_of-snapshot_users measure c (m ∷ names) (u ∷ us) e =
    ground (arith, total_of-snapshot_users measure c names us)

-- The snapshot reaches every registered name: no pointer is nil.
snapshot_users-some :
    (c : Collector) (names : List Text)
    → IsSound c
    → Subset names (Dict.keys c.by_name)
    → (us : List UserStats) × (snapshot_users c names ≡ some us)
unfolding snapshot_users
snapshot_users-some c [] h sub = ([], refl)
snapshot_users-some c (m ∷ names) h sub =
    let (u, at, _) =
      find_user-some c m h
        (sym (Dict.contains-keys m c.by_name) ∙ sub m (ground (arith, eq_refl m))) in
    let (us, more) = snapshot_users-some c names h (λ k p. sub k (ground arith)) in
    (u ∷ us, ground arith)

listed_some :
    (c : Collector) → IsSound c → (us : List UserStats) × (snapshot_users c c.order ≡ some us)
listed_some c h = snapshot_users-some c c.order h (λ k p. rw (← h.listed) p)

-- The snapshot of a sound collector is always there.
pub snapshot-some :
    (c : Collector) (us : List UserStats)
    → snapshot_users c c.order ≡ some us
    → snapshot c ≡ some (record { cycle = c.cycle; users = us; total = sum_users no_total us })
unfolding snapshot
snapshot-some c us e = rw (e, snapshot)

module _ (c : Collector) (h : IsSound c) (f : UserStats → UserStats) (name : Text) (a : ℕ)
    (registered : Dict.lookup name c.by_name ≡ some a) where
  update_found :
      (m : Text) (b : ℕ)
      → Dict.lookup m c.by_name ≡ some b
      → find_user (update a f c) m
        ≡ (if name == m then Option.map f (find_user c m) else find_user c m)
  unfolding update find_user
  update_found m b e = ground (
    arith,
    get_elem?-modify c.heap a b f,
    eq_iff name m,
    address-injective c name m a h registered,
  )

  find_user-update :
      (m : Text)
      → find_user (update a f c) m
        ≡ (if name == m then Option.map f (find_user c m) else find_user c m)
  unfolding update find_user
  find_user-update m = go (Dict.lookup m c.by_name) refl
    where
      go :
          (found : Option ℕ)
          → Dict.lookup m c.by_name ≡ found
          → find_user (update a f c) m
            ≡ (if name == m then Option.map f (find_user c m) else find_user c m)
      go none e = ground (arith, e, registered, eq_iff name m)
      go (some b) e = update_found m b e

  found_here : (u : UserStats) × (find_user c name ≡ some u)
  unfolding find_user
  found_here = let (u, at, _) = h.named name a registered in (u, rw (registered, find_user) at)

  total_names-update :
      (measure : UserStats → ℕ) (n : ℕ)
      → ((u : UserStats) → measure (f u) ≡ measure u + n)
      → (names : List Text) → IsDistinct names
      → total_names measure (update a f c) names
        ≡ total_names measure c names + (if contains names name then n else 0)
  unfolding total_names
  total_names-update measure n grows [] d = omega arith
  total_names-update measure n grows (m ∷ names) d =
      let (u, at) = found_here in
      ground (
        arith,
        find_user-update m,
        at,
        grows u,
        eq_iff name m,
        total_names-update measure n grows names d.1,
      )

-- A change that adds `gain` to the counters.
abbrev pub Adds : (UserStats → UserStats) → Total → Type 0
Adds f gain =
    (u : UserStats)
    → ((f u).copied_a_to_b ≡ u.copied_a_to_b + gain.copied_a_to_b)
      × ((f u).copied_b_to_a ≡ u.copied_b_to_a + gain.copied_b_to_a)
      × ((f u).skipped_dup ≡ u.skipped_dup + gain.skipped_dup)
      × ((f u).errors ≡ u.errors + gain.errors)

abbrev pub plus : Total → Total → Total
plus t gain = record {
  copied_a_to_b = t.copied_a_to_b + gain.copied_a_to_b;
  copied_b_to_a = t.copied_b_to_a + gain.copied_b_to_a;
  skipped_dup = t.skipped_dup + gain.skipped_dup;
  errors = t.errors + gain.errors;
}

abbrev total_fields : List UserStats → Total
total_fields us = record {
  copied_a_to_b = total_of (λ u. u.copied_a_to_b) us;
  copied_b_to_a = total_of (λ u. u.copied_b_to_a) us;
  skipped_dup = total_of (λ u. u.skipped_dup) us;
  errors = total_of (λ u. u.errors) us;
}

sum_users-total_of : (t : Total) (us : List UserStats) → sum_users t us ≡ plus t (total_fields us)
unfolding sum_users
sum_users-total_of t [] = ground arith
sum_users-total_of t (u ∷ us) = sum_users-total_of (add_total t u) us ∙ ground arith

module _ (c : Collector) (h : IsSound c) (f : UserStats → UserStats) (name : Text) (a : ℕ)
    (registered : Dict.lookup name c.by_name ≡ some a) where
  ordered : contains c.order name ≡ true
  unfolding Dict.member
  ordered = rw (h.listed, Dict.contains-keys) (rw (registered, Dict.member))

  measured :
      (measure : UserStats → ℕ) (n : ℕ) (us us' : List UserStats)
      → ((u : UserStats) → measure (f u) ≡ measure u + n)
      → snapshot_users c c.order ≡ some us
      → snapshot_users (update a f c) c.order ≡ some us'
      → total_of measure us' ≡ total_of measure us + n
  measured measure n us us' grows e e' = ground (
    arith,
    ordered,
    total_names-update c h f name a registered measure n grows c.order h.distinct,
    total_of-snapshot_users measure c c.order us e,
    total_of-snapshot_users measure (update a f c) c.order us' e',
  )

  -- Where the counters of a registered user grow by some amounts, the totals of the snapshot grow
  -- by exactly those; before and after there is a snapshot.
  pub snapshot-update :
      (gain : Total)
      → KeepsName f
      → Adds f gain
      → (before : Report) × (after : Report) × (snapshot c ≡ some before)
        × (snapshot (update a f c) ≡ some after)
        × (after.total ≡ plus before.total gain)
  unfolding update
  snapshot-update gain keeps adds =
      let (us, e) = listed_some c h in
      let (us', e') = listed_some (update a f c) (update-IsSound c a f keeps h) in
      (
        _,
        _,
        snapshot-some c us e,
        snapshot-some (update a f c) us' e',
        ground (
          arith,
          sum_users-total_of no_total us,
          sum_users-total_of no_total us',
          measured (λ u. u.copied_a_to_b) gain.copied_a_to_b us us' (λ u. (adds u).0) e e',
          measured (λ u. u.copied_b_to_a) gain.copied_b_to_a us us' (λ u. (adds u).1) e e',
          measured (λ u. u.skipped_dup) gain.skipped_dup us us' (λ u. (adds u).2) e e',
          measured (λ u. u.errors) gain.errors us us' (λ u. (adds u).3) e e',
        ),
      )

-- A new cycle starts from nothing: no user is listed and every total is 0.
pub snapshot-begin_cycle :
    (now : Time) (c : Collector)
    → snapshot (begin_cycle now c)
      ≡ some (record { cycle = c.cycle + 1; users = []; total = no_total })
unfolding snapshot begin_cycle snapshot_users sum_users
snapshot-begin_cycle now c = refl
