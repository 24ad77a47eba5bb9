-- ===== src/Stats.antt =====
-- internal/stats/stats.go: the counters of each user and their sum. A `*UserStats` is an address
-- in `heap`, so that what a worker adds through it shows in the snapshot.
pub mod Totals
pub mod Snapshot
use imapsync.Base.{
  ℕ, zero, suc, ◌+◌, Bool, true, false, ◌&&◌, not, Option, none, some, List, [], ◌∷◌, ◌++◌, length,
  list_eq, nat_eq, if◌then◌else◌,
}
use imapsync.Base.Text.{Text}
use imapsync.Base.Dict
use imapsync.Base.Dict.{Dict}
use imapsync.Base.Result.{Error}
use imapsync.Base.Time.{Time, zero_time, is_zero}

-- The counters are int64 and count messages; they are taken to stay below 2 ^ 63.
pub record UserStats : Type 0 where
  pub name : Text
  pub copied_a_to_b : ℕ
  pub copied_b_to_a : ℕ
  pub skipped_dup : ℕ
  pub errors : ℕ
  pub last_err : Text
  pub started : Time
  pub done : Time

unfoldable pub inc_copied_a_to_b : ℕ → UserStats → UserStats
inc_copied_a_to_b n u = record u { copied_a_to_b = u.copied_a_to_b + n }

unfoldable pub inc_copied_b_to_a : ℕ → UserStats → UserStats
inc_copied_b_to_a n u = record u { copied_b_to_a = u.copied_b_to_a + n }

unfoldable pub inc_skipped_dup : ℕ → UserStats → UserStats
inc_skipped_dup n u = record u { skipped_dup = u.skipped_dup + n }

unfoldable pub add_error : Error → UserStats → UserStats
add_error e u = record u { errors = u.errors + 1; last_err = e.message }

-- `InProgress` of a report
unfoldable pub in_progress : UserStats → Bool
in_progress r = not (is_zero r.started) && is_zero r.done

pub record Collector : Type 0 where
  pub heap : List UserStats
  pub by_name : Dict Text ℕ
  pub order : List Text
  pub cycle : ℕ
  pub cycle_t : Time

-- `New`
abbrev pub new : Collector
new = record { heap = []; by_name = []; order = []; cycle = 0; cycle_t = zero_time }

unfoldable pub begin_cycle : Time → Collector → Collector
begin_cycle now c = record c { by_name = []; order = []; cycle = c.cycle + 1; cycle_t = now }

-- What stands at an address of the heap, and a write to it.
unfoldable pub get_elem? : List UserStats → ℕ → Option UserStats
get_elem? [] i = none
get_elem? (u ∷ us) zero = some u
get_elem? (u ∷ us) (suc i) = get_elem? us i

unfoldable pub modify : List UserStats → ℕ → (UserStats → UserStats) → List UserStats
modify [] i f = []
modify (u ∷ us) zero f = f u ∷ us
modify (u ∷ us) (suc i) f = u ∷ modify us i f

-- The user's counters are changed through the pointer.
unfoldable pub update : ℕ → (UserStats → UserStats) → Collector → Collector
unfolding modify
update address f c = record c { heap = modify c.heap address f }

abbrev pub fresh_user : Text → UserStats
fresh_user name = record {
  name = name;
  copied_a_to_b = 0;
  copied_b_to_a = 0;
  skipped_dup = 0;
  errors = 0;
  last_err = [];
  started = zero_time;
  done = zero_time;
}

abbrev pub start : Time → UserStats → UserStats
start now u = record u { started = now; done = zero_time }

-- A user who is there already goes on with the same counters.
unfoldable pub begin_user : Time → Text → Collector → ℕ × Collector
unfolding modify
begin_user now name c = elim (Dict.lookup name c.by_name) [
  | some address ↦ (address, record c { heap = modify c.heap address (start now) })
  | none ↦ (
    length c.heap,
    record c {
      heap = c.heap ++ (start now (fresh_user name) ∷ []);
      by_name = Dict.insert name (length c.heap) c.by_name;
      order = c.order ++ (name ∷ []);
    },
  )
]

unfoldable pub end_user : Time → ℕ → Collector → Collector
unfolding update
end_user now address c = update address (λ u. record u { done = now }) c

pub record Total : Type 0 where
  pub copied_a_to_b : ℕ
  pub copied_b_to_a : ℕ
  pub skipped_dup : ℕ
  pub errors : ℕ

pub record Report : Type 0 where
  pub cycle : ℕ
  pub users : List UserStats
  pub total : Total

abbrev pub no_total : Total
no_total = record { copied_a_to_b = 0; copied_b_to_a = 0; skipped_dup = 0; errors = 0 }

abbrev pub add_total : Total → UserStats → Total
add_total t u = record {
  copied_a_to_b = t.copied_a_to_b + u.copied_a_to_b;
  copied_b_to_a = t.copied_b_to_a + u.copied_b_to_a;
  skipped_dup = t.skipped_dup + u.skipped_dup;
  errors = t.errors + u.errors;
}

-- The statistics of a name, through the map and the pointer.
unfoldable pub find_user : Collector → Text → Option UserStats
unfolding get_elem?
find_user c name = elim (Dict.lookup name c.by_name) [
  | none ↦ none
  | some address ↦ get_elem? c.heap address
]

-- The loop of `Snapshot`. A name of `order` that is not in the map would be a nil dereference.
unfoldable pub snapshot_users : Collector → List Text → Option (List UserStats)
snapshot_users c [] = some []
snapshot_users c (name ∷ names) =
    let rest = snapshot_users c names in
    elim (find_user c name) [
      | none ↦ none
      | some u ↦ elim rest [ none ↦ none | some us ↦ some (u ∷ us) ]
    ]

unfoldable pub sum_users : Total → List UserStats → Total
sum_users t [] = t
sum_users t (u ∷ us) = sum_users (add_total t u) us

unfoldable pub snapshot : Collector → Option Report
snapshot c = elim (snapshot_users c c.order) [
  | none ↦ none
  | some us ↦ some (record { cycle = c.cycle; users = us; total = sum_users no_total us })
]
