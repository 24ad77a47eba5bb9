-- ===== src/Syncer/Pool/Cycle.antt =====
-- What holds in every state that a cycle reaches.
use imapsync.Base.{
  ℕ, ◌+◌, ◌≤◌, ◌<◌, ◌≡◌, refl, ap, ◌∙◌, ◌⊎◌, inl, inr, ◌*◌, Bool, false, List, [], ◌∷◌, ◌++◌, arith,
  length, length-append, if◌then◌else◌,
}
use imapsync.Config.{User}
use imapsync.Syncer.Pool.{State, Step, Steps, hands, finishes, stops, here, step, start, IsOver}

-- How many users of a list pass a test.
unfoldable pub count : (User → Bool) → List User → ℕ
count p [] = 0
count p (u ∷ us) = if p u then count p us + 1 else count p us

count-append : (p : User → Bool) (us vs : List User) → count p (us ++ vs) ≡ count p us + count p vs
unfolding count
count-append p [] vs = omega arith
count-append p (u ∷ us) vs = ground (arith, count-append p us vs)

abbrev pub total : (User → Bool) → State → ℕ
total p s = count p s.waiting + (count p s.busy + count p s.done)

total-Step : (w : ℕ) (p : User → Bool) {s t : State} → Step w false s t → total p t ≡ total p s
unfolding count
total-Step w p (hands s u rest e h) = rw e (ground (arith, count-append p s.busy (u ∷ [])))
total-Step w p (finishes s u before after e) = rw e (
    ground (
      arith,
      count-append p before (u ∷ after),
      count-append p before after,
      count-append p s.done (u ∷ []),
    ))
total-Step w p (stops s e) = ground (arith, e)

total-Steps : (w : ℕ) (p : User → Bool) {s t : State} → Steps w false s t → total p t ≡ total p s
total-Steps w p here = refl
total-Steps w p (step one rest) = total-Steps w p rest ∙ total-Step w p one

-- A cycle that is over, and whose context was never done, has processed each user exactly once: by
-- every test on users, as many are done as were listed.
pub cycle_exactly_once :
    (w : ℕ) (users : List User) (s : State)
    → Steps w false (start users) s
    → IsOver s
    → (p : User → Bool) → count p s.done ≡ count p users
unfolding count
cycle_exactly_once w users s steps (waits, works) p =
    ground (arith, total-Steps w p steps, waits, works)

busy-Step :
    (w : ℕ) (cancelled : Bool) {s t : State}
    → Step w cancelled s t
    → length s.busy ≤ w
    → length t.busy ≤ w
busy-Step w cancelled (hands s u rest e h) b = omega (arith, length-append s.busy (u ∷ []))
busy-Step w cancelled (finishes s u before after e) b =
    omega (arith, length-append before (u ∷ after), length-append before after, ap length e)
busy-Step w cancelled (stops s e) b = b

busy-Steps :
    (w : ℕ) (cancelled : Bool) {s t : State}
    → Steps w cancelled s t
    → length s.busy ≤ w
    → length t.busy ≤ w
busy-Steps w cancelled here b = b
busy-Steps w cancelled (step one rest) b = busy-Steps w cancelled rest (busy-Step w cancelled one b)

-- At no time are more users in work than there are workers.
pub cycle_busy :
    (w : ℕ) (cancelled : Bool) (users : List User) (s : State)
    → Steps w cancelled (start users) s
    → length s.busy ≤ w
cycle_busy w cancelled users s steps = busy-Steps w cancelled steps (omega arith)

-- The work that is left: a user that waits has two steps before it, one in work has one.
abbrev pub work : State → ℕ
work s = 2 * length s.waiting + length s.busy

-- A cycle never hangs: with at least one worker every state is over or has a step that leaves less
-- work.
pub cycle_progress :
    (w : ℕ) (cancelled : Bool) (s : State)
    → 1 ≤ w
    → IsOver s ⊎ ((t : State) × Step w cancelled s t × (work t < work s))
cycle_progress w cancelled s h = go s.waiting refl s.busy refl
  where
    go :
        (waiting : List User)
        → s.waiting ≡ waiting
        → (busy : List User) → s.busy ≡ busy
        → IsOver s ⊎ ((t : State) × Step w cancelled s t × (work t < work s))
    go [] e [] f = inl (e, f)
    go (u ∷ rest) e [] f = inr (
      _,
      hands s u rest e (rw f h),
      omega (arith, length-append s.busy (u ∷ []), ap length e, ap length f),
    )
    go waiting e (u ∷ busy) f =
        inr (_, finishes s u [] busy f, omega (arith, ap length e, ap length f))
