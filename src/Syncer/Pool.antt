-- ===== src/Syncer/Pool.antt =====
-- internal/syncer/pool.go: the workers, the lists that are read again before a cycle, and one cycle
-- as a step relation.
pub mod Cycle
pub mod Reload
use imapsync.Base.{
  ℕ, zero, suc, ◌+◌, ◌<◌, ◌≡◌, Bool, true, false, Option, none, some, List, [], ◌∷◌, ◌++◌, length,
  if◌then◌else◌,
}
use imapsync.Base.Int.{ℤ, pos, int_ltb, pos_part}
use imapsync.Base.Result.{Error, Result, ok, err}
use imapsync.Config.{Config, User, FolderPair}
use imapsync.Store.Tables.{Store}
use imapsync.Store.Users.{list_users, list_folder_pairs}

-- `w > n` and `w < 1` are tests on Go's int.
unfoldable pub workers : Config → ℤ
workers c =
    let n = pos (length c.users) in
    let w = if int_ltb n c.workers then n else c.workers in if int_ltb w (pos 1) then pos 1 else w

-- `none` stands for a pool that does not reload. A list that cannot be read leaves both as they are.
unfoldable pub reload : Option Store → Option Error → Option Error → Config → Config
reload none fault_users fault_folders c = c
reload (some st) fault_users fault_folders c = elim (list_users fault_users st) [
  | err why ↦ c
  | ok users ↦ elim (list_folder_pairs fault_folders st) [
    | err why ↦ c
    | ok folders ↦ record c { users = users; folders = folders }
  ]
]

-- A cycle: the users that were not handed out yet, those that a worker has, and those that a worker
-- has finished. Each worker has at most one. `processUser` is taken to return: a worker can always
-- finish its user.
pub record State : Type 0 where
  pub waiting : List User
  pub busy : List User
  pub done : List User

abbrev pub start : List User → State
start users = record { waiting = users; busy = []; done = [] }

-- `hands`: the unbuffered queue gives the next user to a worker that waits for one. `finishes`: a
-- worker is done with its user. `stops`: the context is done and the feed is broken off; the
-- select may choose this whenever it is.
pub data Step (w : ℕ) (cancelled : Bool) : State → State → Type 0 where
  hands :
      (s : State) (u : User) (rest : List User)
      → s.waiting ≡ u ∷ rest
      → length s.busy < w
      → Step w cancelled s (record s { waiting = rest; busy = s.busy ++ (u ∷ []) })
  finishes :
      (s : State) (u : User) (before after : List User)
      → s.busy ≡ before ++ (u ∷ after)
      → Step w cancelled s (record s { busy = before ++ after; done = s.done ++ (u ∷ []) })
  stops : (s : State) → cancelled ≡ true → Step w cancelled s (record s { waiting = [] })

pub data Steps (w : ℕ) (cancelled : Bool) : State → State → Type 0 where
  here : {s : State} → Steps w cancelled s s
  step : {s t u : State} → Step w cancelled s t → Steps w cancelled t u → Steps w cancelled s u

-- `wg.Wait()` returns: nothing waits and no worker has a user.
abbrev pub IsOver : State → Type 0
IsOver s = (s.waiting ≡ []) × (s.busy ≡ [])
