-- ===== src/Syncer/Index/Caching.antt =====
-- How `indexFolderIncremental` of internal/syncer/syncer.go reads and writes the cache.
use imapsync.Base.{
  ℕ, Bool, ◌&&◌, not, Option, none, some, List, [], ◌∷◌, ◌++◌, ◌==◌, list_eq, nat_eq, if◌then◌else◌,
  filter, contains,
}
use imapsync.Base.Int.{ℤ, pos, int_leb, int_ltb, int_sub}
use imapsync.Base.Text.{Text, text}
use imapsync.Base.Dict
use imapsync.Base.Dict.{Dict}
use imapsync.Base.Time.{Time}
use imapsync.Base.Result.{Error, Result, ok, err, wrap}
use imapsync.Store.Tables.{Store, Scope}
use imapsync.Store.State.{
  CachedMsg, load_endpoint, save_endpoint, put_cached_msgs, delete_cached_msgs, reset_endpoint,
}
use imapsync.Stats.{UserStats, add_error}

-- `time.Since(saved.FullResyncAt) >= every`.
unfoldable pub resync_due : Time → ℤ → Time → Bool
resync_due now every saved = int_ltb (pos 0) every && int_leb every (int_sub now saved)

-- `newIDs`: what is listed and not cached; `goneIDs`: what is cached and not listed.
unfoldable pub new_ids : List Text → Dict Text CachedMsg → List Text
new_ids current cached = filter (λ id. not (Dict.member id cached)) current

unfoldable pub gone_ids : List Text → Dict Text CachedMsg → List Text
gone_ids current cached = filter (λ id. not (contains current id)) (Dict.keys cached)

unfoldable pub erase_all : List Text → Dict Text CachedMsg → Dict Text CachedMsg
erase_all [] cached = cached
erase_all (id ∷ ids) cached = erase_all ids (Dict.erase id cached)

-- The errors that the statements on the database report. Each runs at most once while a folder
-- is indexed, the deletion in batches.
pub record Faults : Type 0 where
  pub loading : Option Error
  pub resetting : Option Error
  pub putting : Option Error
  pub deleting : ℕ → Option Error
  pub saving : Option Error

-- The cached messages that are used, and the time of the last full rescan that is saved.
abbrev pub Cache : Type 0
Cache = Dict Text CachedMsg × Time

-- The closure `reset`
unfoldable pub reset : Faults → Time → Scope → Store → Result Cache × Store
reset faults now key st =
    let (done, st') = reset_endpoint faults.resetting key st in
    elim done [
      | err why ↦ (err (wrap (text "resetting cache: ") why), st')
      | ok _ ↦ (ok ([], now), st')
    ]

-- The cache is thrown away when the folder is another one, or when a full rescan is due.
unfoldable pub open_cache : Faults → Time → ℤ → Scope → Text → Store → Result Cache × Store
unfolding reset
open_cache faults now every key validity st = elim (load_endpoint faults.loading key st) [
  | err why ↦ (err why, st)
  | ok found ↦
      let (saved, cached) = found in
      if saved.exists && not (saved.validity == validity)
      then reset faults now key st
      else if resync_due now every saved.full_resync_at
      then reset faults now key st
      else (ok (cached, saved.full_resync_at), st)
]

-- `s.recordErr(us, wrap(…))` for a statement that failed.
unfoldable pub recorded : Text → Result (Unit {0}) × Store → UserStats → Store × UserStats
recorded context (ok _, st) us = (st, us)
recorded context (err why, st) us = (st, add_error (wrap context why) us)

-- The three writes, each of which may fail without stopping the pass.
unfoldable pub write_cache :
    Faults
    → Time
    → Text
    → Scope
    → Text
    → Time
    → List CachedMsg
    → List Text
    → Store
    → UserStats
    → Store × UserStats
unfolding recorded
write_cache faults now context key validity resync_at fresh gone st us =
    let (st1, us1) =
      recorded (context ++ text "writing cache: ") (put_cached_msgs faults.putting key fresh st)
        us in
    let (st2, us2) =
      recorded (context ++ text "cleaning cache: ")
        (delete_cached_msgs faults.deleting key gone st1) us1 in
    recorded (context ++ text "writing endpoint: ")
      (save_endpoint faults.saving now key validity resync_at st2) us2

-- `newIDs` stays nil when nothing is new, and a nil list asks for every message.
abbrev pub asked_for : List Text → Option (List Text)
asked_for [] = none
asked_for (id ∷ ids) = some (id ∷ ids)
