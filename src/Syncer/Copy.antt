-- ===== src/Syncer/Copy.antt =====
-- `filterFlags`, `copyOne` and `copyMissing` of internal/syncer/syncer.go.
pub mod Outcome
use imapsync.Base.{
  ℕ, ◌+◌, ◌%◌, Bool, ◌&&◌, not, Option, none, some, List, [], ◌∷◌, ◌++◌, ◌==◌, list_eq, nat_eq,
  if◌then◌else◌, filter, contains,
}
use imapsync.Base.Text.{Text, text, is_empty}
use imapsync.Base.Result.{Error, Result, ok, err, wrap}
use imapsync.Mailbox.Message.{Mail}
use imapsync.Endpoint.{Endpoint, with_header}
use imapsync.Dedup.{Entry}
use imapsync.Store.State.{CachedMsg}
use imapsync.Stats.{UserStats, add_error}

-- `\Seen` and the like: the backslash is 92.
abbrev pub flag : Text → Text
flag name = 92 ∷ name

abbrev pub copyable_flags : List Text
copyable_flags =
    flag (text "Seen") ∷ flag (text "Answered") ∷ flag (text "Flagged") ∷ flag (text "Draft") ∷ []

unfoldable pub filter_flags : List Text → List Text
filter_flags flags = filter (contains copyable_flags) flags

-- The context of a session: `ctx.Err()` at the n-th time that it is asked.
abbrev pub Context : Type 0
Context = ℕ → Option Error

-- What the cache stores for a message that was copied.
abbrev pub cached_copy : Text → Entry → CachedMsg
cached_copy new_id e = record {
  id = new_id;
  msg_id = e.msg_id;
  xhash = e.surrogate;
  surrogate = e.surrogate;
  internal_date = e.internal_date;
  flags = filter_flags e.flags;
}

module _ (m : Mail) (hash_header : Text) (Src Dst : Endpoint) where
  -- The body is streamed from the one session into the other.
  unfoldable pub copy_one : Entry → Src.State → Dst.State → Result Text × Src.State × Dst.State
  copy_one e src dst =
      let (opened, src') = Src.open_message e.id src in
      elim opened [
        | err why ↦ (err why, src', dst)
        | ok body ↦
            let (outcome, dst') =
              Dst.append (filter_flags e.flags) e.internal_date
                (with_header m body hash_header e.surrogate) dst in
            (outcome, src', dst')
      ]

  -- The state of the loop of `copyMissing`: `n` and `cache` are its results, `polls` counts how
  -- often the context was asked.
  pub record Copying : Type 0 where
    pub src : Src.State
    pub dst : Dst.State
    pub us : UserStats
    pub polls : ℕ
    pub n : ℕ
    pub cache : List CachedMsg

  -- A message that was copied counts, and goes into the cache if its id is known.
  unfoldable pub note_copied : Bool → Text → Entry → Copying → Copying
  note_copied incremental new_id e c =
      let counted = record c { n = c.n + 1 } in
      if incremental && not (is_empty new_id)
      then record counted { cache = c.cache ++ (cached_copy new_id e ∷ []) }
      else counted

  -- One round of the loop, after the context was asked. `place` is what stands before the error of
  -- an entry.
  unfoldable pub copy_step : Bool → (Entry → Text) → Entry → Copying → Copying
  copy_step incremental place e c =
      let (outcome, src', dst') = copy_one e c.src c.dst in
      let moved : Copying = record c { src = src'; dst = dst' } in
      elim outcome [
        | err why ↦ record moved { us = add_error (wrap (place e) why) c.us }
        | ok new_id ↦ note_copied incremental new_id e moved
      ]

  -- Every 64 messages the context is asked.
  unfoldable pub poll : Context → ℕ → Copying → Option Error × Copying
  poll ctx i c = if i % 64 == 0 then (ctx c.polls, record c { polls = c.polls + 1 }) else (none, c)

  -- `i` is the position in the list of entries.
  unfoldable pub copy_loop :
      Context → Bool → (Entry → Text) → Text → ℕ → List Entry → Copying → Copying
  copy_loop ctx incremental place interrupted i [] c = c
  copy_loop ctx incremental place interrupted i (e ∷ es) c =
      let (stop, asked) = poll ctx i c in
      elim stop [
        | some why ↦ record asked { us = add_error (wrap interrupted why) asked.us }
        | none ↦
            copy_loop ctx incremental place interrupted (i + 1) es
              (copy_step incremental place e asked)
      ]

  unfoldable pub copy_missing :
      Context
      → Bool
      → (Entry → Text)
      → Text
      → List Entry
      → Src.State
      → Dst.State
      → UserStats
      → ℕ
      → Copying
  copy_missing ctx incremental place interrupted entries src dst us polls =
      copy_loop ctx incremental place interrupted 0 entries
        (record { src = src; dst = dst; us = us; polls = polls; n = 0; cache = [] })
