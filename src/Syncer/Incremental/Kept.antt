-- ===== src/Syncer/Incremental/Kept.antt =====
-- What the incremental pass leaves in the cache for the next one.
use imapsync.Base.{
  ◌≡◌, refl, sym, eq_comm, eq_refl, ap, ◌∙◌, Option, none, some, List, [], ◌∷◌, ◌++◌, arith, All,
  Subset, contains, ◌==◌, eq_iff, list_eq, nat_eq, true, pair_eq, if◌then◌else◌,
}
use imapsync.Base.Text.{Text, text}
use mathlib.Core.Path.{subst}
use imapsync.Base.Sort.{sort, text_leb, contains-sort}
use imapsync.Base.Time.{Time, unix, from_unix}
use imapsync.Base.Int.{ℤ}
use imapsync.Base.Dict
use imapsync.Base.Dict.{Dict}
use imapsync.Base.Result.{Result, ok, err}
use imapsync.Mailbox.Message.{Mail}
use imapsync.Endpoint.{Endpoint, Message}
use imapsync.Dedup.{Input, parse_message}
use imapsync.Store.Tables.{Store, Scope}
use imapsync.Store.State.{CachedMsg, msgs_of, put_cached_msgs, delete_cached_msgs, save_endpoint}
use imapsync.Store.State.Cache.{cached_msg, read_back, latest, cached_msg-put_rows}
use imapsync.Store.State.Deletion.{cached_msg-delete_cached_msgs}
use imapsync.Store.State.Flags.{IsFlag, decode_flags-encode_flags}
use imapsync.Stats.{UserStats}
use imapsync.Syncer.Index.{
  Faults, Fetched, read_fetched, cached_of, recorded, write_cache, open_cache, new_ids, gone_ids,
  asked_for, index_with, index_fetched, index_folder_incremental,
}
use imapsync.Syncer.Incremental.{
  or_else, ids_of, remembered, Agrees, contains-new_ids, contains-gone_ids,
}
use imapsync.Syncer.Incremental.Built.{Serves, IsCurrent, open_cache-Opens}

-- Every statement on the database succeeds.
abbrev pub no_faults : Faults
no_faults = record {
  loading = none;
  resetting = none;
  putting = none;
  deleting = λ n. none;
  saving = none;
}

recorded_store :
    (context : Text) (p : Result (Unit {0}) × Store) (us : UserStats)
    → (recorded context p us).0 ≡ p.1
unfolding recorded
recorded_store context (ok _, st) us = refl
recorded_store context (err why, st) us = refl

-- The rows of a side after the three writes.
cached_msg-write_cache :
    (now : Time) (context : Text) (key : Scope) (validity : Text) (resync_at : Time)
    (fresh : List CachedMsg) (gone : List Text) (st : Store) (us : UserStats) (id : Text)
    → cached_msg key id
        (write_cache no_faults now context key validity resync_at fresh gone st us).0
      ≡ (if contains gone id then none else latest read_back id (cached_msg key id st) fresh)
unfolding write_cache save_endpoint cached_msg
cached_msg-write_cache now context key validity resync_at fresh gone st us id =
    let put = put_cached_msgs none key fresh st in
    let p = recorded (context ++ text "writing cache: ") put us in
    let deleted = delete_cached_msgs (λ n. none) key gone p.0 in
    let q = recorded (context ++ text "cleaning cache: ") deleted p.1 in
    ap (cached_msg key id) (
      recorded_store (context ++ text "writing endpoint: ")
        (save_endpoint none now key validity resync_at q.0) q.1)
    ∙ ap (cached_msg key id) (recorded_store (context ++ text "cleaning cache: ") deleted p.1)
    ∙ (cached_msg-delete_cached_msgs key key id gone p.0).1
    ∙ ground (
      arith,
      eq_refl key,
      ap (cached_msg key id) (recorded_store (context ++ text "writing cache: ") put us),
      cached_msg-put_rows key key id fresh st,
    )

latest-append_one :
    (id : Text) (found : Option CachedMsg) (ms : List CachedMsg) (cm : CachedMsg)
    → latest read_back id found (ms ++ (cm ∷ []))
      ≡ (if cm.id == id then some (read_back cm) else latest read_back id found ms)
unfolding latest
latest-append_one id found [] cm = refl
latest-append_one id found (m ∷ ms) cm =
    latest-append_one id (if m.id == id then some (read_back m) else found) ms cm

-- The columns of the cache lose nothing of a message: no flag is empty or has a space in it, and the
-- date is in whole seconds.
abbrev pub IsStorable : Message → Type 0
IsStorable msg = All IsFlag msg.flags × (from_unix (unix msg.internal_date) ≡ msg.internal_date)

module _ (m : Mail) (hash_header : Text) where
  latest-read_one :
      (context : Text) (msg : Message) (f : Fetched) (id : Text) (x : Option CachedMsg)
      → IsStorable msg
      → latest read_back id x (read_fetched m hash_header context (msg ∷ []) f).fresh ≡ (
          if id == msg.id
          then or_else (remembered m hash_header msg) (latest read_back id x f.fresh)
          else latest read_back id x f.fresh)
  unfolding read_fetched remembered
  latest-read_one context msg f id x flags = go (parse_message m hash_header msg) refl
    where
      go :
          (r : Result Input)
          → parse_message m hash_header msg ≡ r
          → latest read_back id x (read_fetched m hash_header context (msg ∷ []) f).fresh ≡ (
              if id == msg.id
              then or_else (remembered m hash_header msg) (latest read_back id x f.fresh)
              else latest read_back id x f.fresh)
      go (err why) e = rw (read_fetched, remembered, e) (ground arith)
      go (ok input) e =
          rw (read_fetched, remembered, e)
            (latest-append_one id x f.fresh (cached_of msg input)
              ∙ rw (decode_flags-encode_flags msg.flags flags.0, flags.1)
                  (ground (arith, eq_comm id msg.id)))

  latest-read_fetched :
      (context : Text) (contents : Text → Message) (msgs : List Message) (f : Fetched) (id : Text)
      (x : Option CachedMsg)
      → All (λ msg. msg ≡ contents msg.id) msgs
      → ((i : Text) → IsStorable (contents i))
      → latest read_back id x (read_fetched m hash_header context msgs f).fresh ≡ (
          if contains (ids_of msgs) id
          then or_else (remembered m hash_header (contents id)) (latest read_back id x f.fresh)
          else latest read_back id x f.fresh)
  unfolding read_fetched
  latest-read_fetched context contents [] f id x h flags = refl
  latest-read_fetched context contents (msg ∷ msgs) f id x (here, h) flags =
      let f' = read_fetched m hash_header context (msg ∷ []) f in
      ground (
        arith,
        eq_iff id msg.id,
        latest-read_one context msg f id x (subst IsStorable (sym here) (flags msg.id)),
        latest-read_fetched context contents msgs f' id x h flags,
      )

  -- What a pass leaves of a folder: rows that agree with it, and for each listed message the row that
  -- it is to have.
  abbrev pub Leaves : (Text → Message) → Scope → List Text → Store → Type 0
  Leaves contents key ids st =
      Agrees m hash_header contents (msgs_of key st.sync_msg_cache)
      × ((id : Text)
          → contains ids id ≡ true
          → cached_msg key id st ≡ remembered m hash_header (contents id))

  absent :
      (found : Option CachedMsg)
      → ((cm : CachedMsg) → found ≡ some cm → none ≡ some cm)
      → found ≡ none
  absent none has = refl
  absent (some cm) has = sym (has cm refl)

  -- The row of one id, from what was fetched and what was there.
  row_after :
      (contents : Text → Message) (current : List Text) (cached : Dict Text CachedMsg)
      (msgs : List Message) (id : Text) (x : Option CachedMsg)
      → ((cm : CachedMsg) → x ≡ some cm → remembered m hash_header (contents id) ≡ some cm)
      → ((cm : CachedMsg) → Dict.lookup id cached ≡ some cm → x ≡ some cm)
      → (contains (new_ids current cached) id ≡ true → contains (ids_of msgs) id ≡ true)
      → (row : Option CachedMsg)
      → row ≡ (
          if contains (gone_ids current cached) id
          then none
          else if contains (ids_of msgs) id
          then or_else (remembered m hash_header (contents id)) x
          else x)
      → ((cm : CachedMsg) → row ≡ some cm → remembered m hash_header (contents id) ≡ some cm)
        × (contains current id ≡ true → row ≡ remembered m hash_header (contents id))
  unfolding Dict.member
  row_after contents current cached msgs id none agree has fetched row e = (
    λ cm h. ground (arith, e, h),
    λ listed. ground (
      arith,
      e,
      fetched,
      absent (Dict.lookup id cached) has,
      contains-gone_ids current cached id,
      contains-new_ids current cached id,
    ),
  )
  row_after contents current cached msgs id (some cm) agree has fetched row e = (
    λ cm' h. ground (arith, agree cm refl, e, h),
    λ listed. ground (arith, e, agree cm refl, contains-gone_ids current cached id),
  )

  module _ (E : Endpoint) where
    index_with-Leaves :
        (now : Time) (context : Text) (key : Scope) (validity : Text) (cached : Dict Text CachedMsg)
        (resync_at : Time) (s : E.State) (st : Store) (us : UserStats) (contents : Text → Message)
        (ids : List Text) (msgs : List Message)
        → (E.list_ids s).0 ≡ ok ids
        → (E.fetch_meta (asked_for (new_ids (sort text_leb ids) cached)) (E.list_ids s).1).0
          ≡ ok msgs
        → All (λ msg. msg ≡ contents msg.id) msgs
        → Subset (new_ids (sort text_leb ids) cached) (ids_of msgs)
        → ((i : Text) → IsStorable (contents i))
        → Agrees m hash_header contents (msgs_of key st.sync_msg_cache)
        → ((id : Text) (cm : CachedMsg)
            → Dict.lookup id cached ≡ some cm
            → Dict.lookup id (msgs_of key st.sync_msg_cache) ≡ some cm)
        → Leaves contents key ids
            (index_with m hash_header E no_faults now context key validity cached resync_at s st
              us).store
    unfolding index_with index_fetched cached_msg latest
    index_with-Leaves now context key validity cached resync_at s st us contents ids msgs listed
          fetched own all_new flags agrees has =
        rw (index_with, listed, fetched)
          (
            λ id cm h. (row id).0 cm h,
            λ id h. (row id).1 (ground (arith, contains-sort text_leb id ids)),
          )
      where
        current : List Text
        current = sort text_leb ids

        start : Fetched
        start = record { fresh = []; cached = cached; us = us }

        got : Fetched
        got = read_fetched m hash_header context msgs start

        left : Store
        left =
            (write_cache no_faults now context key validity resync_at got.fresh
              (gone_ids current cached) st got.us).0

        row :
            (id : Text)
            → ((cm : CachedMsg)
                → cached_msg key id left ≡ some cm
                → remembered m hash_header (contents id) ≡ some cm)
              × (contains current id ≡ true
                  → cached_msg key id left ≡ remembered m hash_header (contents id))
        row id =
            row_after contents current cached msgs id (cached_msg key id st) (agrees id) (has id)
              (all_new id) (cached_msg key id left)
              (cached_msg-write_cache now context key validity resync_at got.fresh
                  (gone_ids current cached) st got.us id
                ∙ rw
                    (latest-read_fetched context contents msgs start id (cached_msg key id st) own
                      flags)
                    refl)

    -- When no statement on the database fails, the pass leaves a cache that agrees with the folder,
    -- with the right row for each listed message, so that the next pass finds it current. The
    -- conditions are those of `index_folder_incremental-build`, and that the columns of the cache
    -- lose nothing of a message: no flag is empty or has a space in it, and each date is in whole
    -- seconds.
    pub index_folder_incremental-Leaves :
        (now : Time) (every : ℤ) (context : Text) (key : Scope) (validity : Text) (s : E.State)
        (st : Store) (us : UserStats) (contents : Text → Message) (ids : List Text)
        → (E.list_ids s).0 ≡ ok ids
        → ((asked : List Text)
            → Subset asked ids
            → Serves m hash_header E contents (E.list_ids s).1 asked)
        → IsCurrent m hash_header E contents key validity st
        → ((i : Text) → IsStorable (contents i))
        → Leaves contents key ids
            (index_folder_incremental m hash_header E no_faults now every context key validity s st
              us).store
    unfolding index_folder_incremental
    index_folder_incremental-Leaves now every context key validity s st us contents ids listed
          serves current flags =
        let (cache, opened, _, agrees, has) =
          open_cache-Opens m hash_header E no_faults now every key validity st contents refl refl
            current in
        let (msgs, fetched, own, all_new) = serves (new_ids (sort text_leb ids) cache.0) (λ id h.
          ground (
            arith,
            contains-new_ids (sort text_leb ids) cache.0 id,
            contains-sort text_leb id ids,
          )) in
        rw (index_folder_incremental, opened)
          (index_with-Leaves now context key validity cache.0 cache.1 s
            (open_cache no_faults now every key validity st).1 us contents ids msgs listed fetched
            own all_new flags agrees has)
