-- ===== src/Syncer/Incremental/Built.antt =====
-- The index of an incremental pass, whether the cache is kept or thrown away.
use imapsync.Base.{
  ◌≡◌, refl, eq_refl, ap, Bool, true, false, Option, none, some, List, [], arith, All, Subset, map,
  ◌==◌, eq_iff, list_eq, nat_eq, pair_eq, if◌then◌else◌, Bool-cases, inl, inr,
}
use imapsync.Base.Text.{Text}
use imapsync.Base.Dict
use imapsync.Base.Dict.{Dict, lookup-insert, lookup-erase, contains-keys}
use imapsync.Base.Result.{Result, ok}
use imapsync.Mailbox.Message.{Mail}
use imapsync.Endpoint.{Endpoint, Message}
use imapsync.Dedup.{build, build_from}
use imapsync.Base.Sort.{sort, text_leb, contains-sort}
use imapsync.Base.Time.{Time, zero_time}
use imapsync.Base.Int.{ℤ}
use imapsync.Store.Tables.{Store, Scope, EndpointRow}
use imapsync.Store.State.{CachedMsg, msgs_of, load_endpoint, reset_endpoint}
use imapsync.Store.State.Cache.{cached_msg, cached_msg-reset_endpoint}
use imapsync.Stats.{UserStats}
use imapsync.Syncer.Index.{
  read_fetched, Faults, Cache, open_cache, reset, resync_due, asked_for, index_folder_incremental,
  erase_all, new_ids, gone_ids, index_with, index_fetched,
}
use imapsync.Syncer.Incremental.{
  ids_of, unsized, Agrees, contains-new_ids, inputs_of-remembered, lookup_after,
}

module _ (m : Mail) (hash_header : Text) where
  module _ (E : Endpoint) where
    index_with-build :
        (faults : Faults) (now : Time) (context : Text) (key : Scope) (validity : Text)
        (cached : Dict Text CachedMsg) (resync_at : Time) (s : E.State) (st : Store)
        (us : UserStats) (contents : Text → Message) (ids : List Text) (msgs : List Message)
        → (E.list_ids s).0 ≡ ok ids
        → (E.fetch_meta (asked_for (new_ids (sort text_leb ids) cached)) (E.list_ids s).1).0
          ≡ ok msgs
        → All (λ msg. msg ≡ contents msg.id) msgs
        → Subset (new_ids (sort text_leb ids) cached) (ids_of msgs)
        → Agrees m hash_header contents cached
        → (index_with m hash_header E faults now context key validity cached resync_at s st
            us).outcome
          ≡ ok (build m hash_header (map (λ id. unsized (contents id)) (sort text_leb ids))).0
    unfolding index_with index_fetched build
    index_with-build faults now context key validity cached resync_at s st us contents ids msgs
          listed fetched own all_new agrees =
        rw (index_with, listed, fetched)
          (ap (λ inputs. ok (build_from inputs))
            (inputs_of-remembered m hash_header contents (sort text_leb ids)
              (erase_all (gone_ids (sort text_leb ids) cached)
                (read_fetched m hash_header context msgs
                  (record { fresh = []; cached = cached; us = us })).cached)
              (lookup_after m hash_header context contents (sort text_leb ids) msgs
                (record { fresh = []; cached = cached; us = us }) agrees own all_new)))

    -- Asked for ids of the folder, the endpoint gives the folder's own messages, and among them
    -- those with these ids.
    abbrev pub Serves : (Text → Message) → E.State → List Text → Type 0
    Serves contents s asked =
        (msgs : List Message) × ((E.fetch_meta (asked_for asked) s).0 ≡ ok msgs)
        × All (λ msg. msg ≡ contents msg.id) msgs
        × Subset asked (ids_of msgs)

    -- The cache has the folder's messages, unless it is known to be another folder's.
    abbrev pub IsCurrent : (Text → Message) → Scope → Text → Store → Type 0
    IsCurrent contents key validity st =
        ((row : EndpointRow)
          → Dict.lookup key st.sync_endpoint ≡ some row
          → row.validity ≡ validity)
        → Agrees m hash_header contents (msgs_of key st.sync_msg_cache)

    -- The cache is opened, whether it is kept or thrown away: it agrees with the folder, and so do
    -- the rows that it leaves in the store, which have all that it has.
    abbrev pub Opens : (Text → Message) → Scope → Result Cache × Store → Type 0
    Opens contents key (opened, st) =
        (cache : Cache) × (opened ≡ ok cache)
        × Agrees m hash_header contents cache.0
        × Agrees m hash_header contents (msgs_of key st.sync_msg_cache)
        × ((id : Text) (cm : CachedMsg)
            → Dict.lookup id cache.0 ≡ some cm
            → Dict.lookup id (msgs_of key st.sync_msg_cache) ≡ some cm)

    nothing :
        {P : Type 0} (id : Text) (cm : CachedMsg) → Dict.lookup {V = CachedMsg} id [] ≡ some cm → P
    unfolding Dict.lookup
    nothing id cm e = cc

    Agrees-empty : (contents : Text → Message) → Agrees m hash_header contents []
    unfolding Dict.lookup
    Agrees-empty contents id cm e = cc

    Opens-if :
        (contents : Text → Message) (key : Scope) (b : Bool) (p q : Result Cache × Store)
        → Opens contents key p
        → Opens contents key q
        → Opens contents key (if b then p else q)
    Opens-if contents key true p q hp hq = hp
    Opens-if contents key false p q hp hq = hq

    Opens-reset :
        (contents : Text → Message) (key : Scope) (now : Time) (st : Store)
        → Opens contents key (ok ([], now), (reset_endpoint none key st).1)
    unfolding cached_msg Dict.lookup
    Opens-reset contents key now st = (
      ([], now),
      refl,
      Agrees-empty contents,
      λ id cm e. ground (arith, e, cached_msg-reset_endpoint key key id st, eq_refl key),
      λ id cm e. cc,
    )

    pub open_cache-Opens :
        (faults : Faults) (now : Time) (every : ℤ) (key : Scope) (validity : Text) (st : Store)
        (contents : Text → Message)
        → faults.loading ≡ none
        → faults.resetting ≡ none
        → IsCurrent contents key validity st
        → Opens contents key (open_cache faults now every key validity st)
    unfolding open_cache reset load_endpoint reset_endpoint
    open_cache-Opens faults now every key validity st contents loads resets current =
        go (Dict.lookup key st.sync_endpoint) refl
      where
        thrown : Opens contents key (ok ([], now), (reset_endpoint none key st).1)
        thrown = Opens-reset contents key now st

        go :
            (found : Option EndpointRow)
            → Dict.lookup key st.sync_endpoint ≡ found
            → Opens contents key (open_cache faults now every key validity st)
        go none e =
            rw (open_cache, load_endpoint, loads, e, resets)
              (Opens-if contents key (resync_due now every zero_time) _ _ thrown (
                ([], zero_time),
                refl,
                Agrees-empty contents,
                current (λ r h. ground (arith, e, h)),
                λ id cm h. nothing id cm h,
              ))
        go (some row) e = elim (Bool-cases (row.validity == validity)) [
          | inl same ↦
              rw (open_cache, load_endpoint, loads, e, same, resets)
                (Opens-if contents key _ _ _ thrown (
                  (msgs_of key st.sync_msg_cache, _),
                  refl,
                  current (λ r h. ground (arith, e, h, eq_iff row.validity validity)),
                  current (λ r h. ground (arith, e, h, eq_iff row.validity validity)),
                  λ id cm h. h,
                ))
          | inr other ↦ rw (open_cache, load_endpoint, loads, e, other, resets) thrown
        ]

    -- The incremental pass gives the index that `Build` makes of all the folder's messages, in the
    -- order of their ids and without their sizes: it does not matter what is cached, whether the
    -- cache is thrown away, and which messages are fetched. The endpoint lists the folder and gives
    -- at least the messages that it is asked for, each as it is in the folder; the cache can be read
    -- and reset, and what it has is current unless it is known to be another folder's. The writes to
    -- the cache may fail.
    pub index_folder_incremental-build :
        (faults : Faults) (now : Time) (every : ℤ) (context : Text) (key : Scope) (validity : Text)
        (s : E.State) (st : Store) (us : UserStats) (contents : Text → Message) (ids : List Text)
        → faults.loading ≡ none
        → faults.resetting ≡ none
        → (E.list_ids s).0 ≡ ok ids
        → ((asked : List Text) → Subset asked ids → Serves contents (E.list_ids s).1 asked)
        → IsCurrent contents key validity st
        → (index_folder_incremental m hash_header E faults now every context key validity s st
            us).outcome
          ≡ ok (build m hash_header (map (λ id. unsized (contents id)) (sort text_leb ids))).0
    unfolding index_folder_incremental
    index_folder_incremental-build faults now every context key validity s st us contents ids loads
          resets listed serves current =
        let (cache, opened, agrees, _, _) =
          open_cache-Opens faults now every key validity st contents loads resets current in
        let asked = new_ids (sort text_leb ids) cache.0 in
        let (msgs, fetched, own, all_new) = serves asked (λ id h. ground (
          arith,
          contains-new_ids (sort text_leb ids) cache.0 id,
          contains-sort text_leb id ids,
        )) in
        rw (index_folder_incremental, opened)
          (index_with-build faults now context key validity cache.0 cache.1 s
            (open_cache faults now every key validity st).1 us contents ids msgs listed fetched own
            all_new agrees)
