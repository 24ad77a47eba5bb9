-- ===== src/Syncer/Incremental.antt =====
-- The incremental pass against the full one: what `indexFolderIncremental` makes of the cache and of
-- the messages it fetches, and what `Build` makes of the whole folder.
pub mod Built
pub mod Kept
use imapsync.Base.{
  ◌≡◌, refl, eq_comm, eq_refl, sym, ap, ◌∙◌, Bool, true, false, ◌&&◌, ◌||◌, not, Option, none, some,
  List, [], ◌∷◌, ◌++◌, arith, All, Subset, contains, contains-filter, filter, map, ◌==◌, eq_iff,
  list_eq, nat_eq, pair_eq, if◌then◌else◌, Bool-cases, inl, inr,
}
use imapsync.Base.Text.{Text}
use imapsync.Base.Dict
use imapsync.Base.Dict.{Dict, lookup-insert, lookup-erase, contains-keys}
use imapsync.Base.Result.{Result, ok, err, wrap}
use imapsync.Mailbox.Message.{Mail, Fields, parse_fields}
use imapsync.Endpoint.{Endpoint, Message}
use imapsync.Dedup.{Input, parse_message, parse_all, input_of as parsed_input, build, build_from}
use imapsync.Base.Sort.{sort, text_leb, contains-sort}
use imapsync.Base.Time.{Time, zero_time}
use imapsync.Base.Int.{ℤ}
use imapsync.Store.Tables.{Store, Scope, EndpointRow}
use imapsync.Store.State.{CachedMsg, msgs_of, load_endpoint, reset_endpoint}
use imapsync.Store.State.Cache.{cached_msg, cached_msg-reset_endpoint}
use imapsync.Stats.{UserStats, add_error}
use imapsync.Syncer.Index.{
  Fetched, read_fetched, cached_of, input_of, inputs_of, Faults, Cache, open_cache, reset,
  resync_due, asked_for, index_folder_incremental, erase_all, new_ids, gone_ids, index_with,
  index_fetched,
}

-- Option.or_else
abbrev pub or_else {ℓ} : {A : Type ℓ} → Option A → Option A → Option A
or_else none d = d
or_else (some a) d = some a

pub lookup-erase_all :
    (ids : List Text) (id : Text) (d : Dict Text CachedMsg)
    → Dict.lookup id (erase_all ids d) ≡ (if contains ids id then none else Dict.lookup id d)
unfolding erase_all
lookup-erase_all [] id d = refl
lookup-erase_all (i ∷ ids) id d =
    ground (
      arith,
      eq_iff i id,
      eq_iff id i,
      lookup-erase_all ids id (Dict.erase i d),
      lookup-erase i id d,
    )

pub contains-new_ids :
    (current : List Text) (cached : Dict Text CachedMsg) (id : Text)
    → contains (new_ids current cached) id ≡ (contains current id && not (Dict.member id cached))
unfolding new_ids
contains-new_ids current cached id = contains-filter (λ i. not (Dict.member i cached)) current id

pub contains-gone_ids :
    (current : List Text) (cached : Dict Text CachedMsg) (id : Text)
    → contains (gone_ids current cached) id ≡ (Dict.member id cached && not (contains current id))
unfolding gone_ids
contains-gone_ids current cached id =
    contains-filter (λ i. not (contains current i)) (Dict.keys cached) id
    ∙ ap (λ b. b && not (contains current id)) (contains-keys id cached)

-- The ids of the fetched messages.
abbrev pub ids_of : List Message → List Text
ids_of = map (λ msg. msg.id)

-- A message as the index of the incremental pass knows it: the cache has no sizes.
abbrev pub unsized : Message → Message
unsized msg = record msg { size = 0 }

module _ (m : Mail) (hash_header : Text) where
  -- What the cache is to have for a message: nothing when its headers cannot be parsed.
  unfoldable pub remembered : Message → Option CachedMsg
  remembered msg = elim (parse_message m hash_header msg) [
    | err why ↦ none
    | ok input ↦ some (cached_of msg input)
  ]

  -- Each cached message is the one that the folder has under its id.
  abbrev pub Agrees : (Text → Message) → Dict Text CachedMsg → Type 0
  Agrees contents cached =
      (id : Text) (cm : CachedMsg)
      → Dict.lookup id cached ≡ some cm
      → remembered (contents id) ≡ some cm

  -- One round of the loop over the fetched messages.
  lookup-read_one :
      (context : Text) (msg : Message) (f : Fetched) (id : Text)
      → Dict.lookup id (read_fetched m hash_header context (msg ∷ []) f).cached ≡ (
          if id == msg.id
          then or_else (remembered msg) (Dict.lookup id f.cached)
          else Dict.lookup id f.cached)
  unfolding read_fetched remembered
  lookup-read_one context msg f id = go (parse_message m hash_header msg) refl
    where
      go :
          (r : Result Input)
          → parse_message m hash_header msg ≡ r
          → Dict.lookup id (read_fetched m hash_header context (msg ∷ []) f).cached ≡ (
              if id == msg.id
              then or_else (remembered msg) (Dict.lookup id f.cached)
              else Dict.lookup id f.cached)
      go (err why) e = rw (read_fetched, remembered, e) (ground arith)
      go (ok input) e =
          rw (read_fetched, remembered, e)
            (ground
              (arith, eq_comm id msg.id, lookup-insert msg.id id (cached_of msg input) f.cached))

  pub lookup-read_fetched :
      (context : Text) (contents : Text → Message) (msgs : List Message) (f : Fetched) (id : Text)
      → All (λ msg. msg ≡ contents msg.id) msgs
      → Dict.lookup id (read_fetched m hash_header context msgs f).cached ≡ (
          if contains (ids_of msgs) id
          then or_else (remembered (contents id)) (Dict.lookup id f.cached)
          else Dict.lookup id f.cached)
  unfolding read_fetched
  lookup-read_fetched context contents [] f id h = refl
  lookup-read_fetched context contents (msg ∷ msgs) f id (here, h) =
      let f' = read_fetched m hash_header context (msg ∷ []) f in
      ground (
        arith,
        eq_iff id msg.id,
        lookup-read_one context msg f id,
        lookup-read_fetched context contents msgs f' id h,
      )

  -- Both readings of one message: from the cache, and from its headers.
  abbrev Readings : Message → Result Input → Option CachedMsg → Type 0
  Readings msg (err why) found = found ≡ none
  Readings msg (ok input) found = (cm : CachedMsg) × (found ≡ some cm) × (input_of cm ≡ input)

  remembered_lem :
      (msg : Message) → Readings msg (parse_message m hash_header (unsized msg)) (remembered msg)
  unfolding parse_message parsed_input remembered
  remembered_lem msg = go (parse_fields m msg.header hash_header) refl
    where
      go :
          (r : Result Fields)
          → parse_fields m msg.header hash_header ≡ r
          → Readings msg (parse_message m hash_header (unsized msg)) (remembered msg)
      go (err why) e = rw (parse_message, remembered, e) refl
      go (ok fields) e =
          rw (parse_message, remembered, e)
            (cached_of msg (parsed_input m hash_header msg fields), refl, refl)

  pub inputs_of-remembered :
      (contents : Text → Message) (ids : List Text) (cached : Dict Text CachedMsg)
      → ((id : Text) → contains ids id ≡ true → Dict.lookup id cached ≡ remembered (contents id))
      → inputs_of ids cached ≡ (parse_all m hash_header (map (λ id. unsized (contents id)) ids)).0
  unfolding inputs_of parse_all
  inputs_of-remembered contents [] cached h = refl
  inputs_of-remembered contents (id ∷ ids) cached h =
      go (parse_message m hash_header (unsized (contents id))) refl (remembered_lem (contents id))
        (inputs_of-remembered contents ids cached (λ i hi. h i (ground arith)))
    where
      go :
          (r : Result Input)
          → parse_message m hash_header (unsized (contents id)) ≡ r
          → Readings (contents id) r (remembered (contents id))
          → inputs_of ids cached ≡ (parse_all m hash_header (map (λ i. unsized (contents i)) ids)).0
          → inputs_of (id ∷ ids) cached
            ≡ (parse_all m hash_header (map (λ i. unsized (contents i)) (id ∷ ids))).0
      go (err why) e found rest =
          rw (inputs_of, parse_all, h id (ground (arith, eq_refl id)) ∙ found, e) rest
      go (ok input) e (cm, found, same) rest =
          rw (inputs_of, parse_all, h id (ground (arith, eq_refl id)) ∙ found, e, same, rest) refl

  -- What the cache has for each listed id, once the fetched messages are read and those that are
  -- gone are erased.
  pub lookup_after :
      (context : Text) (contents : Text → Message) (current : List Text) (msgs : List Message)
      (f : Fetched)
      → Agrees contents f.cached
      → All (λ msg. msg ≡ contents msg.id) msgs
      → Subset (new_ids current f.cached) (ids_of msgs)
      → (id : Text) → contains current id ≡ true
      → Dict.lookup id
          (erase_all (gone_ids current f.cached) (read_fetched m hash_header context msgs f).cached)
        ≡ remembered (contents id)
  unfolding Dict.member
  lookup_after context contents current msgs f agrees own fetched id listed =
      go (Dict.lookup id f.cached) (agrees id) refl
    where
      go :
          (found : Option CachedMsg)
          → ((cm : CachedMsg) → found ≡ some cm → remembered (contents id) ≡ some cm)
          → Dict.lookup id f.cached ≡ found
          → Dict.lookup id (
              erase_all
                (gone_ids current f.cached)
                (read_fetched m hash_header context msgs f).cached)
            ≡ remembered (contents id)
      go none agree e = ground (
        arith,
        lookup-erase_all (gone_ids current f.cached) id
            (read_fetched m hash_header context msgs f).cached,
        contains-gone_ids current f.cached id,
        contains-new_ids current f.cached id,
        lookup-read_fetched context contents msgs f id own,
        fetched id,
      )
      go (some cm) agree e = ground (
        arith,
        lookup-erase_all (gone_ids current f.cached) id
            (read_fetched m hash_header context msgs f).cached,
        contains-gone_ids current f.cached id,
        lookup-read_fetched context contents msgs f id own,
        agree cm refl,
      )
