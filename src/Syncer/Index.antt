-- ===== src/Syncer/Index.antt =====
-- `indexFolder`, `indexFolderFull` and `indexFolderIncremental` of internal/syncer/syncer.go.
pub mod Caching
use imapsync.Base.{
  ℕ, Bool, ◌&&◌, not, Option, none, some, List, [], ◌∷◌, ◌++◌, ◌==◌, list_eq, nat_eq, if◌then◌else◌,
  filter, contains,
}
use imapsync.Base.Int.{ℤ, pos, int_leb, int_ltb, int_sub}
use imapsync.Base.Text.{Text, text}
use imapsync.Base.Dict
use imapsync.Base.Dict.{Dict}
use imapsync.Base.Sort.{sort, text_leb}
use imapsync.Base.Time.{Time}
use imapsync.Base.Result.{Error, Result, ok, err, wrap}
use imapsync.Mailbox.Message.{Mail}
use imapsync.Endpoint.{Endpoint, Message}
use imapsync.Dedup.{Index, Input, build, build_from, parse_message, keys}
use imapsync.Store.Tables.{Store, Scope}
use imapsync.Store.State.{
  CachedMsg, load_endpoint, save_endpoint, put_cached_msgs, delete_cached_msgs, reset_endpoint,
}
use imapsync.Stats.{UserStats, add_error}
pub use imapsync.Syncer.Index.Caching.{Faults, Cache, asked_for}
unfoldable pub use imapsync.Syncer.Index.Caching.{
  resync_due, new_ids, gone_ids, erase_all, reset, open_cache, recorded, write_cache,
}

-- `for _, e := range errs { s.recordErr(us, …) }`
unfoldable pub add_errors : Text → List Error → UserStats → UserStats
add_errors context [] us = us
add_errors context (e ∷ es) us = add_errors context es (add_error (wrap context e) us)

abbrev pub cached_of : Message → Input → CachedMsg
cached_of m input = record {
  id = m.id;
  msg_id = input.msg_id;
  xhash = input.xhash;
  surrogate = input.surrogate;
  internal_date = m.internal_date;
  flags = m.flags;
}

abbrev pub input_of : CachedMsg → Input
input_of cm = record {
  id = cm.id;
  flags = cm.flags;
  internal_date = cm.internal_date;
  size = 0;
  msg_id = cm.msg_id;
  xhash = cm.xhash;
  surrogate = cm.surrogate;
  keys = keys cm.msg_id cm.xhash cm.surrogate;
}

-- The inputs of the index, in the order of the listed ids; an id without a cached message is one
-- whose headers could not be parsed.
unfoldable pub inputs_of : List Text → Dict Text CachedMsg → List Input
inputs_of [] cached = []
inputs_of (id ∷ ids) cached =
    let rest = inputs_of ids cached in
    elim (Dict.lookup id cached) [ none ↦ rest | some cm ↦ input_of cm ∷ rest ]

pub record Fetched : Type 0 where
  pub fresh : List CachedMsg
  pub cached : Dict Text CachedMsg
  pub us : UserStats

module _ (m : Mail) (hash_header : Text) where
  -- The loop over the fetched messages.
  unfoldable pub read_fetched : Text → List Message → Fetched → Fetched
  read_fetched context [] f = f
  read_fetched context (msg ∷ rest) f =
      read_fetched context rest (elim (parse_message m hash_header msg) [
        | err why ↦ record f { us = add_error (wrap context why) f.us }
        | ok input ↦
            let cm = cached_of msg input in
            record f { fresh = f.fresh ++ (cm ∷ []); cached = Dict.insert msg.id cm f.cached }
      ])

  module _ (E : Endpoint) where
    -- The session, the store and the counters after an index was built, or was not.
    pub record Indexed : Type 0 where
      pub outcome : Result Index
      pub session : E.State
      pub store : Store
      pub us : UserStats

    unfoldable pub index_folder_full : Text → E.State → Store → UserStats → Indexed
    index_folder_full context s store us =
        let (fetched, s') = E.fetch_meta none s in
        elim fetched [
          | err why ↦ record {
            outcome = err (wrap context why);
            session = s';
            store = store;
            us = us;
          }
          | ok msgs ↦
              let (idx, errs) = build m hash_header msgs in
              record {
                outcome = ok idx;
                session = s';
                store = store;
                us = add_errors (context ++ text "parse: ") errs us;
              }
        ]

    abbrev pub failed : Text → Error → E.State → Store → UserStats → Indexed
    failed context why s st us = record {
      outcome = err (wrap context why);
      session = s;
      store = st;
      us = us;
    }

    -- What follows once the fetched messages are read.
    unfoldable pub index_fetched :
        Faults
        → Time
        → Text
        → Scope
        → Text
        → Time
        → List Text
        → List Text
        → Fetched
        → E.State
        → Store
        → Indexed
    unfolding write_cache
    index_fetched faults now context key validity resync_at current gone f s st =
        let (st', us') =
          write_cache faults now context key validity resync_at f.fresh gone st f.us in
        record {
          outcome = ok (build_from (inputs_of current (erase_all gone f.cached)));
          session = s;
          store = st';
          us = us';
        }

    -- The pass over a folder, once the cache is open.
    unfoldable pub index_with :
        Faults
        → Time
        → Text
        → Scope
        → Text
        → Dict Text CachedMsg
        → Time
        → E.State
        → Store
        → UserStats
        → Indexed
    unfolding index_fetched
    index_with faults now context key validity cached resync_at s st us =
        let (listed, s1) = E.list_ids s in
        elim listed [
          | err why ↦ failed context why s1 st us
          | ok ids ↦
              let current = sort text_leb ids in
              let (fetched, s2) = E.fetch_meta (asked_for (new_ids current cached)) s1 in
              elim fetched [
                | err why ↦ failed context why s2 st us
                | ok msgs ↦
                    index_fetched faults now context key validity resync_at current
                      (gone_ids current cached)
                      (read_fetched context msgs (record { fresh = []; cached = cached; us = us }))
                      s2 st
              ]
        ]

    -- `every` is `full_resync_every`; one `now` stands for the times at which the pass asks the
    -- clock.
    unfoldable pub index_folder_incremental :
        Faults → Time → ℤ → Text → Scope → Text → E.State → Store → UserStats → Indexed
    unfolding open_cache index_with
    index_folder_incremental faults now every context key validity s st us =
        let (opened, st') = open_cache faults now every key validity st in
        elim opened [
          | err why ↦ failed context why s st' us
          | ok cache ↦ index_with faults now context key validity cache.0 cache.1 s st' us
        ]

    unfoldable pub index_folder :
        Bool → Faults → Time → ℤ → Text → Scope → Text → E.State → Store → UserStats → Indexed
    unfolding index_folder_full index_folder_incremental
    index_folder incremental faults now every context key validity s st us =
        if incremental
        then index_folder_incremental faults now every context key validity s st us
        else index_folder_full context s st us
