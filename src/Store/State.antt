-- ===== src/Store/State.antt =====
-- internal/store/state.go: the cache of parsed messages, per user, folder pair and side.
pub mod Cache
pub mod Flags
pub mod Deletion
use imapsync.Base.{
  ℕ, zero, suc, ◌+◌, ◌-◌, Bool, true, false, ◌&&◌, ◌||◌, not, Option, none, some, List, [], ◌∷◌,
  ◌++◌, map, ◌==◌, ◌!=◌, list_eq, nat_eq, pair_eq, if◌then◌else◌, contains, length, take, drop,
}
use imapsync.Base.Int.{ℤ, pos, negsuc, int_ltb, int_eq}
use imapsync.Base.Text.{Text, text, is_empty}
use imapsync.Base.Text.Split.{split, join}
use imapsync.Base.Dict
use imapsync.Base.Dict.{Dict}
use imapsync.Base.Time.{Time, zero_time, is_zero, unix, from_unix}
use imapsync.Base.Result.{Error, Result, ok, err, wrap}
use imapsync.Store.Tables.{Store, Scope, EndpointRow, MsgRow, statement}

pub record Endpoint : Type 0 where
  pub exists : Bool
  pub validity : Text
  pub full_resync_at : Time

pub record CachedMsg : Type 0 where
  pub id : Text
  pub msg_id : Text
  pub xhash : Text
  pub surrogate : Text
  pub internal_date : Time
  pub flags : List Text

unfoldable pub encode_flags : List Text → Text
encode_flags flags = join b' ' flags

unfoldable pub decode_flags : Text → List Text
decode_flags s = if is_empty s then [] else split b' ' s

-- `PairKey`
unfoldable pub pair_key : Text → Text → Text
pair_key folder_a folder_b = folder_a ++ (0 ∷ folder_b)

abbrev pub row_of : CachedMsg → MsgRow
row_of m = record {
  msgid = m.msg_id;
  xhash = m.xhash;
  surrogate = m.surrogate;
  internaldate = unix m.internal_date;
  flags = encode_flags m.flags;
}

abbrev pub msg_of : Text → MsgRow → CachedMsg
msg_of id r = record {
  id = id;
  msg_id = r.msgid;
  xhash = r.xhash;
  surrogate = r.surrogate;
  internal_date = from_unix r.internaldate;
  flags = decode_flags r.flags;
}

-- The rows of one side of a pair, by message.
unfoldable pub msgs_of : Scope → Dict (Scope × Text) MsgRow → Dict Text CachedMsg
msgs_of key [] = []
msgs_of key (((scope, id), r) ∷ rows) =
    let rest = msgs_of key rows in if scope == key then (id, msg_of id r) ∷ rest else rest

abbrev pub no_endpoint : Endpoint
no_endpoint = record { exists = false; validity = []; full_resync_at = zero_time }

unfoldable pub load_endpoint :
    Option Error → Scope → Store → Result (Endpoint × Dict Text CachedMsg)
load_endpoint (some e) key s = err (wrap (text "reading sync_endpoint: ") e)
load_endpoint none key s = elim (Dict.lookup key s.sync_endpoint) [
  | none ↦ ok (no_endpoint, [])
  | some row ↦ ok (
    record {
      exists = true;
      validity = row.validity;
      full_resync_at = if int_ltb (pos 0) row.full_resync_at then row.full_resync_at else zero_time;
    },
    msgs_of key s.sync_msg_cache,
  )
]

unfoldable pub save_endpoint :
    Option Error → Time → Scope → Text → Time → Store → Result (Unit {0}) × Store
save_endpoint fault now key validity full_resync_at s =
    statement fault (text "writing sync_endpoint: ")
      (
        ok tt,
        record s {
          sync_endpoint =
              Dict.insert key
                (record {
                  validity = validity;
                  full_resync_at = if is_zero full_resync_at then pos 0 else full_resync_at;
                  updated_at = unix now;
                })
                s.sync_endpoint;
        },
      )
      s

-- One INSERT … ON CONFLICT DO UPDATE for each message.
unfoldable pub put_rows :
    Scope → List CachedMsg → Dict (Scope × Text) MsgRow → Dict (Scope × Text) MsgRow
put_rows key [] rows = rows
put_rows key (m ∷ ms) rows = put_rows key ms (Dict.insert (key, m.id) (row_of m) rows)

unfoldable pub put_cached_msgs :
    Option Error → Scope → List CachedMsg → Store → Result (Unit {0}) × Store
put_cached_msgs fault key [] s = (ok tt, s)
put_cached_msgs fault key (m ∷ ms) s =
    statement fault (text "writing cache: ")
      (ok tt, record s { sync_msg_cache = put_rows key (m ∷ ms) s.sync_msg_cache }) s

abbrev pub chunk : ℕ
chunk = 400

unfoldable pub delete_rows :
    Scope → List Text → Dict (Scope × Text) MsgRow → Dict (Scope × Text) MsgRow
delete_rows key ids rows = Dict.keep (λ k r. not (k.0 == key && contains ids k.1)) rows

-- The loop over batches of `chunk` ids, each a statement of its own: what was deleted before an
-- error stays deleted. The fuel is the number of ids.
unfoldable pub delete_batches :
    ℕ → (ℕ → Option Error) → ℕ → Scope → List Text → Store → Result (Unit {0}) × Store
delete_batches fuel faults n key [] s = (ok tt, s)
delete_batches zero faults n key (id ∷ ids) s = (ok tt, s)
delete_batches (suc fuel) faults n key (id ∷ ids) s =
    let s' = record s {
      sync_msg_cache = delete_rows key (take chunk (id ∷ ids)) s.sync_msg_cache;
    } in
    let more = delete_batches fuel faults (n + 1) key (drop chunk (id ∷ ids)) s' in
    elim (faults n) [
      | some e ↦ (err (wrap (text "deleting messages from cache: ") e), s)
      | none ↦ more
    ]

unfoldable pub delete_cached_msgs :
    (ℕ → Option Error) → Scope → List Text → Store → Result (Unit {0}) × Store
delete_cached_msgs faults key ids s = delete_batches (length ids) faults 0 key ids s

unfoldable pub reset_endpoint : Option Error → Scope → Store → Result (Unit {0}) × Store
reset_endpoint fault key s =
    statement fault (text "resetting endpoint: ")
      (
        ok tt,
        record s {
          sync_msg_cache = Dict.keep (λ k r. not (k.0 == key)) s.sync_msg_cache;
          sync_endpoint = Dict.erase key s.sync_endpoint;
        },
      )
      s
