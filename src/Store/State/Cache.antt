-- ===== src/Store/State/Cache.antt =====
-- What is read from the cache after it was written.
use imapsync.Base.{
  ◌≡◌, refl, ◌∙◌, All, Bool, true, false, ◌&&◌, not, Option, none, some, List, [], ◌∷◌, arith, ◌==◌,
  list_eq, nat_eq, pair_eq, eq_iff, if◌then◌else◌,
}
use imapsync.Base.Text.{Text}
use imapsync.Base.Dict
use imapsync.Base.Dict.{Dict, lookup-insert, lookup-keep}
use imapsync.Store.Tables.{Store, Scope, MsgRow}
use imapsync.Base.Time.{unix, from_unix}
use imapsync.Store.State.Flags.{IsFlag, decode_flags-encode_flags}
use imapsync.Store.State.{
  CachedMsg, put_cached_msgs, msg_of, msgs_of, row_of, put_rows, reset_endpoint,
}

-- Option.map
abbrev read_row : Text → Option MsgRow → Option CachedMsg
read_row id none = none
read_row id (some r) = some (msg_of id r)

-- A message of a side is the row of that side under its id.
pub lookup-msgs_of :
    (key : Scope) (id : Text) (rows : Dict (Scope × Text) MsgRow)
    → Dict.lookup id (msgs_of key rows) ≡ read_row id (Dict.lookup (key, id) rows)
unfolding msgs_of Dict.lookup pair_eq
lookup-msgs_of key id [] = refl
lookup-msgs_of key id (((scope, j), r) ∷ rows) =
    ground (arith, eq_iff scope key, eq_iff j id, lookup-msgs_of key id rows)

-- The row of a message as it is read.
abbrev pub read_back : CachedMsg → CachedMsg
read_back m = msg_of m.id (row_of m)

-- A message with its date in whole seconds.
abbrev pub in_seconds : CachedMsg → CachedMsg
in_seconds m = record m { internal_date = from_unix (unix m.internal_date) }

-- A message is read as it was written, up to the part of its date below a second.
pub read_back_lem : (m : CachedMsg) → All IsFlag m.flags → read_back m ≡ in_seconds m
read_back_lem m flags = rw (decode_flags-encode_flags m.flags flags) refl

-- The last of the messages with this id, changed by `f`, or else what was found before.
unfoldable pub latest :
    (CachedMsg → CachedMsg) → Text → Option CachedMsg → List CachedMsg → Option CachedMsg
latest f id found [] = found
latest f id found (m ∷ ms) = latest f id (if m.id == id then some (f m) else found) ms

-- What a side's cache has under an id.
unfoldable pub cached_msg : Scope → Text → Store → Option CachedMsg
cached_msg key id s = Dict.lookup id (msgs_of key s.sync_msg_cache)

lookup-insert_msg :
    (key scope : Scope) (id : Text) (m : CachedMsg) (rows : Dict (Scope × Text) MsgRow)
    → Dict.lookup id (msgs_of scope (Dict.insert (key, m.id) (row_of m) rows)) ≡ (
        if key == scope && m.id == id
        then some (read_back m)
        else Dict.lookup id (msgs_of scope rows))
unfolding pair_eq
lookup-insert_msg key scope id m rows = ground (
  arith,
  eq_iff m.id id,
  lookup-msgs_of scope id (Dict.insert (key, m.id) (row_of m) rows),
  lookup-msgs_of scope id rows,
  lookup-insert (key, m.id) (scope, id) (row_of m) rows,
)

lookup-put_rows :
    (key scope : Scope) (id : Text) (ms : List CachedMsg) (rows : Dict (Scope × Text) MsgRow)
    → Dict.lookup id (msgs_of scope (put_rows key ms rows)) ≡ (
        if key == scope
        then latest read_back id (Dict.lookup id (msgs_of scope rows)) ms
        else Dict.lookup id (msgs_of scope rows))
unfolding put_rows latest
lookup-put_rows key scope id [] rows = ground arith
lookup-put_rows key scope id (m ∷ ms) rows =
    lookup-put_rows key scope id ms (Dict.insert (key, m.id) (row_of m) rows)
    ∙ rw (lookup-insert_msg key scope id m rows) (go (key == scope))
  where
    go :
        (b : Bool)
        → (if b
            then latest read_back id
                (if b && m.id == id
                  then some (read_back m)
                  else Dict.lookup id (msgs_of scope rows))
                ms
            else (if b && m.id == id
                then some (read_back m)
                else Dict.lookup id (msgs_of scope rows)))
          ≡ (if b
              then latest read_back id
                  (if m.id == id then some (read_back m) else Dict.lookup id (msgs_of scope rows))
                  ms
              else Dict.lookup id (msgs_of scope rows))
    go true = refl
    go false = refl

-- The rows of the messages that are put into a side's cache.
pub cached_msg-put_rows :
    (key scope : Scope) (id : Text) (ms : List CachedMsg) (s : Store)
    → cached_msg scope id (put_cached_msgs none key ms s).1 ≡ (
        if key == scope
        then latest read_back id (cached_msg scope id s) ms
        else cached_msg scope id s)
unfolding cached_msg put_cached_msgs latest put_rows
cached_msg-put_rows key scope id [] s = ground arith
cached_msg-put_rows key scope id (m ∷ ms) s = lookup-put_rows key scope id (m ∷ ms) s.sync_msg_cache

-- After a reset a side has no cached message, and every other side has what it had.
pub cached_msg-reset_endpoint :
    (key scope : Scope) (id : Text) (s : Store)
    → cached_msg scope id (reset_endpoint none key s).1
      ≡ (if scope == key then none else cached_msg scope id s)
unfolding cached_msg reset_endpoint pair_eq
cached_msg-reset_endpoint key scope id s =
    let left = Dict.keep (λ (k : Scope × Text) r. not (k.0 == key)) s.sync_msg_cache in
    ground (
      arith,
      lookup-msgs_of scope id left,
      lookup-msgs_of scope id s.sync_msg_cache,
      lookup-keep (λ k. not (k.0 == key)) (scope, id) s.sync_msg_cache,
    )
