-- ===== src/Store/State/Deletion.antt =====
-- `DeleteCachedMsgs` deletes in batches.
use imapsync.Base.{
  ℕ, zero, suc, ◌+◌, ◌≤◌, ◌≡◌, refl, ◌∙◌, ◌&&◌, ◌||◌, not, none, List, [], ◌∷◌, arith, ◌==◌,
  list_eq, nat_eq, pair_eq, if◌then◌else◌, contains, length, take, drop, length-drop,
}
use imapsync.Base.Text.{Text}
use imapsync.Base.Dict.{lookup-keep}
use imapsync.Base.Result.{ok}
use imapsync.Store.Tables.{Store, Scope}
use imapsync.Store.State.{chunk, delete_rows, delete_batches, delete_cached_msgs}
use imapsync.Store.State.Cache.{cached_msg, lookup-msgs_of}

contains-take :
    (n : ℕ) (ids : List Text) (id : Text)
    → contains ids id ≡ (contains (take n ids) id || contains (drop n ids) id)
contains-take zero ids id = refl
contains-take (suc n) [] id = refl
contains-take (suc n) (i ∷ ids) id = ground (arith, contains-take n ids id)

cached_msg-delete_rows :
    (key scope : Scope) (id : Text) (ids : List Text) (s : Store)
    → cached_msg scope id (record s { sync_msg_cache = delete_rows key ids s.sync_msg_cache })
      ≡ (if scope == key && contains ids id then none else cached_msg scope id s)
unfolding cached_msg delete_rows
cached_msg-delete_rows key scope id ids s =
    let left = delete_rows key ids s.sync_msg_cache in
    ground (
      arith,
      lookup-msgs_of scope id left,
      lookup-msgs_of scope id s.sync_msg_cache,
      lookup-keep (λ k. not (k.0 == key && contains ids k.1)) (scope, id) s.sync_msg_cache,
    )

cached_msg-two_deletions :
    (n : ℕ) (key scope : Scope) (id : Text) (ids : List Text) (s : Store)
    → (if scope == key && contains (drop n ids) id
        then none
        else cached_msg scope id
            (record s { sync_msg_cache = delete_rows key (take n ids) s.sync_msg_cache }))
      ≡ (if scope == key && contains ids id then none else cached_msg scope id s)
cached_msg-two_deletions n key scope id ids s =
    ground (arith, cached_msg-delete_rows key scope id (take n ids) s, contains-take n ids id)

cached_msg-delete_batches :
    (fuel n : ℕ) (key scope : Scope) (id : Text) (ids : List Text) (s : Store)
    → length ids ≤ fuel
    → ((delete_batches fuel (λ i. none) n key ids s).0 ≡ ok tt)
      × (cached_msg scope id (delete_batches fuel (λ i. none) n key ids s).1
          ≡ (if scope == key && contains ids id then none else cached_msg scope id s))
unfolding delete_batches
cached_msg-delete_batches fuel n key scope id [] s h = (refl, ground arith)
cached_msg-delete_batches zero n key scope id (i ∷ ids) s h = absurd (omega arith)
cached_msg-delete_batches (suc fuel) n key scope id (i ∷ ids) s h =
    let s' = record s {
      sync_msg_cache = delete_rows key (take chunk (i ∷ ids)) s.sync_msg_cache;
    } in
    let rest = drop chunk (i ∷ ids) in
    let (done, left) =
      cached_msg-delete_batches fuel (n + 1) key scope id rest s'
        (omega (arith, length-drop 399 ids)) in
    (done, left ∙ cached_msg-two_deletions chunk key scope id (i ∷ ids) s)

-- When no statement fails, deleting succeeds whatever the number of ids, and it takes exactly
-- these ids out of the cache of the one side.
pub cached_msg-delete_cached_msgs :
    (key scope : Scope) (id : Text) (ids : List Text) (s : Store)
    → ((delete_cached_msgs (λ i. none) key ids s).0 ≡ ok tt)
      × (cached_msg scope id (delete_cached_msgs (λ i. none) key ids s).1
          ≡ (if scope == key && contains ids id then none else cached_msg scope id s))
unfolding delete_cached_msgs
cached_msg-delete_cached_msgs key scope id ids s =
    cached_msg-delete_batches (length ids) 0 key scope id ids s (omega arith)
