-- ===== src/Syncer/Pair/OneWay.antt =====
-- A side that is read-only, or whose direction is disabled, is only read.
use imapsync.Base.{
  ℕ, ◌+◌, ◌≡◌, refl, Bool, true, false, ◌&&◌, not, Option, none, List, [], ◌∷◌, arith,
}
use imapsync.Base.Int.{ℤ}
use imapsync.Base.Text.{Text, text}
use imapsync.Base.Dict.{Dict}
use imapsync.Base.Sort.{sort, text_leb}
use imapsync.Base.Time.{Time}
use imapsync.Base.Result.{Result, ok, err}
use imapsync.Mailbox.Message.{Mail}
use imapsync.Endpoint.{Endpoint}
use imapsync.Dedup.{Entry, missing, delta}
use imapsync.Config.{FolderPair}
use imapsync.Store.Tables.{Store, Scope}
use imapsync.Store.State.{CachedMsg}
use imapsync.Stats.{UserStats, inc_skipped_dup}
use imapsync.Syncer.Index.{
  Faults, Cache, index_folder, index_folder_full, index_folder_incremental, index_with,
  index_fetched, open_cache, new_ids, asked_for,
}
use imapsync.Syncer.Copy.{
  Context, Copying, copy_one, copy_step, note_copied, poll, copy_loop, copy_missing,
}
use imapsync.Syncer.Pair.{
  Rules, World, Session, Opened, sync_pair, copy_pair, open_pair, index_pair, index_a, index_b,
  copy_a_to_b, copy_b_to_a, post_write, write_back, allow_a_to_b, allow_b_to_a, folder_context,
  scope_of, allowed, b_to_a, entry_context, stop_context, skipped_of,
}

-- What holds of a session's state and survives every read.
pub record Readable (E : Endpoint) (P : E.State → Type 0) : Type 0 where
  pub selecting : (folder : Text) (s : E.State) → P s → P (E.select folder s).1
  pub listing : (s : E.State) → P s → P (E.list_ids s).1
  pub fetching : (ids : Option (List Text)) (s : E.State) → P s → P (E.fetch_meta ids s).1
  pub opening : (id : Text) (s : E.State) → P s → P (E.open_message id s).1

module _ (m : Mail) (hash_header : Text) (E : Endpoint) (P : E.State → Type 0)
    (h : Readable E P) where
  index_full_keeps :
      (context : Text) (s : E.State) (st : Store) (us : UserStats)
      → P s
      → P (index_folder_full m hash_header E context s st us).session
  unfolding index_folder_full
  index_full_keeps context s st us p = ground (arith, h.fetching none s p)

  index_with_keeps :
      (faults : Faults) (now : Time) (context : Text) (key : Scope) (validity : Text)
      (cached : Dict Text CachedMsg) (resync_at : Time) (s : E.State) (st : Store) (us : UserStats)
      → P s
      → P
          (index_with m hash_header E faults now context key validity cached resync_at s st
            us).session
  unfolding index_with index_fetched
  index_with_keeps faults now context key validity cached resync_at s st us p =
      go (E.list_ids s).0 refl
    where
      go :
          (listed : Result (List Text))
          → (E.list_ids s).0 ≡ listed
          → P
              (index_with m hash_header E faults now context key validity cached resync_at s st
                us).session
      go (err why) e = rw (e, index_with) (h.listing s p)
      go (ok ids) e = ground (
        arith,
        e,
        h.fetching (asked_for (new_ids (sort text_leb ids) cached)) (E.list_ids s).1
            (h.listing s p),
      )

  index_folder_keeps :
      (incremental : Bool) (faults : Faults) (now : Time) (every : ℤ) (context : Text) (key : Scope)
      (validity : Text) (s : E.State) (st : Store) (us : UserStats)
      → P s
      → P
          (index_folder m hash_header E incremental faults now every context key validity s st
            us).session
  unfolding index_folder index_folder_incremental
  index_folder_keeps false faults now every context key validity s st us p =
      index_full_keeps context s st us p
  index_folder_keeps true faults now every context key validity s st us p =
      go (open_cache faults now every key validity st).0 refl
    where
      go :
          (opened : Result Cache)
          → (open_cache faults now every key validity st).0 ≡ opened
          → P
              (index_folder m hash_header E true faults now every context key validity s st
                us).session
      go (err why) e = rw (e, index_folder, index_folder_incremental) p
      go (ok cache) e =
          rw (e, index_folder, index_folder_incremental)
            (index_with_keeps faults now context key validity cache.0 cache.1 s
              (open_cache faults now every key validity st).1 us p)

module _ (m : Mail) (hash_header : Text) (Src Dst : Endpoint) (P : Src.State → Type 0)
    (h : Readable Src P) (ctx : Context) (incremental : Bool) (place : Entry → Text)
    (interrupted : Text) where
  copy_step_keeps :
      (e : Entry) (c : Copying m hash_header Src Dst)
      → P c.src
      → P (copy_step m hash_header Src Dst incremental place e c).src
  unfolding copy_step copy_one note_copied
  copy_step_keeps e c p = ground (arith, h.opening e.id c.src p)

  copy_loop_keeps :
      (i : ℕ) (es : List Entry) (c : Copying m hash_header Src Dst)
      → P c.src
      → P (copy_loop m hash_header Src Dst ctx incremental place interrupted i es c).src
  unfolding copy_loop poll
  copy_loop_keeps i [] c p = p
  copy_loop_keeps i (e ∷ es) c p = ground (
    arith,
    copy_loop_keeps (i + 1) es (copy_step m hash_header Src Dst incremental place e c)
        (copy_step_keeps e c p),
    copy_loop_keeps (i + 1) es
        (copy_step m hash_header Src Dst incremental place e (record c { polls = c.polls + 1 }))
        (copy_step_keeps e (record c { polls = c.polls + 1 }) p),
  )

module _ (r : Rules) (A B : Endpoint) (P : B.State → Type 0) (h : Readable B P) where
  index_b_keeps :
      (w : World) (user : Text) (fp : FolderPair) (folder validity : Text) (s : Session r A B)
      → P s.b
      → P (index_b r A B w user fp folder validity s).1.b
  unfolding index_b
  index_b_keeps w user fp folder validity s p =
      index_folder_keeps r.mail r.hash_header B P h r.incremental w.faults_b w.now
        r.full_resync_every (folder_context r A B user (text "b") folder)
        (scope_of r A B user fp (text "b")) validity s.b s.store s.us p

  index_pair_keeps :
      (w : World) (user : Text) (fp : FolderPair) (fa fb : Text × Text) (s : Session r A B)
      → P s.b
      → P (index_pair r A B w user fp fa fb s).1.b
  unfolding index_pair index_a
  index_pair_keeps w user fp (folder_a, valid_a) (folder_b, valid_b) s p = ground (
    arith,
    index_b_keeps w user fp folder_b valid_b (index_a r A B w user fp folder_a valid_a s).1 p,
  )

  open_pair_keeps :
      (w : World) (user : Text) (fp : FolderPair) (s : Session r A B)
      → P s.b
      → P (open_pair r A B w user fp s).1.b
  unfolding open_pair
  open_pair_keeps w user fp s p = go (A.select fp.a s.a).0 refl (B.select fp.b s.b).0 refl
    where
      go :
          (x : Result (Text × Text))
          → (A.select fp.a s.a).0 ≡ x
          → (y : Result (Text × Text)) → (B.select fp.b s.b).0 ≡ y
          → P (open_pair r A B w user fp s).1.b
      go (err why) e y f = rw (e, open_pair) p
      go (ok fa) e (err why) f = rw (e, f, open_pair) (h.selecting fp.b s.b p)
      go (ok fa) e (ok fb) f =
          rw (e, f, open_pair)
            (index_pair_keeps w user fp fa fb
              (record s { a = (A.select fp.a s.a).1; b = (B.select fp.b s.b).1 })
              (h.selecting fp.b s.b p))

  copy_b_to_a_keeps :
      (w : World) (user : Text) (o : Opened r A B) (entries : List Entry) (s : Session r A B)
      → P s.b
      → P (copy_b_to_a r A B w user o entries s).1.b
  unfolding copy_b_to_a copy_missing
  copy_b_to_a_keeps w user o entries s p =
      copy_loop_keeps r.mail r.hash_header B A P h w.ctx r.incremental
        (entry_context r A B user b_to_a o.folder_b o.folder_a)
        (stop_context r A B user b_to_a o.folder_b) 0 entries
        (record { src = s.b; dst = s.a; us = s.us; polls = s.polls; n = 0; cache = [] }) p

  copy_a_to_b_keeps :
      allow_a_to_b r A B ≡ false
      → (w : World) (user : Text) (o : Opened r A B) (entries : List Entry) (s : Session r A B)
      → P s.b
      → P (copy_a_to_b r A B w user o (allowed r A B (allow_a_to_b r A B) entries) s).1.b
  unfolding copy_a_to_b copy_missing copy_loop
  copy_a_to_b_keeps off w user o entries s p = rw (off, allowed) p

  write_back_keeps :
      (w : World) (user : Text) (fp : FolderPair) (o : Opened r A B)
      (cache_a cache_b : List CachedMsg) (s : Session r A B)
      → P s.b
      → P (write_back r A B w user fp o cache_a cache_b s).b
  unfolding write_back post_write
  write_back_keeps w user fp o cache_a cache_b s p = ground arith

  copy_pair_keeps :
      allow_a_to_b r A B ≡ false
      → (w : World) (user : Text) (fp : FolderPair) (o : Opened r A B) (s : Session r A B) → P s.b
      → P (copy_pair r A B w user fp o s).b
  unfolding copy_pair delta
  copy_pair_keeps off w user fp o s p =
      let x =
        copy_a_to_b r A B w user o (allowed r A B (allow_a_to_b r A B) (missing o.idx_a o.idx_b))
          (record s { us = inc_skipped_dup (skipped_of r A B o) s.us }) in
      let y =
        copy_b_to_a r A B w user o (allowed r A B (allow_b_to_a r A B) (missing o.idx_b o.idx_a))
          x.1 in
      write_back_keeps w user fp o y.0 x.0 y.1 (
        copy_b_to_a_keeps w user o (allowed r A B (allow_b_to_a r A B) (missing o.idx_b o.idx_a))
          x.1
          (copy_a_to_b_keeps off w user o (missing o.idx_a o.idx_b)
            (record s { us = inc_skipped_dup (skipped_of r A B o) s.us }) p))

  -- Whatever the reads of B keep is kept by a whole pass over a pair, its errors included, when the
  -- configuration does not allow the direction A to B or B is read-only: `Append` is not called.
  pub sync_pair_one_way :
      (r.dir_a_to_b && not B.read_only ≡ false)
      → (w : World) (user : Text) (fp : FolderPair) (s : Session r A B) → P s.b
      → P (sync_pair r A B w user fp s).1.b
  unfolding sync_pair
  sync_pair_one_way off w user fp s p = go (open_pair r A B w user fp s).0 refl
    where
      go :
          (x : Result (Opened r A B))
          → (open_pair r A B w user fp s).0 ≡ x
          → P (sync_pair r A B w user fp s).1.b
      go (err why) e = rw (e, sync_pair) (open_pair_keeps w user fp s p)
      go (ok o) e =
          rw (e, sync_pair)
            (copy_pair_keeps off w user fp o (open_pair r A B w user fp s).1
              (open_pair_keeps w user fp s p))
