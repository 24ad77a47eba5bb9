-- ===== src/Syncer/Pair.antt =====
-- `syncPair` of internal/syncer/syncer.go: one folder pair, in both directions.
pub mod OneWay
use imapsync.Base.{
  ℕ, zero, suc, ◌+◌, ◌-◌, Bool, true, false, ◌&&◌, ◌||◌, not, Option, none, some, List, [], ◌∷◌,
  ◌++◌, ◌==◌, list_eq, nat_eq, if◌then◌else◌, length,
}
use imapsync.Base.Int.{ℤ}
use imapsync.Base.Text.{Text, text}
use imapsync.Base.Time.{Time}
use imapsync.Base.Result.{Error, Result, ok, err, wrap}
use imapsync.Mailbox.Message.{Mail}
use imapsync.Endpoint.{Endpoint}
use imapsync.Dedup.{Entry, Index, len, missing, delta}
use imapsync.Config.{FolderPair}
use imapsync.Store.Tables.{Store, Scope}
use imapsync.Store.State.{CachedMsg, pair_key, put_cached_msgs}
use imapsync.Stats.{UserStats, add_error, inc_skipped_dup, inc_copied_a_to_b, inc_copied_b_to_a}
use imapsync.Syncer.Index.{Faults, Indexed, index_folder}
use imapsync.Syncer.Copy.{Context, Copying, copy_missing}

-- What a syncer was started with; `quote` is `%q`.
pub record Rules : Type 0 where
  pub mail : Mail
  pub hash_header : Text
  pub dir_a_to_b : Bool
  pub dir_b_to_a : Bool
  pub incremental : Bool
  pub full_resync_every : ℤ
  pub quote : Text → Text

-- What the world does during one pass over a pair: the clock, the context, and the errors of the
-- statements on the database.
pub record World : Type 0 where
  pub now : Time
  pub ctx : Context
  pub faults_a : Faults
  pub faults_b : Faults
  pub post_a : Option Error
  pub post_b : Option Error

abbrev pub a_to_b : Text
a_to_b = text "A->B"

abbrev pub b_to_a : Text
b_to_a = text "B->A"

module _ (r : Rules) (A B : Endpoint) where
  -- What a session holds: both endpoints, the counters, the database, and how often the context
  -- was asked.
  pub record Session : Type 0 where
    pub a : A.State
    pub b : B.State
    pub store : Store
    pub us : UserStats
    pub polls : ℕ

  abbrev pub folder_context : Text → Text → Text → Text
  folder_context user side folder =
      text "user "
      ++ (user ++ (text ", folder " ++ (side ++ (text " " ++ (r.quote folder ++ text ": ")))))

  abbrev pub scope_of : Text → FolderPair → Text → Scope
  scope_of user fp side = (user, (pair_key fp.a fp.b, side))

  -- `indexFolder` on side A, and on side B.
  unfoldable pub index_a :
      World → Text → FolderPair → Text → Text → Session → Result Index × Session
  unfolding index_folder
  index_a w user fp folder validity s =
      let i =
        index_folder r.mail r.hash_header A r.incremental w.faults_a w.now r.full_resync_every
          (folder_context user (text "a") folder) (scope_of user fp (text "a")) validity s.a s.store
          s.us in
      (i.outcome, record s { a = i.session; store = i.store; us = i.us })

  unfoldable pub index_b :
      World → Text → FolderPair → Text → Text → Session → Result Index × Session
  unfolding index_folder
  index_b w user fp folder validity s =
      let i =
        index_folder r.mail r.hash_header B r.incremental w.faults_b w.now r.full_resync_every
          (folder_context user (text "b") folder) (scope_of user fp (text "b")) validity s.b s.store
          s.us in
      (i.outcome, record s { b = i.session; store = i.store; us = i.us })

  -- What is known of a pair when nothing was copied yet.
  pub record Opened : Type 0 where
    pub folder_a : Text
    pub folder_b : Text
    pub idx_a : Index
    pub idx_b : Index

  -- Both folders are indexed, the first that fails ends the pair.
  unfoldable pub index_pair :
      World → Text → FolderPair → Text × Text → Text × Text → Session → Result Opened × Session
  unfolding index_a index_b
  index_pair w user fp (folder_a, valid_a) (folder_b, valid_b) s =
      let (ia, s1) = index_a w user fp folder_a valid_a s in
      elim ia [
        | err why ↦ (err why, s1)
        | ok idx_a ↦
            let (ib, s2) = index_b w user fp folder_b valid_b s1 in
            elim ib [
              | err why ↦ (err why, s2)
              | ok idx_b ↦ (
                ok (record {
                  folder_a = folder_a;
                  folder_b = folder_b;
                  idx_a = idx_a;
                  idx_b = idx_b;
                }),
                s2,
              )
            ]
      ]

  -- Both folders are selected, then indexed.
  unfoldable pub open_pair : World → Text → FolderPair → Session → Result Opened × Session
  unfolding index_pair
  open_pair w user fp s =
      let (selected_a, a') = A.select fp.a s.a in
      let s1 : Session = record s { a = a' } in
      elim selected_a [
        | err why ↦ (err (wrap (folder_context user (text "A") fp.a) why), s1)
        | ok fa ↦
            let (selected_b, b') = B.select fp.b s.b in
            let s2 : Session = record s1 { b = b' } in
            elim selected_b [
              | err why ↦ (err (wrap (folder_context user (text "B") fp.b) why), s2)
              | ok fb ↦ index_pair w user fp fa fb s2
            ]
      ]

  abbrev pub skipped_of : Opened → ℕ
  skipped_of o =
      (len o.idx_a - length (missing o.idx_a o.idx_b))
      + (len o.idx_b - length (missing o.idx_b o.idx_a))

  -- A direction is done only if the config allows it and its target is writable.
  abbrev pub allow_a_to_b : Bool
  allow_a_to_b = r.dir_a_to_b && not B.read_only

  abbrev pub allow_b_to_a : Bool
  allow_b_to_a = r.dir_b_to_a && not A.read_only

  abbrev pub allowed : Bool → List Entry → List Entry
  allowed allow entries = if allow then entries else []

  abbrev pub entry_context : Text → Text → Text → Text → Entry → Text
  entry_context user dir from to e =
      text "user "
      ++ (user
          ++ (text ", "
              ++ (dir
                  ++ (text " ("
                      ++ (r.quote from
                          ++ (text " -> "
                              ++ (r.quote to ++ (text "), id=" ++ (e.id ++ text ": ")))))))))

  abbrev pub stop_context : Text → Text → Text → Text
  stop_context user dir from =
      text "user "
      ++ (user ++ (text ", " ++ (dir ++ (text " (" ++ (r.quote from ++ text "): interrupted: ")))))

  -- The copies from A to B, and the rows for B's cache.
  unfoldable pub copy_a_to_b :
      World → Text → Opened → List Entry → Session → List CachedMsg × Session
  unfolding copy_missing
  copy_a_to_b w user o entries s =
      let c =
        copy_missing r.mail r.hash_header A B w.ctx r.incremental
          (entry_context user a_to_b o.folder_a o.folder_b) (stop_context user a_to_b o.folder_a)
          entries s.a s.b s.us s.polls in
      (c.cache, record s { a = c.src; b = c.dst; us = inc_copied_a_to_b c.n c.us; polls = c.polls })

  unfoldable pub copy_b_to_a :
      World → Text → Opened → List Entry → Session → List CachedMsg × Session
  unfolding copy_missing
  copy_b_to_a w user o entries s =
      let c =
        copy_missing r.mail r.hash_header B A w.ctx r.incremental
          (entry_context user b_to_a o.folder_b o.folder_a) (stop_context user b_to_a o.folder_b)
          entries s.b s.a s.us s.polls in
      (c.cache, record s { b = c.src; a = c.dst; us = inc_copied_b_to_a c.n c.us; polls = c.polls })

  -- The rows of the copies go into the cache of the side that they were copied to.
  unfoldable pub post_write : Option Error → Text → Scope → List CachedMsg → Session → Session
  post_write fault context key rows s =
      let (done, st) = put_cached_msgs fault key rows s.store in
      if r.incremental
      then elim done [
        | ok _ ↦ record s { store = st }
        | err why ↦ record s { store = st; us = add_error (wrap context why) s.us }
      ]
      else s

  unfoldable pub write_back :
      World → Text → FolderPair → Opened → List CachedMsg → List CachedMsg → Session → Session
  unfolding post_write
  write_back w user fp o cache_a cache_b s =
      let context = λ (side : Text) (folder : Text).
        folder_context user side folder ++ text "post-write to cache: " in
      post_write w.post_a (context (text "A") o.folder_a) (scope_of user fp (text "a")) cache_a (
        post_write w.post_b (context (text "B") o.folder_b) (scope_of user fp (text "b")) cache_b s)

  -- Both deltas are taken before anything is copied.
  unfoldable pub copy_pair : World → Text → FolderPair → Opened → Session → Session
  unfolding write_back delta
  copy_pair w user fp o s =
      let (missing_on_b, missing_on_a) = delta o.idx_a o.idx_b in
      let s0 : Session = record s { us = inc_skipped_dup (skipped_of o) s.us } in
      let (cache_b, s1) = copy_a_to_b w user o (allowed allow_a_to_b missing_on_b) s0 in
      let (cache_a, s2) = copy_b_to_a w user o (allowed allow_b_to_a missing_on_a) s1 in
      write_back w user fp o cache_a cache_b s2

  unfoldable pub sync_pair : World → Text → FolderPair → Session → Option Error × Session
  unfolding open_pair copy_pair
  sync_pair w user fp s =
      let (opened, s') = open_pair w user fp s in
      elim opened [ err why ↦ (some why, s') | ok o ↦ (none, copy_pair w user fp o s') ]
