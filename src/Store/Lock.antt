-- ===== src/Store/Lock.antt =====
-- `OpenExclusive` of internal/store/lock.go and `Close` of internal/store/store.go: the lock file
-- beside the database, which the daemon holds as long as its store is open.
use imapsync.Base.{
  ◌≡◌, refl, Bool, true, false, ◌&&◌, ◌||◌, not, Option, none, some, List, [], ◌∷◌, ◌++◌, arith,
  filter, ◌==◌, eq_iff, eq_refl, list_eq, nat_eq, contains, IsDistinct, take, length, length-append,
  contains-filter, ap, sym, ◌∙◌, Bool-cases, inl, inr,
}
use imapsync.Base.Text.{Text, text}
use imapsync.Base.Result.{Error, Result, ok, err, wrap}

-- `flock(2)` with LOCK_EX|LOCK_NB and with LOCK_UN, each call on a descriptor of its own: a lock is
-- given exactly if no other descriptor holds it.
pub record Flock : Type 1 where
  pub Files : Type 0
  pub held : Text → Files → Bool
  pub lock : Text → Files → Result (Unit {0}) × Files
  pub unlock : Text → Files → Files
  pub lock_grants : (p : Text) (fs : Files) → held p fs ≡ false → (lock p fs).0 ≡ ok tt
  pub lock_refuses :
      (p : Text) (fs : Files)
      → held p fs ≡ true
      → (e : Error) × ((lock p fs).0 ≡ err e) × ((lock p fs).1 ≡ fs)
  pub lock_held :
      (p q : Text) (fs : Files) → held p fs ≡ false → held q (lock p fs).1 ≡ (q == p || held q fs)
  pub unlock_held : (p q : Text) (fs : Files) → held q (unlock p fs) ≡ (not (q == p) && held q fs)

abbrev pub lock_path : Text → Text
lock_path path = path ++ text ".lock"

-- An open store: `lock` is the lock file that it holds, `none` after `Open`.
pub record Handle : Type 0 where
  pub path : Text
  pub lock : Option Text

take_append : (xs ys : Text) → take (length xs) (xs ++ ys) ≡ xs
take_append [] ys = refl
take_append (x ∷ xs) ys = ap (◌∷◌ x) (take_append xs ys)

append_cancel : (xs ys zs : Text) → xs ++ zs ≡ ys ++ zs → xs ≡ ys
append_cancel xs ys zs h =
    let same : length xs ≡ length ys =
      omega (arith, length-append xs zs, length-append ys zs, ap length h) in
    sym (take_append xs zs)
    ∙ ap (take (length xs)) h
    ∙ ap (λ n. take n (ys ++ zs)) same
    ∙ take_append ys zs

IsDistinct-filter : (p : Text → Bool) (xs : List Text) → IsDistinct xs → IsDistinct (filter p xs)
IsDistinct-filter p [] d = tt
IsDistinct-filter p (x ∷ xs) (fresh, d) =
    ground (arith, contains-filter p xs x, IsDistinct-filter p xs d)

module _ (F : Flock) where
  -- `creating` is the error of opening the lock file, `opening` what `Open` reports.
  unfoldable pub open_exclusive :
      Option Error → Option Error → Text → F.Files → Result Handle × F.Files
  open_exclusive (some e) opening path fs =
      (err (wrap (text "creating lock file " ++ (path ++ text ".lock: ")) e), fs)
  open_exclusive none opening path fs =
      let (locked, fs') = F.lock (lock_path path) fs in
      elim locked [
        | err e ↦ (
          err (wrap (text "DB " ++ (path ++ text " is already in use by another process: ")) e),
          fs',
        )
        | ok _ ↦ elim opening [
          | some e ↦ (err e, F.unlock (lock_path path) fs')
          | none ↦ (ok (record { path = path; lock = some (lock_path path) }), fs')
        ]
      ]

  -- Whatever closing the database reports, the lock is released, and a second call releases none.
  unfoldable pub close : Option Error → Handle → F.Files → (Result (Unit {0}) × Handle) × F.Files
  close fault h fs =
      let outcome : Result (Unit {0}) = elim fault [ none ↦ ok tt | some e ↦ err e ] in
      elim h.lock [
        | none ↦ ((outcome, h), fs)
        | some p ↦ ((outcome, record h { lock = none }), F.unlock p fs)
      ]

  -- The stores that are open, over all processes, and the lock files.
  pub record Host : Type 0 where
    pub stores : List Text  -- their paths
    pub files : F.Files

  -- The store is among those that are open from the call that gives it on.
  abbrev pub opened : Result Handle × F.Files → List Text → Host
  opened (ok h, fs) stores = record { stores = h.path ∷ stores; files = fs }
  opened (err e, fs) stores = record { stores = stores; files = fs }

  abbrev without : Text → List Text → List Text
  without path stores = filter (λ p. not (p == path)) stores

  pub data LockStep : Host → Host → Type 0 where
    opens :
        (creating opening : Option Error) (path : Text) (h : Host)
        → LockStep h (opened (open_exclusive creating opening path h.files) h.stores)
    closes :
        (fault : Option Error) (path : Text) (h : Host)
        → contains h.stores path ≡ true
        → LockStep h (record {
          stores = without path h.stores;
          files = (close fault (record { path = path; lock = some (lock_path path) }) h.files).1;
        })

  pub data Reachable : Host → Type 0 where
    start : (fs : F.Files) → Reachable (record { stores = []; files = fs })
    next : {h h' : Host} → Reachable h → LockStep h h' → Reachable h'

  -- No two stores are open on one database, and the lock of each open store is held.
  abbrev pub IsExclusive : Host → Type 0
  IsExclusive h =
      IsDistinct h.stores
      × ((p : Text) → contains h.stores p ≡ true → F.held (lock_path p) h.files ≡ true)

  -- Opening fails and leaves the locks of the open stores, or takes a lock that no store had.
  opened-IsExclusive :
      (creating opening : Option Error) (path : Text) (h : Host)
      → IsExclusive h
      → IsExclusive (opened (open_exclusive creating opening path h.files) h.stores)
  unfolding open_exclusive
  opened-IsExclusive (some e) opening path h exclusive = exclusive
  opened-IsExclusive none opening path h (distinct, locked) =
      elim (Bool-cases (F.held (lock_path path) h.files)) [
        | inl taken ↦
            let (e, refused, same) = F.lock_refuses (lock_path path) h.files taken in
            rw (open_exclusive, refused, same) (distinct, locked)
        | inr free ↦
            rw (open_exclusive, F.lock_grants (lock_path path) h.files free) (go opening free)
      ]
    where
      fs : F.Files
      fs = (F.lock (lock_path path) h.files).1

      go :
          (o : Option Error)
          → F.held (lock_path path) h.files ≡ false
          → IsExclusive (
              opened
                (elim o as (λ _. Result Handle × F.Files) [
                  | some e ↦ (err e, F.unlock (lock_path path) fs)
                  | none ↦ (ok (record { path = path; lock = some (lock_path path) }), fs)
                ])
                h.stores)
      go (some e) free = (
        distinct,
        λ p open'. ground (
          arith,
          locked p open',
          F.unlock_held (lock_path path) (lock_path p) fs,
          F.lock_held (lock_path path) (lock_path p) h.files free,
          eq_iff (lock_path p) (lock_path path),
        ),
      )
      go none free = (
        (ground (arith, locked path), distinct),
        λ p open'. ground (
          arith,
          locked p,
          eq_iff p path,
          eq_refl (lock_path p),
          F.lock_held (lock_path path) (lock_path p) h.files free,
        ),
      )

  closed-IsExclusive :
      (path : Text) (h : Host)
      → IsExclusive h
      → IsExclusive
          (record { stores = without path h.stores; files = F.unlock (lock_path path) h.files })
  closed-IsExclusive path h (distinct, locked) = (
    IsDistinct-filter (λ p. not (p == path)) h.stores distinct,
    λ p open'. ground (
      arith,
      contains-filter (λ p. not (p == path)) h.stores p,
      locked p,
      eq_iff p path,
      eq_iff (lock_path p) (lock_path path),
      append_cancel p path (text ".lock"),
      F.unlock_held (lock_path path) (lock_path p) h.files,
    ),
  )

  LockStep-IsExclusive : {h h' : Host} → LockStep h h' → IsExclusive h → IsExclusive h'
  unfolding close
  LockStep-IsExclusive (LockStep.opens creating opening path h) exclusive =
      opened-IsExclusive creating opening path h exclusive
  LockStep-IsExclusive (LockStep.closes fault path h open') exclusive =
      closed-IsExclusive path h exclusive

  -- Whatever processes open and close a database exclusively, in whatever order, and whichever of
  -- their calls fail: no two stores are open on one path at a time, and each that is open holds
  -- its lock.
  pub Reachable-IsExclusive : {h : Host} → Reachable h → IsExclusive h
  Reachable-IsExclusive (Reachable.start fs) = (tt, λ p h. absurd (ground arith))
  Reachable-IsExclusive (Reachable.next before step) =
      LockStep-IsExclusive step (Reachable-IsExclusive before)
