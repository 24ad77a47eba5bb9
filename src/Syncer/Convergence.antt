-- ===== src/Syncer/Convergence.antt =====
-- What a pass and the next one do together: `Delta`, the copies, and the rows that `copyMissing`
-- leaves in the cache.
use imapsync.Base.{
  ◌≡◌, refl, append-nil, any_of_contains, ◌∙◌, true, List, [], ◌∷◌, ◌++◌, arith, All, All-append,
  All-map, Subset, contains, map, list_eq, nat_eq, Bool-cases, inl, inr,
}
use imapsync.Base.Text.{Text}
use imapsync.Base.Dict
use imapsync.Mailbox.Message.{match_keys_from, hash_key}
use imapsync.Mailbox.Message.Keys.{contains-match_keys_from, match_keys_from-surrogate}
use imapsync.Dedup.{
  Entry, Input, Index, entry_of, empty, has, add, add_all, missing_from, missing, build_from,
}
use imapsync.Dedup.Members.{owned, member-build_from}
use imapsync.Dedup.Growth.{has-add_all_mono, has-add, add_all-append}
use imapsync.Syncer.Copy.{cached_copy}
use imapsync.Syncer.Index.{input_of}

-- The input that the next pass reads from the cache for a message that was copied under `name e`.
abbrev pub copies : (Entry → Text) → List Entry → List Input
copies name es = map (λ e. input_of (cached_copy (name e) e)) es

-- The keys of an input are those that its fields give, as `ParseMessage` and the cache set them.
abbrev pub HasOwnKeys : Input → Type 0
HasOwnKeys i = i.keys ≡ match_keys_from i.msg_id i.xhash i.surrogate

-- The same of an entry, which does not keep the hash header.
abbrev CoversCopy : Entry → Type 0
CoversCopy e = Subset (match_keys_from e.msg_id e.surrogate e.surrogate) e.keys

covers :
    (msg_id xhash sur k : Text)
    → contains (match_keys_from msg_id sur sur) k ≡ true
    → contains (match_keys_from msg_id xhash sur) k ≡ true
covers msg_id xhash sur k h =
    ground (
      arith,
      contains-match_keys_from msg_id sur sur k,
      contains-match_keys_from msg_id xhash sur k,
    )

CoversCopy-input : (i : Input) → HasOwnKeys i → CoversCopy (entry_of i)
CoversCopy-input i own k h = rw own (covers i.msg_id i.xhash i.surrogate k h)

All-add :
    (P : Entry → Type 0) (idx : Index) (i : Input)
    → P (entry_of i)
    → All P idx.entries
    → All P (add idx i).entries
unfolding add
All-add P idx i p h = elim (Bool-cases (has idx i.keys)) [
  | inl dup ↦ rw dup h
  | inr new ↦ rw new (All-append P idx.entries (entry_of i ∷ []) h (p, tt))
]

CoversCopy-add_all :
    (idx : Index) (inputs : List Input)
    → All HasOwnKeys inputs
    → All CoversCopy idx.entries
    → All CoversCopy (add_all idx inputs).entries
unfolding add_all
CoversCopy-add_all idx [] h c = c
CoversCopy-add_all idx (i ∷ rest) (own, h) c =
    CoversCopy-add_all (add idx i) rest h (All-add CoversCopy idx i (CoversCopy-input i own) c)

CoversCopy-build_from :
    (inputs : List Input) → All HasOwnKeys inputs → All CoversCopy (build_from inputs).entries
unfolding build_from
CoversCopy-build_from inputs h = CoversCopy-add_all empty inputs h tt

module _ (name : Entry → Text) where
  abbrev copy : Entry → Input
  copy e = input_of (cached_copy (name e) e)

  has-add-copy : (idx : Index) (e : Entry) → has (add idx (copy e)) (copy e).keys ≡ true
  has-add-copy idx e =
      has-add (hash_key e.surrogate) idx (copy e)
        (match_keys_from-surrogate e.msg_id e.surrogate e.surrogate)

  -- All that `es` lacks in `before` is found, once the copies are added to what `before` has.
  missing_from-found :
      (before idx : Index) (es : List Entry)
      → ((ks : List Text) → has before ks ≡ true → has idx ks ≡ true)
      → All CoversCopy es
      → missing_from es (add_all idx (copies name (missing_from es before))) ≡ []
  unfolding missing_from add_all
  missing_from-found before idx [] grown h = refl
  missing_from-found before idx (e ∷ es) grown (sub, h) = elim (Bool-cases (has before e.keys)) [
    | inl there ↦ rw there (
        ground (
          arith,
          missing_from-found before idx es grown h,
          has-add_all_mono idx (copies name (missing_from es before)) e.keys e.keys (λ k m. m)
              (grown e.keys there),
        ))
    | inr lacking ↦ rw lacking (
        ground (
          arith,
          missing_from-found before (add idx (copy e)) es
              (λ ks m. has-add_all_mono idx (copy e ∷ []) ks ks (λ k c. c) (grown ks m)) h,
          has-add_all_mono (add idx (copy e)) (copies name (missing_from es before)) (copy e).keys
              e.keys sub (has-add-copy idx e),
        ))
  ]

  -- When every message that B lacks was copied and the cache names the copies, the next pass finds
  -- nothing that B lacks.
  pub missing_after_copy :
      (inputs_a inputs_b : List Input)
      → All HasOwnKeys inputs_a
      → let a = build_from inputs_a in
        missing a (build_from (inputs_b ++ copies name (missing a (build_from inputs_b)))) ≡ []
  unfolding missing build_from
  missing_after_copy inputs_a inputs_b h =
      let a = build_from inputs_a in
      let b = build_from inputs_b in
      rw (add_all-append empty inputs_b (copies name (missing a b)))
        (missing_from-found b b a.entries (λ ks m. m) (CoversCopy-build_from inputs_a h))

  missing_from-append :
      (es fs : List Entry) (a : Index)
      → missing_from (es ++ fs) a ≡ missing_from es a ++ missing_from fs a
  unfolding missing_from
  missing_from-append [] fs a = refl
  missing_from-append (e ∷ es) fs a = ground (arith, missing_from-append es fs a)

  abbrev Known : Index → Entry → Type 0
  Known a e = has a (copy e).keys ≡ true

  missing_from-add :
      (a idx : Index) (e : Entry)
      → Known a e
      → missing_from (add idx (copy e)).entries a ≡ missing_from idx.entries a
  unfolding add missing_from
  missing_from-add a idx e known = elim (Bool-cases (has idx (copy e).keys)) [
    | inl dup ↦ rw dup refl
    | inr new ↦ rw new (
        missing_from-append idx.entries (entry_of (copy e) ∷ []) a
        ∙ rw known (append-nil (missing_from idx.entries a)))
  ]

  missing_from-copies :
      (a before idx : Index) (es : List Entry)
      → All (Known a) es
      → missing_from (add_all idx (copies name (missing_from es before))).entries a
        ≡ missing_from idx.entries a
  unfolding add_all missing_from
  missing_from-copies a before idx [] h = refl
  missing_from-copies a before idx (e ∷ es) (known, h) = elim (Bool-cases (has before e.keys)) [
    | inl there ↦ rw there (missing_from-copies a before idx es h)
    | inr lacking ↦
        rw lacking
          (missing_from-copies a before (add idx (copy e)) es h ∙ missing_from-add a idx e known)
  ]

  owned_surrogates :
      (es : List Entry) → All CoversCopy es → All (λ e. owned es (hash_key e.surrogate) ≡ true) es
  owned_surrogates [] h = tt
  owned_surrogates (e ∷ es) (sub, h) = (
    ground (
      arith,
      sub (hash_key e.surrogate) (match_keys_from-surrogate e.msg_id e.surrogate e.surrogate),
    ),
    All-map (λ f. owned es (hash_key f.surrogate) ≡ true)
        (λ f. owned (e ∷ es) (hash_key f.surrogate) ≡ true) (λ f o. ground (arith, o)) es
        (owned_surrogates es h),
  )

  Known-of_owned :
      (inputs : List Input) (e : Entry)
      → owned (build_from inputs).entries (hash_key e.surrogate) ≡ true
      → Known (build_from inputs) e
  unfolding has
  Known-of_owned inputs e o =
      any_of_contains (λ k. Dict.member k (build_from inputs).by_key) (copy e).keys
        (hash_key e.surrogate) (match_keys_from-surrogate e.msg_id e.surrogate e.surrogate)
        (member-build_from (hash_key e.surrogate) inputs ∙ o)

  -- The copies on B do not travel back to A: what A lacks of B is the same after them as before.
  pub missing_back :
      (inputs_a inputs_b : List Input)
      → All HasOwnKeys inputs_a
      → let a = build_from inputs_a in
        missing (build_from (inputs_b ++ copies name (missing a (build_from inputs_b)))) a
        ≡ missing (build_from inputs_b) a
  unfolding missing build_from
  missing_back inputs_a inputs_b h =
      let a = build_from inputs_a in
      let b = build_from inputs_b in
      rw (add_all-append empty inputs_b (copies name (missing a b))) (
        missing_from-copies a b b a.entries (
          All-map (λ e. owned a.entries (hash_key e.surrogate) ≡ true) (Known a)
            (Known-of_owned inputs_a) a.entries
            (owned_surrogates a.entries (CoversCopy-build_from inputs_a h))))
