-- ===== src/Dedup/Members.antt =====
-- The keys of an index are those of its entries, and what an index has is never lost.
use imapsync.Base.{
  ◌+◌, ◌≡◌, refl, Bool, ◌||◌, List, [], ◌∷◌, arith, eq_comm, any, any-append, contains, list_eq,
  nat_eq, length, length-append, Bool-cases, inl, inr,
}
use imapsync.Base.Text.{Text}
use imapsync.Base.Dict
use imapsync.Base.Dict.{Dict, member-insert}
use imapsync.Dedup.{
  Entry, Input, Index, has, add, add_all, insert_keys, empty, build_from, entry_of, len,
}

pub member-insert_keys :
    (k : Text) (ks : List Text) (e : Entry) (d : Dict Text Entry)
    → Dict.member k (insert_keys ks e d) ≡ (contains ks k || Dict.member k d)
unfolding insert_keys
member-insert_keys k [] e d = refl
member-insert_keys k (j ∷ ks) e d =
    ground
      (arith, member-insert_keys k ks e (Dict.insert j e d), member-insert j k e d, eq_comm j k)

-- Some entry has the key.
abbrev pub owned : List Entry → Text → Bool
owned entries k = any (λ e. contains e.keys k) entries

module _ (k : Text) where
  pub member-add :
      (idx : Index) (input : Input)
      → Dict.member k idx.by_key ≡ owned idx.entries k
      → Dict.member k (add idx input).by_key ≡ owned (add idx input).entries k
  unfolding add
  member-add idx input h = elim (Bool-cases (has idx input.keys)) [
    | inl dup ↦ rw dup h
    | inr new ↦ rw (new, member-insert_keys, any-append) (ground arith)
  ]

  member-add_all :
      (idx : Index) (inputs : List Input)
      → Dict.member k idx.by_key ≡ owned idx.entries k
      → Dict.member k (add_all idx inputs).by_key ≡ owned (add_all idx inputs).entries k
  unfolding add_all
  member-add_all idx [] h = h
  member-add_all idx (input ∷ rest) h = member-add_all (add idx input) rest (member-add idx input h)

-- A key leads to a message exactly when an entry of the index has it among its keys.
pub member-build_from :
    (k : Text) (inputs : List Input)
    → Dict.member k (build_from inputs).by_key ≡ owned (build_from inputs).entries k
unfolding build_from Dict.member Dict.lookup
member-build_from k inputs = member-add_all k empty inputs refl

len-add :
    (idx : Index) (input : Input)
    → len (add idx input) + (add idx input).dups ≡ len idx + idx.dups + 1
unfolding add
len-add idx input = ground (arith, length-append idx.entries (entry_of input ∷ []))

len-add_all :
    (idx : Index) (inputs : List Input)
    → len (add_all idx inputs) + (add_all idx inputs).dups ≡ len idx + idx.dups + length inputs
unfolding add_all
len-add_all idx [] = omega arith
len-add_all idx (input ∷ rest) = omega (arith, len-add_all (add idx input) rest, len-add idx input)

-- Every message is counted once: as an entry or as an internal duplicate.
pub len-build_from :
    (inputs : List Input) → len (build_from inputs) + (build_from inputs).dups ≡ length inputs
unfolding build_from
len-build_from inputs = omega (arith, len-add_all empty inputs)
