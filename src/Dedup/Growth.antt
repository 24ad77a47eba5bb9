-- ===== src/Dedup/Growth.antt =====
-- An index that grows keeps its keys, and covers each message that it is built from.
use imapsync.Base.{
  ◌≡◌, refl, true, List, [], ◌∷◌, ◌++◌, arith, All, contains, Subset, any-Subset, any_of_contains,
  list_eq, nat_eq, Bool-cases, inl, inr,
}
use imapsync.Base.Text.{Text}
use imapsync.Base.Dict
use imapsync.Base.Dict.{Dict}
use imapsync.Dedup.{Input, Index, has, add, add_all, empty, build_from}
use imapsync.Dedup.Members.{member-insert_keys}

member-add_mono :
    (k : Text) (idx : Index) (input : Input)
    → Dict.member k idx.by_key ≡ true
    → Dict.member k (add idx input).by_key ≡ true
unfolding add
member-add_mono k idx input h = elim (Bool-cases (has idx input.keys)) [
  | inl dup ↦ rw dup h
  | inr new ↦ rw (new, member-insert_keys) (ground arith)
]

pub member-add_all_mono :
    (k : Text) (idx : Index) (inputs : List Input)
    → Dict.member k idx.by_key ≡ true
    → Dict.member k (add_all idx inputs).by_key ≡ true
unfolding add_all
member-add_all_mono k idx [] h = h
member-add_all_mono k idx (input ∷ rest) h =
    member-add_all_mono k (add idx input) rest (member-add_mono k idx input h)

-- More keys, or an index that has grown, find at least as much.
pub has-add_all_mono :
    (idx : Index) (inputs : List Input) (ks js : List Text)
    → Subset ks js
    → has idx ks ≡ true
    → has (add_all idx inputs) js ≡ true
unfolding has
has-add_all_mono idx inputs ks js sub h =
    any-Subset (λ k. Dict.member k idx.by_key) (λ k. Dict.member k (add_all idx inputs).by_key) ks
      js (λ k. member-add_all_mono k idx inputs) sub h

-- A message whose keys include `k` is found after its own round.
pub has-add :
    (k : Text) (idx : Index) (input : Input)
    → contains input.keys k ≡ true
    → has (add idx input) input.keys ≡ true
unfolding add has
has-add k idx input m = elim (Bool-cases (has idx input.keys)) [
  | inl dup ↦ rw dup dup
  | inr new ↦
      any_of_contains (λ j. Dict.member j (add idx input).by_key) input.keys k m
        (rw (new, member-insert_keys) (ground arith))
]

abbrev pub HasKey : Input → Type 0
HasKey input = (k : Text) × (contains input.keys k ≡ true)

has-add_all :
    (idx : Index) (inputs : List Input)
    → All HasKey inputs
    → All (λ input. has (add_all idx inputs) input.keys ≡ true) inputs
unfolding add_all
has-add_all idx [] h = tt
has-add_all idx (input ∷ rest) ((k, m), h) = (
  has-add_all_mono (add idx input) rest input.keys input.keys (λ a p. p) (has-add k idx input m),
  has-add_all (add idx input) rest h,
)

-- Every message that the index was built from is found in it, the internal duplicates too.
pub has-build_from :
    (inputs : List Input)
    → All HasKey inputs
    → All (λ input. has (build_from inputs) input.keys ≡ true) inputs
unfolding build_from
has-build_from inputs h = has-add_all empty inputs h

pub add_all-append :
    (idx : Index) (xs ys : List Input) → add_all idx (xs ++ ys) ≡ add_all (add_all idx xs) ys
unfolding add_all
add_all-append idx [] ys = refl
add_all-append idx (x ∷ xs) ys = add_all-append (add idx x) xs ys
