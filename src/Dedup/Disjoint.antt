-- ===== src/Dedup/Disjoint.antt =====
-- No two entries of an index share a key.
use imapsync.Base.{
  ◌≡◌, refl, ◌∙◌, sym, false, List, [], ◌∷◌, ◌++◌, arith, any, list_eq, nat_eq, Bool-cases, inl,
  inr,
}
use imapsync.Base.Text.{Text}
use imapsync.Base.Dict
use imapsync.Base.Dict.{Dict}
use imapsync.Dedup.{Entry, Input, Index, has, add, add_all, empty, build_from, entry_of}
use imapsync.Dedup.Members.{owned, member-add}

-- The keys of each entry are free of those of the entries before it.
pub data AreDisjoint : List Entry → Type 0 where
  none_yet : AreDisjoint []
  one_more :
      {es : List Entry} (e : Entry)
      → AreDisjoint es
      → any (owned es) e.keys ≡ false
      → AreDisjoint (es ++ (e ∷ []))

has-owned :
    (idx : Index) (ks : List Text)
    → ((k : Text) → Dict.member k idx.by_key ≡ owned idx.entries k)
    → has idx ks ≡ any (owned idx.entries) ks
unfolding has
has-owned idx [] h = refl
has-owned idx (k ∷ ks) h = ground (arith, h k, has-owned idx ks h)

AreDisjoint-add :
    (idx : Index) (input : Input)
    → ((k : Text) → Dict.member k idx.by_key ≡ owned idx.entries k)
    → AreDisjoint idx.entries
    → AreDisjoint (add idx input).entries
unfolding add
AreDisjoint-add idx input h d = elim (Bool-cases (has idx input.keys)) [
  | inl dup ↦ rw dup d
  | inr new ↦ rw new (one_more (entry_of input) d (sym (has-owned idx input.keys h) ∙ new))
]

AreDisjoint-add_all :
    (idx : Index) (inputs : List Input)
    → ((k : Text) → Dict.member k idx.by_key ≡ owned idx.entries k)
    → AreDisjoint idx.entries
    → AreDisjoint (add_all idx inputs).entries
unfolding add_all
AreDisjoint-add_all idx [] h d = d
AreDisjoint-add_all idx (input ∷ rest) h d =
    AreDisjoint-add_all (add idx input) rest (λ k. member-add k idx input (h k))
      (AreDisjoint-add idx input h d)

-- The entries of an index are pairwise distinct messages: none shares a key with an earlier one.
pub AreDisjoint-build_from : (inputs : List Input) → AreDisjoint (build_from inputs).entries
unfolding build_from Dict.member Dict.lookup
AreDisjoint-build_from inputs = AreDisjoint-add_all empty inputs (λ k. refl) none_yet
