-- ===== src/Dedup/Missing.antt =====
-- The delta of two indexes.
use imapsync.Base.{
  ◌≡◌, refl, ◌∙◌, Bool, ◌||◌, not, List, [], ◌∷◌, arith, any, contains, filter, list_eq, nat_eq,
}
use imapsync.Base.Text.{Text}
use imapsync.Dedup.{Entry, Input, Index, has, missing_from, missing, build_from}
use imapsync.Dedup.Members.{owned, member-build_from}

-- Two messages share a key.
abbrev pub same_message : Entry → Entry → Bool
same_message e f = any (contains f.keys) e.keys

any-or : (p q : Text → Bool) (ks : List Text) → any (λ k. p k || q k) ks ≡ (any p ks || any q ks)
any-or p q [] = refl
any-or p q (k ∷ ks) = ground (arith, any-or p q ks)

any-owned :
    (ks : List Text) (es : List Entry) → any (owned es) ks ≡ any (λ f. any (contains f.keys) ks) es
any-owned [] [] = refl
any-owned (k ∷ ks) [] = any-owned ks []
any-owned ks (f ∷ es) = any-or (contains f.keys) (owned es) ks ∙ rw (any-owned ks es)

has-build_from_same :
    (inputs : List Input) (ks : List Text)
    → has (build_from inputs) ks ≡ any (owned (build_from inputs).entries) ks
unfolding has
has-build_from_same inputs [] = refl
has-build_from_same inputs (k ∷ ks) =
    ground (arith, member-build_from k inputs, has-build_from_same inputs ks)

missing_from-filter :
    (es : List Entry) (inputs : List Input)
    → missing_from es (build_from inputs)
      ≡ filter (λ e. not (any (same_message e) (build_from inputs).entries)) es
unfolding missing_from
missing_from-filter [] inputs = refl
missing_from-filter (e ∷ es) inputs = ground (
  arith,
  missing_from-filter es inputs,
  has-build_from_same inputs e.keys,
  any-owned e.keys (build_from inputs).entries,
)

-- What is missing on a side are, in their order, exactly the messages of the other side that share
-- no key with any entry of this side's index.
pub missing-build_from :
    (src : Index) (inputs : List Input)
    → missing src (build_from inputs)
      ≡ filter (λ e. not (any (same_message e) (build_from inputs).entries)) src.entries
unfolding missing
missing-build_from src inputs = missing_from-filter src.entries inputs
