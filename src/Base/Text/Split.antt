-- ===== src/Base/Text/Split.antt =====
-- `strings.Split` and `strings.Join` for a separator of one character, and their round trip.
use imapsync.Base.Equality.{if◌then◌else◌, ◌==◌, nat_eq, list_eq}
use Prim.Native.Nat.{ℕ, zero, suc, ◌-◌}
use mathlib.Core.Path.{◌≡◌, refl, ap, ◌∙◌}
use mathlib.Core.Bool.{false}
use mathlib.Core.List.{List, [], ◌∷◌, ◌++◌}
use native.Mathlib.Omega.{arith}
use imapsync.Base.Text.Search.{has_prefix}
use imapsync.Base.Lists.{length, contains, All}

add_first : ℕ → List (List ℕ) → List (List ℕ)
add_first c [] = (c ∷ []) ∷ []
add_first c (s ∷ ss) = (c ∷ s) ∷ ss

unfoldable pub split : ℕ → List ℕ → List (List ℕ)
unfolding add_first
split sep [] = [] ∷ []
split sep (c ∷ s) = let rest = split sep s in if c == sep then [] ∷ rest else add_first c rest

unfoldable pub join : ℕ → List (List ℕ) → List ℕ
join sep [] = []
join sep (s ∷ []) = s
join sep (s ∷ t ∷ ss) = s ++ (sep ∷ join sep (t ∷ ss))

-- `strings.Join`
unfoldable pub join_seq : List ℕ → List (List ℕ) → List ℕ
join_seq sep [] = []
join_seq sep (s ∷ []) = s
join_seq sep (s ∷ t ∷ ss) = s ++ (sep ++ join_seq sep (t ∷ ss))

split_one : (sep : ℕ) (s : List ℕ) → contains s sep ≡ false → split sep s ≡ s ∷ []
unfolding split
split_one sep [] h = refl
split_one sep (c ∷ s) h = ground (arith, split_one sep s)

pub split-append :
    (sep : ℕ) (s rest : List ℕ)
    → contains s sep ≡ false
    → split sep (s ++ (sep ∷ rest)) ≡ s ∷ split sep rest
unfolding split
split-append sep [] rest h = ground arith
split-append sep (c ∷ s) rest h = ground (arith, split-append sep s rest)

add_first-All :
    (sep c : ℕ) (ss : List (List ℕ))
    → (c == sep) ≡ false
    → All (λ t. contains t sep ≡ false) ss
    → All (λ t. contains t sep ≡ false) (add_first c ss)
unfolding add_first
add_first-All sep c [] other h = (ground (arith, other), tt)
add_first-All sep c (s ∷ ss) other (here, h) = (ground (arith, other, here), h)

-- No part has the separator in it.
pub split-contains : (sep : ℕ) (s : List ℕ) → All (λ t. contains t sep ≡ false) (split sep s)
unfolding split
split-contains sep [] = (refl, tt)
split-contains sep (c ∷ s) = ground (arith, split-contains sep s, add_first-All sep c (split sep s))

-- What is joined is split again, where no part has the separator in it.
pub split-join :
    (sep : ℕ) (s : List ℕ) (ss : List (List ℕ))
    → All (λ t. contains t sep ≡ false) (s ∷ ss)
    → split sep (join sep (s ∷ ss)) ≡ s ∷ ss
unfolding join
split-join sep s [] h = split_one sep s h.0
split-join sep s (t ∷ ss) h =
    split-append sep s (join sep (t ∷ ss)) h.0 ∙ ap (◌∷◌ s) (split-join sep t ss h.1)

-- `bytes.SplitSeq`. While `skip` is not 0 the scan stands inside a separator.
split_from : List ℕ → ℕ → List ℕ → List (List ℕ)
unfolding add_first
split_from sep skip [] = [] ∷ []
split_from sep (suc skip) (c ∷ s) = split_from sep skip s
split_from sep zero (c ∷ s) =
    let past = split_from sep (length sep - 1) s in
    let rest = split_from sep zero s in
    if has_prefix (c ∷ s) sep then [] ∷ past else add_first c rest

unfoldable pub split_seq : List ℕ → List ℕ → List (List ℕ)
unfolding split_from
split_seq sep s = split_from sep 0 s

abbrev crlf : List ℕ
crlf = 13 ∷ 10 ∷ []

-- The text before the first line end is the first line.
pub split_seq-crlf_append :
    (s u : List ℕ)
    → contains s 13 ≡ false
    → split_seq crlf (s ++ (crlf ++ u)) ≡ s ∷ split_seq crlf u
unfolding split_seq has_prefix
split_seq-crlf_append [] u h = refl
split_seq-crlf_append (c ∷ s) u h = ground (arith, split_seq-crlf_append s u)

pub split_seq-crlf_one : (s : List ℕ) → contains s 13 ≡ false → split_seq crlf s ≡ s ∷ []
unfolding split_seq has_prefix
split_seq-crlf_one [] h = refl
split_seq-crlf_one (c ∷ s) h = ground (arith, split_seq-crlf_one s)
