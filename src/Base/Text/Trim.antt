-- ===== src/Base/Text/Trim.antt =====
-- What trimming leaves of a text.
use mathlib.Core.Path.{◌≡◌, refl, ◌∙◌}
use mathlib.Core.Bool.{Bool, not, ◌||◌, ◌&&◌}
use mathlib.Core.List.{[], ◌∷◌, reverse, reverse_aux}
use Prim.Native.Nat.{ℕ}
use native.Mathlib.Omega.{arith}
use imapsync.Base.Lists.{any}
use imapsync.Base.Text.{Text, trim_left, trim, trim_space, is_space, is_empty}

any-reverse_aux :
    (p : ℕ → Bool) (s rest : Text) → any p (reverse_aux s rest) ≡ (any p s || any p rest)
any-reverse_aux p [] rest = refl
any-reverse_aux p (c ∷ s) rest = ground (arith, any-reverse_aux p s (c ∷ rest))

any-reverse : (p : ℕ → Bool) (s : Text) → any p (reverse s) ≡ any p s
any-reverse p s = ground (arith, any-reverse_aux p s [])

any-trim_left :
    (drops : ℕ → Bool) (s : Text)
    → any (λ c. not (drops c)) (trim_left drops s) ≡ any (λ c. not (drops c)) s
unfolding trim_left
any-trim_left drops [] = refl
any-trim_left drops (c ∷ s) = ground (arith, any-trim_left drops s)

is_empty-trim_left :
    (drops : ℕ → Bool) (s : Text) → is_empty (trim_left drops s) ≡ not (any (λ c. not (drops c)) s)
unfolding trim_left
is_empty-trim_left drops [] = refl
is_empty-trim_left drops (c ∷ s) = ground (arith, is_empty-trim_left drops s)

is_empty-reverse : (s : Text) → is_empty (reverse s) ≡ is_empty s
is_empty-reverse s = ground (arith, go s [])
  where
    go : (t rest : Text) → is_empty (reverse_aux t rest) ≡ (is_empty t && is_empty rest)
    go [] rest = refl
    go (c ∷ t) rest = ground (arith, go t (c ∷ rest))

-- A text is trimmed to nothing exactly if it has no character to keep.
is_empty-trim :
    (drops : ℕ → Bool) (s : Text) → is_empty (trim drops s) ≡ not (any (λ c. not (drops c)) s)
unfolding trim
is_empty-trim drops s =
    let kept : ℕ → Bool = λ c. not (drops c) in
    let t = trim_left drops s in
    ground (
      arith,
      is_empty-reverse (trim_left drops (reverse t)),
      is_empty-trim_left drops (reverse t),
      any-reverse kept t,
      any-trim_left drops s,
    )

any-trim :
    (drops : ℕ → Bool) (s : Text)
    → any (λ c. not (drops c)) (trim drops s) ≡ any (λ c. not (drops c)) s
unfolding trim
any-trim drops s =
    let kept : ℕ → Bool = λ c. not (drops c) in
    let t = trim_left drops s in
    any-reverse kept (trim_left drops (reverse t))
    ∙ any-trim_left drops (reverse t)
    ∙ any-reverse kept t
    ∙ any-trim_left drops s

-- What is left after trimming is blank only if it is empty.
pub is_empty-trim_space :
    (s : Text) → is_empty (trim_space (trim_space s)) ≡ is_empty (trim_space s)
unfolding trim_space
is_empty-trim_space s =
    ground
      (arith, is_empty-trim is_space (trim_space s), is_empty-trim is_space s, any-trim is_space s)
