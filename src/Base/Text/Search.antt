-- ===== src/Base/Text/Search.antt =====
-- `strings.HasPrefix`
use Prim.Native.Nat.{ℕ}
use mathlib.Core.Path.{◌≡◌, refl}
use mathlib.Core.Bool.{Bool, true, false, ◌&&◌}
use mathlib.Core.List.{List, [], ◌∷◌, ◌++◌}
use native.Mathlib.Omega.{arith}
use imapsync.Base.Equality.{◌==◌, nat_eq}

-- `HasPrefix(s, prefix)`
unfoldable pub has_prefix : List ℕ → List ℕ → Bool
has_prefix s [] = true
has_prefix [] (p ∷ ps) = false
has_prefix (c ∷ s) (p ∷ ps) = c == p && has_prefix s ps

pub has_prefix-append : (s t u : List ℕ) → has_prefix (s ++ t) (s ++ u) ≡ has_prefix t u
unfolding has_prefix
has_prefix-append [] t u = refl
has_prefix-append (c ∷ s) t u = ground (arith, has_prefix-append s t u)

pub has_prefix_self : (s t : List ℕ) → has_prefix (s ++ t) s ≡ true
unfolding has_prefix
has_prefix_self [] t = refl
has_prefix_self (c ∷ s) t = ground (arith, has_prefix_self s t)
