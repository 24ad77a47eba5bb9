-- ===== src/Store/State/Flags.antt =====
-- The column in which the flags of a message are stored.
use imapsync.Base.{◌≡◌, refl, false, List, [], ◌∷◌, contains, All, nat_eq}
use imapsync.Base.Text.{Text, is_empty}
use imapsync.Base.Text.Split.{join, split-join}
use imapsync.Store.State.{encode_flags, decode_flags}

-- A flag as IMAP knows it: not empty and without a space.
abbrev pub IsFlag : Text → Type 0
IsFlag f = (is_empty f ≡ false) × (contains f b' ' ≡ false)

no_space : (fs : List Text) → All IsFlag fs → All (λ f. contains f b' ' ≡ false) fs
no_space [] h = tt
no_space (f ∷ fs) (h, hs) = (h.1, no_space fs hs)

is_empty-join :
    (f : Text) (fs : List Text) → is_empty f ≡ false → is_empty (join b' ' (f ∷ fs)) ≡ false
unfolding join
is_empty-join [] fs h = cc
is_empty-join (c ∷ f) [] h = refl
is_empty-join (c ∷ f) (g ∷ fs) h = refl

-- Flags that are stored are read back as they were, the empty list included, when none is empty or
-- has a space in it.
pub decode_flags-encode_flags :
    (fs : List Text) → All IsFlag fs → decode_flags (encode_flags fs) ≡ fs
unfolding encode_flags decode_flags join
decode_flags-encode_flags [] h = refl
decode_flags-encode_flags (f ∷ fs) h =
    rw (is_empty-join f fs h.0.0) (split-join b' ' f fs (no_space (f ∷ fs) h))
