-- ===== src/Base/Text.antt =====
-- Go's strings and byte slices as lists of character codes, and the functions of the packages
-- `strings` and `bytes` that the program calls.
mod Search
pub mod Split
pub mod Trim
unfoldable pub use Search.{has_prefix}
pub use Search.{has_prefix-append, has_prefix_self}
use Prim.Native.Char.{code}
use Prim.Native.String.{String}
use Prim.Native.Nat.{ℕ, zero, suc, ◌-◌}
use mathlib.Core.Bool.{Bool, true, false, ◌&&◌, ◌||◌}
use mathlib.Core.Option
use mathlib.Core.Option.{Option, none, some}
use mathlib.Core.List.{List, [], ◌∷◌, ◌++◌, reverse, map}
use imapsync.Base.Equality.{if◌then◌else◌, ◌==◌, leb, nat_eq, list_eq}
use imapsync.Base.Lists.{length, take, drop}
pub use imapsync.Base.Lists.{take, drop}

abbrev pub Text : Type 0
Text = List ℕ

abbrev pub text : String → Text
text String.[] = []
text (String.◌∷◌ c s) = code c ∷ text s

unfoldable pub trim_prefix : Text → Text → Text
trim_prefix s prefix = if has_prefix s prefix then drop (length prefix) s else s

unfoldable pub has_suffix : Text → Text → Bool
unfolding has_prefix
has_suffix s suffix = has_prefix (reverse s) (reverse suffix)

unfoldable pub trim_suffix : Text → Text → Text
unfolding has_suffix
trim_suffix s suffix = if has_suffix s suffix then take (length s - length suffix) s else s

-- `unicode.IsSpace` of an ASCII byte; white space of several bytes is not known to the model.
unfoldable pub is_space : ℕ → Bool
is_space c = leb 9 c && leb c 13 || c == 0x20

-- `TrimLeftFunc`
unfoldable pub trim_left : (ℕ → Bool) → Text → Text
trim_left drops [] = []
trim_left drops (c ∷ s) = let rest = trim_left drops s in if drops c then rest else c ∷ s

-- `TrimFunc`
unfoldable pub trim : (ℕ → Bool) → Text → Text
unfolding trim_left
trim drops s = reverse (trim_left drops (reverse (trim_left drops s)))

unfoldable pub trim_space : Text → Text
unfolding trim is_space
trim_space = trim is_space

-- `Index(s, sep)`, with `none` for -1
unfoldable pub index : Text → Text → Option ℕ
unfolding has_prefix
index [] sep = if has_prefix [] sep then some 0 else none
index (c ∷ s) sep =
    let rest = Option.map suc (index s sep) in if has_prefix (c ∷ s) sep then some 0 else rest

unfoldable pub contains_text : Text → Text → Bool
contains_text s sep = elim (index s sep) [ none ↦ false | some i ↦ true ]

-- `EqualFold`: the texts agree under the folding of each character.
unfoldable pub equal_fold : (ℕ → ℕ) → Text → Text → Bool
equal_fold fold s t = map fold s == map fold t

-- `IsEmpty` is the program's `s == ""`
abbrev pub is_empty : Text → Bool
is_empty [] = true
is_empty (c ∷ s) = false

-- `ReplaceAll(s, old, new)` for one character
abbrev pub replace_code : ℕ → ℕ → Text → Text
replace_code old new = map (λ c. if c == old then new else c)

-- `ReplaceAll(s, old, new)` for an `old` that is not empty. While `skip` is not 0 the scan stands
-- inside an occurrence.
unfoldable pub replace_from : Text → Text → ℕ → Text → Text
unfolding has_prefix
replace_from old new skip [] = []
replace_from old new (suc skip) (c ∷ s) = replace_from old new skip s
replace_from old new zero (c ∷ s) = elim (has_prefix (c ∷ s) old) [
  | true ↦ new ++ replace_from old new (length old - 1) s
  | false ↦ c ∷ replace_from old new zero s
]

unfoldable pub replace_all : Text → Text → Text → Text
unfolding replace_from
replace_all s old new = replace_from old new 0 s

-- `IndexByte`, with `none` for -1
unfoldable pub index_code : ℕ → Text → Option ℕ
index_code x [] = none
index_code x (c ∷ s) = let rest = Option.map suc (index_code x s) in if c == x then some 0 else rest

-- `LastIndexByte`, as the texts before and after it
unfoldable pub cut_last : ℕ → Text → Option (Text × Text)
cut_last x [] = none
cut_last x (c ∷ s) = elim (cut_last x s) [
  | some (before, after) ↦ some (c ∷ before, after)
  | none ↦ if c == x then some ([], s) else none
]

-- The loop that keeps what a map has.
unfoldable pub filter_map {ℓ κ} : {A : Type ℓ} {B : Type κ} → (A → Option B) → List A → List B
filter_map f [] = []
filter_map f (a ∷ as') =
    let rest = filter_map f as' in elim (f a) [ none ↦ rest | some b ↦ b ∷ rest ]
