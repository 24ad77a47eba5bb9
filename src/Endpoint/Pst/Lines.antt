-- ===== src/Endpoint/Pst/Lines.antt =====
-- The lines that `base64Lines` of internal/endpoint/pst.go writes.
use imapsync.Base.{
  ℕ, zero, suc, ◌≤◌, ◌≡◌, refl, ap, ◌∙◌, List, [], ◌∷◌, ◌++◌, ltb, length, take, drop, take-drop,
  length-drop, arith, Bool-cases, inl, inr,
}
use imapsync.Base.Text.{Text}
use imapsync.Endpoint.Pst.{Codec, write_lines}
use imapsync.Endpoint.Pst.Body.{wrap_from, base64_lines}

-- Every line has 76 characters, and the last has at most so many.
abbrev pub IsWrapped : Text → List Text → Type 0
IsWrapped s [] = length s ≤ 76
IsWrapped s (t ∷ ts) = (length s ≡ 76) × IsWrapped t ts

-- The lines without their ends.
abbrev pub joined : Text → List Text → Text
joined s [] = s
joined s (t ∷ ts) = s ++ joined t ts

length-take : (n : ℕ) (s : Text) → n ≤ length s → length (take n s) ≡ n
length-take zero s h = refl
length-take (suc n) [] h = absurd (omega (arith, h))
length-take (suc n) (c ∷ s) h = ap suc (length-take n s (omega (arith, h)))

abbrev WrittenAs : Text → Text → Type 0
WrittenAs out s =
    (first : Text) × (rest : List Text) × (out ≡ write_lines (first ∷ rest))
    × (joined first rest ≡ s)
    × IsWrapped first rest

wrap_from-write_lines : (fuel : ℕ) (s : Text) → length s ≤ fuel → WrittenAs (wrap_from fuel s) s
unfolding wrap_from write_lines
wrap_from-write_lines zero s h = (s, [], refl, refl, omega (arith, h))
wrap_from-write_lines (suc fuel) s h = elim (Bool-cases (ltb 76 (length s))) [
  | inr short ↦ (s, [], ground (arith, short), refl, ground (arith, short))
  | inl long ↦
      let (first, rest, out, whole, wrapped) =
        wrap_from-write_lines fuel (drop 76 s) (ground (arith, length-drop 76 s, long)) in
      (
        take 76 s,
        first ∷ rest,
        ground (arith, long, out),
        ap (λ t. take 76 s ++ t) whole ∙ take-drop 76 s,
        (length-take 76 s (ground (arith, long)), wrapped),
      )
]

module _ (k : Codec) where
  -- The encoding is written in lines of 76 characters, the last of which may be shorter, each with
  -- CRLF behind it; without the line ends it is the encoding.
  pub base64_lines-write_lines :
      (raw : Text)
      → (first : Text) × (rest : List Text) × (base64_lines k raw ≡ write_lines (first ∷ rest))
        × (joined first rest ≡ k.base64 raw)
        × IsWrapped first rest
  unfolding base64_lines
  base64_lines-write_lines raw =
      wrap_from-write_lines (length (k.base64 raw)) (k.base64 raw) (omega arith)
