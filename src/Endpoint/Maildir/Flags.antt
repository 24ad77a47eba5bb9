-- ===== src/Endpoint/Maildir/Flags.antt =====
-- The round trip of flags through the name of a file.
use imapsync.Base.{
  ℕ, zero, suc, ◌+◌, ◌≡◌, refl, ◌∙◌, ap, true, false, Option, none, some, List, [], ◌∷◌, ◌++◌,
  append-nil, arith, ◌==◌, list_eq, nat_eq, eq_iff, eq_refl, leb, contains, length,
}
use imapsync.Base.Text.{Text, text, take, drop, index, index_code, filter_map, has_prefix}
use imapsync.Base.Sort.{sort, contains-sort}
use imapsync.Base.Dict
use imapsync.Base.Dict.{Dict}
use imapsync.Endpoint.Maildir.{
  flag, flag_letter_to_imap, imap_to_flag_letter, unique_id, info, flags_from_name, flag_letters,
  flag_suffix, suffix_of,
}

index_code-append :
    (x : ℕ) (u s : Text) → contains u x ≡ false → index_code x (u ++ (x ∷ s)) ≡ some (length u)
unfolding index_code
index_code-append x [] s h = ground (arith, eq_refl x)
index_code-append x (c ∷ u) s h = ground (arith, eq_iff x c, index_code-append x u s)

index_code-none : (x : ℕ) (u : Text) → contains u x ≡ false → index_code x u ≡ none
unfolding index_code
index_code-none x [] h = refl
index_code-none x (c ∷ u) h = ground (arith, index_code-none x u)

take-length : (u s : Text) → take (length u) (u ++ s) ≡ u
take-length [] s = refl
take-length (c ∷ u) s = ap (◌∷◌ c) (take-length u s)

index-info :
    (u s : Text) → contains u b':' ≡ false → index (u ++ (info ++ s)) info ≡ some (length u)
unfolding index has_prefix
index-info [] s h = refl
index-info (c ∷ u) s h = ground (arith, index-info u s)

index-info-none : (u : Text) → contains u b':' ≡ false → index u info ≡ none
unfolding index has_prefix
index-info-none [] h = refl
index-info-none (c ∷ u) h = ground (arith, index-info-none u)

drop-append : (u s : Text) (j n : ℕ) → j ≡ length u + n → drop j (u ++ s) ≡ drop n s
drop-append [] s j n e = ap (λ k. drop k s) (omega arith)
drop-append (c ∷ u) s zero n e = absurd (omega arith)
drop-append (c ∷ u) s (suc j) n e = drop-append u s j n (omega arith)

abbrev to_letter : Text → Option ℕ
to_letter f = Dict.lookup f imap_to_flag_letter

abbrev to_flag : ℕ → Option Text
to_flag c = Dict.lookup c flag_letter_to_imap

module _ (f : Text) (l : ℕ)
    (of_letter : (g : Text) → (elim (to_letter g) [ none ↦ false | some c ↦ l == c ]) ≡ (f == g))
    (of_flag : (c : ℕ) → (elim (to_flag c) [ none ↦ false | some g ↦ f == g ]) ≡ (l == c)) where
  contains-letters : (fs : List Text) → contains (filter_map to_letter fs) l ≡ contains fs f
  unfolding filter_map
  contains-letters [] = refl
  contains-letters (g ∷ fs) = ground (arith, of_letter g, contains-letters fs)

  contains-flags : (cs : Text) → contains (filter_map to_flag cs) f ≡ contains cs l
  unfolding filter_map
  contains-flags [] = refl
  contains-flags (c ∷ cs) = ground (arith, of_flag c, contains-flags cs)

  contains-both :
      (fs : List Text) → contains (filter_map to_flag (flag_letters fs)) f ≡ contains fs f
  unfolding flag_letters
  contains-both fs =
      contains-flags (sort leb (filter_map to_letter fs))
      ∙ contains-sort leb l (filter_map to_letter fs)
      ∙ contains-letters fs

-- Each table has the five flags and nothing else, and the one is the inverse of the other.
seen_letter :
    (g : Text)
    → (elim (to_letter g) [ none ↦ false | some c ↦ b'S' == c ]) ≡ (flag (text "Seen") == g)
unfolding Dict.lookup
seen_letter g = ground (
  arith,
  eq_iff (flag (text "Seen")) g,
  eq_iff (flag (text "Answered")) g,
  eq_iff (flag (text "Flagged")) g,
  eq_iff (flag (text "Draft")) g,
  eq_iff (flag (text "Deleted")) g,
)

seen_flag :
    (c : ℕ) → (elim (to_flag c) [ none ↦ false | some g ↦ flag (text "Seen") == g ]) ≡ (b'S' == c)
unfolding Dict.lookup list_eq
seen_flag c = ground arith

answered_letter :
    (g : Text)
    → (elim (to_letter g) [ none ↦ false | some c ↦ b'R' == c ]) ≡ (flag (text "Answered") == g)
unfolding Dict.lookup
answered_letter g = ground (
  arith,
  eq_iff (flag (text "Seen")) g,
  eq_iff (flag (text "Answered")) g,
  eq_iff (flag (text "Flagged")) g,
  eq_iff (flag (text "Draft")) g,
  eq_iff (flag (text "Deleted")) g,
)

answered_flag :
    (c : ℕ)
    → (elim (to_flag c) [ none ↦ false | some g ↦ flag (text "Answered") == g ]) ≡ (b'R' == c)
unfolding Dict.lookup list_eq
answered_flag c = ground arith

flagged_letter :
    (g : Text)
    → (elim (to_letter g) [ none ↦ false | some c ↦ b'F' == c ]) ≡ (flag (text "Flagged") == g)
unfolding Dict.lookup
flagged_letter g = ground (
  arith,
  eq_iff (flag (text "Seen")) g,
  eq_iff (flag (text "Answered")) g,
  eq_iff (flag (text "Flagged")) g,
  eq_iff (flag (text "Draft")) g,
  eq_iff (flag (text "Deleted")) g,
)

flagged_flag :
    (c : ℕ)
    → (elim (to_flag c) [ none ↦ false | some g ↦ flag (text "Flagged") == g ]) ≡ (b'F' == c)
unfolding Dict.lookup list_eq
flagged_flag c = ground arith

draft_letter :
    (g : Text)
    → (elim (to_letter g) [ none ↦ false | some c ↦ b'D' == c ]) ≡ (flag (text "Draft") == g)
unfolding Dict.lookup
draft_letter g = ground (
  arith,
  eq_iff (flag (text "Seen")) g,
  eq_iff (flag (text "Answered")) g,
  eq_iff (flag (text "Flagged")) g,
  eq_iff (flag (text "Draft")) g,
  eq_iff (flag (text "Deleted")) g,
)

draft_flag :
    (c : ℕ) → (elim (to_flag c) [ none ↦ false | some g ↦ flag (text "Draft") == g ]) ≡ (b'D' == c)
unfolding Dict.lookup list_eq
draft_flag c = ground arith

deleted_letter :
    (g : Text)
    → (elim (to_letter g) [ none ↦ false | some c ↦ b'T' == c ]) ≡ (flag (text "Deleted") == g)
unfolding Dict.lookup
deleted_letter g = ground (
  arith,
  eq_iff (flag (text "Seen")) g,
  eq_iff (flag (text "Answered")) g,
  eq_iff (flag (text "Flagged")) g,
  eq_iff (flag (text "Draft")) g,
  eq_iff (flag (text "Deleted")) g,
)

deleted_flag :
    (c : ℕ)
    → (elim (to_flag c) [ none ↦ false | some g ↦ flag (text "Deleted") == g ]) ≡ (b'T' == c)
unfolding Dict.lookup list_eq
deleted_flag c = ground arith

letters_known :
    (f : Text) (fs : List Text)
    → Dict.member f imap_to_flag_letter ≡ true
    → contains (filter_map to_flag (flag_letters fs)) f ≡ contains fs f
unfolding Dict.member Dict.lookup
letters_known f fs known = ground (
  arith,
  eq_iff (flag (text "Seen")) f,
  eq_iff (flag (text "Answered")) f,
  eq_iff (flag (text "Flagged")) f,
  eq_iff (flag (text "Draft")) f,
  eq_iff (flag (text "Deleted")) f,
  contains-both (flag (text "Seen")) b'S' seen_letter seen_flag fs,
  contains-both (flag (text "Answered")) b'R' answered_letter answered_flag fs,
  contains-both (flag (text "Flagged")) b'F' flagged_letter flagged_flag fs,
  contains-both (flag (text "Draft")) b'D' draft_letter draft_flag fs,
  contains-both (flag (text "Deleted")) b'T' deleted_letter deleted_flag fs,
)

flags_from_name-suffix_of :
    (u cs : Text)
    → contains u b':' ≡ false
    → flags_from_name (u ++ suffix_of cs) ≡ filter_map to_flag cs
unfolding flags_from_name filter_map
flags_from_name-suffix_of u [] h = rw (append-nil u, flags_from_name, index-info-none u h) refl
flags_from_name-suffix_of u (c ∷ cs) h =
    rw (flags_from_name, index-info u (c ∷ cs) h)
      (ap (filter_map to_flag) (drop-append u (info ++ (c ∷ cs)) (length u + 3) 3 refl))

unique_id-suffix_of : (u cs : Text) → contains u b':' ≡ false → unique_id (u ++ suffix_of cs) ≡ u
unfolding unique_id
unique_id-suffix_of u [] h =
    ap unique_id (append-nil u) ∙ rw (unique_id, index_code-none b':' u h) refl
unique_id-suffix_of u (c ∷ cs) h =
    rw (unique_id, index_code-append b':' u (b'2' ∷ b',' ∷ c ∷ cs) h)
      (take-length u (info ++ (c ∷ cs)))

-- A message's id is the part of its file's name before the flags, whatever the flags are; and each
-- of the flags that have a letter is read back from the name exactly if it was put in. The unique
-- part is free of colons.
pub flag_suffix_read_back :
    (u : Text) (fs : List Text)
    → contains u b':' ≡ false
    → (unique_id (u ++ flag_suffix fs) ≡ u)
      × ((f : Text)
          → Dict.member f imap_to_flag_letter ≡ true
          → contains (flags_from_name (u ++ flag_suffix fs)) f ≡ contains fs f)
unfolding flag_suffix
flag_suffix_read_back u fs h = (
  unique_id-suffix_of u (flag_letters fs) h,
  λ f known.
      ap (λ gs. contains gs f) (flags_from_name-suffix_of u (flag_letters fs) h)
      ∙ letters_known f fs known,
)
