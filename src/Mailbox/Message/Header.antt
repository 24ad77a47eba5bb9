-- ===== src/Mailbox/Message/Header.antt =====
-- A copy carries the surrogate-hash header: `InjectHashHeader` and `HasHeader` of
-- internal/mailbox/message.go.
use imapsync.Base.{
  ℕ, ◌≡◌, refl, Bool, true, false, [], ◌∷◌, ◌++◌, append_assoc, append-nil, arith, ◌⊎◌, ◌==◌,
  list_eq, nat_eq, any, contains, Bool-cases, contains-append, inl, inr,
}
use mathlib.Core.List.{map-append}
use imapsync.Base.Text.{Text, text, index, has_prefix, has_prefix-append}
use imapsync.Base.Text.Split.{split_seq, split_seq-crlf_append, split_seq-crlf_one}
use imapsync.Mailbox.Message.{Mail, crlf, to_lower, header_block, has_header, inject_hash_header}

regroup :
    (name value raw : Text)
    → (name ++ (text ": " ++ (value ++ crlf))) ++ raw
      ≡ (name ++ (text ": " ++ value)) ++ (crlf ++ raw)
regroup name value raw = simp append_assoc

module _ (m : Mail) where
  header_block-cons :
      (c : ℕ) (s : Text) → (c == 13) ≡ false → header_block m (c ∷ s) ≡ c ∷ header_block m s
  unfolding header_block index
  header_block-cons c s h = ground arith

  header_block-append :
      (s t : Text) → contains s 13 ≡ false → header_block m (s ++ t) ≡ s ++ header_block m t
  header_block-append [] t h = refl
  header_block-append (c ∷ s) t h =
      ground (arith, header_block-cons c (s ++ t), header_block-append s t)

  -- The block that begins with a line end is empty, or has that line end.
  header_block-crlf :
      (t : Text)
      → (header_block m (crlf ++ t) ≡ []) ⊎ (header_block m (crlf ++ t) ≡ crlf ++ header_block m t)
  unfolding header_block index
  header_block-crlf t = ground arith

  -- A first line is read as a header of its own, whatever follows.
  any-first_line :
      (p : Text → Bool) (s t : Text)
      → contains s 13 ≡ false
      → p s ≡ true
      → any p (split_seq crlf (header_block m (s ++ (crlf ++ t)))) ≡ true
  any-first_line p s t h hp = rw (header_block-append s (crlf ++ t) h) (elim (header_block-crlf t) [
    | inl e ↦ rw (e, append-nil, split_seq-crlf_one s h) (ground arith)
    | inr e ↦ rw (e, split_seq-crlf_append s (header_block m t) h) (ground arith)
  ])

  header_line-prefix :
      (name value : Text)
      → m.lower b':' ≡ b':'
      → has_prefix (to_lower m (name ++ (text ": " ++ value))) (to_lower m name ++ text ":") ≡ true
  unfolding has_prefix
  header_line-prefix name value colon =
      rw (map-append m.lower name (text ": " ++ value), has_prefix-append) (ground (arith, colon))

  has_header_first :
      (raw name value : Text)
      → m.lower b':' ≡ b':'
      → contains name 13 ≡ false
      → contains value 13 ≡ false
      → has_header m ((name ++ (text ": " ++ (value ++ crlf))) ++ raw) name ≡ true
  unfolding has_header
  has_header_first raw name value colon hn hv = rw (regroup name value raw) (
      any-first_line _ (name ++ (text ": " ++ value)) raw (rw contains-append (ground arith))
        (header_line-prefix name value colon))

  inject_of_has :
      (raw name value : Text)
      → has_header m raw name ≡ true
      → inject_hash_header m raw name value ≡ raw
  unfolding inject_hash_header
  inject_of_has raw name value h = rw h

  has_header-inject :
      (raw name value : Text)
      → m.lower b':' ≡ b':'
      → contains name 13 ≡ false
      → contains value 13 ≡ false
      → has_header m (inject_hash_header m raw name value) name ≡ true
  unfolding inject_hash_header
  has_header-inject raw name value colon hn hv = elim (Bool-cases (has_header m raw name)) [
    | inl has ↦ rw has has
    | inr lacks ↦ rw lacks (has_header_first raw name value colon hn hv)
  ]

  -- After `InjectHashHeader` the message has the header, and a second call changes nothing. The
  -- name and the value are free of carriage returns, and ':' is its own lower case.
  pub has_header-inject_hash_header :
      (raw name value : Text)
      → m.lower b':' ≡ b':'
      → contains name 13 ≡ false
      → contains value 13 ≡ false
      → (has_header m (inject_hash_header m raw name value) name ≡ true)
        × (inject_hash_header m (inject_hash_header m raw name value) name value
            ≡ inject_hash_header m raw name value)
  has_header-inject_hash_header raw name value colon hn hv =
      let has = has_header-inject raw name value colon hn hv in
      (has, inject_of_has (inject_hash_header m raw name value) name value has)
