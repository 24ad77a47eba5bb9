-- ===== src/Endpoint/Pst/Stripped.antt =====
-- What `strippedTransportHeaders` of internal/endpoint/pst.go leaves of a header.
use imapsync.Base.{
  ◌≡◌, refl, sym, ap, ◌∙◌, Bool, true, false, List, [], ◌∷◌, ◌++◌, nat_eq, if◌then◌else◌, contains,
  ◌||◌, ◌==◌, list_eq, All, arith, append-nil, append_assoc,
}
use imapsync.Base.Text.{Text, text, trim_space, is_empty, has_prefix, replace_all, replace_from}
use imapsync.Base.Text.Split.{split, split-append, split-contains}
use imapsync.Mailbox.Message.{crlf}
use imapsync.Endpoint.Pst.{
  Codec, write_lines, field_name, is_folded, is_kept, strip_from, stripped_transport_headers,
}

-- The lines before the first empty one.
unfoldable pub header_lines : List Text → List Text
header_lines [] = []
header_lines (ln ∷ lines) = let rest = header_lines lines in if is_empty ln then [] else ln ∷ rest

-- Lines as the fields that they make: continuation lines before the first field, and each field as
-- its first line with its continuation lines.
unfoldable pub fields_of : List Text → List Text × List (Text × List Text)
fields_of [] = ([], [])
fields_of (ln ∷ lines) =
    let (folds, fields) = fields_of lines in
    if is_folded ln then (ln ∷ folds, fields) else ([], (ln, folds) ∷ fields)

module _ (k : Codec) where
  -- A field of MIME framing, by the name before the colon: MIME-Version or Content-*.
  abbrev pub is_framing : Text → Bool
  is_framing ln =
      let name = k.to_lower (trim_space (field_name ln)) in
      name == text "mime-version" || has_prefix name (text "content-")

  unfoldable pub lines_without_framing : List (Text × List Text) → List Text
  lines_without_framing [] = []
  lines_without_framing ((ln, folds) ∷ fields) =
      let rest = lines_without_framing fields in
      if is_framing ln then rest else ln ∷ (folds ++ rest)

  -- What a header is to be stripped to.
  abbrev pub without_framing : List Text × List (Text × List Text) → List Text
  without_framing (folds, fields) = folds ++ lines_without_framing fields

  -- The lines that remain of a field that is kept or not, up to the first empty line.
  unfoldable pub kept : Bool → List Text → List Text
  kept keep [] = []
  kept keep (ln ∷ lines) =
      let more = kept keep lines in
      let next = kept (is_kept k ln) lines in
      if is_empty ln
      then []
      else if is_folded ln
      then if keep then ln ∷ more else more
      else if is_kept k ln
      then ln ∷ next
      else next

  kept-fields :
      (keep : Bool) (lines : List Text)
      → kept keep lines ≡ (
          if keep
          then without_framing (fields_of (header_lines lines))
          else lines_without_framing (fields_of (header_lines lines)).1)
  unfolding kept fields_of header_lines lines_without_framing is_kept
  kept-fields true [] = refl
  kept-fields false [] = refl
  kept-fields true (ln ∷ lines) =
      ground (arith, kept-fields true lines, kept-fields (is_kept k ln) lines)
  kept-fields false (ln ∷ lines) =
      ground (arith, kept-fields false lines, kept-fields (is_kept k ln) lines)

  -- The loop with its buffer gives the lines of the fields that are kept.
  strip_from-kept :
      (cur : List Text) (keep : Bool) (lines : List Text)
      → strip_from k cur keep lines ≡ (if keep then cur else []) ++ kept keep lines
  unfolding strip_from kept
  strip_from-kept cur true [] = sym (append-nil cur)
  strip_from-kept cur false [] = refl
  strip_from-kept cur true (ln ∷ lines) = ground (
    arith,
    strip_from-kept (cur ++ (ln ∷ [])) true lines,
    strip_from-kept (ln ∷ []) (is_kept k ln) lines,
    append_assoc cur (ln ∷ []) (kept true lines),
    append-nil cur,
  )
  strip_from-kept cur false (ln ∷ lines) = ground (
    arith,
    strip_from-kept (cur ++ (ln ∷ [])) false lines,
    strip_from-kept (ln ∷ []) (is_kept k ln) lines,
  )

  kept-kept : (keep : Bool) (lines : List Text) → kept true (kept keep lines) ≡ kept keep lines
  unfolding kept
  kept-kept keep [] = refl
  kept-kept keep (ln ∷ lines) = ground (arith, kept-kept keep lines, kept-kept (is_kept k ln) lines)

  -- An empty line behind the last changes nothing.
  kept-stop : (keep : Bool) (lines : List Text) → kept keep (lines ++ ([] ∷ [])) ≡ kept keep lines
  unfolding kept
  kept-stop keep [] = refl
  kept-stop keep (ln ∷ lines) = ground (arith, kept-stop keep lines, kept-stop (is_kept k ln) lines)

  kept-All :
      (keep : Bool) (lines : List Text)
      → All (λ t. contains t 10 ≡ false) lines
      → All (λ t. contains t 10 ≡ false) (kept keep lines)
  unfolding kept
  kept-All keep [] h = tt
  kept-All keep (ln ∷ lines) (here, h) =
      ground (arith, here, kept-All keep lines h, kept-All (is_kept k ln) lines h)

-- The lines that the text of a header is split into.
unfoldable pub lines_of : Text → List Text
lines_of raw = split 10 (replace_all raw crlf (10 ∷ []))

replace_all-crlf :
    (s rest : Text)
    → contains s 10 ≡ false
    → replace_all (s ++ (crlf ++ rest)) crlf (10 ∷ []) ≡ s ++ (10 ∷ replace_all rest crlf (10 ∷ []))
unfolding replace_all replace_from has_prefix
replace_all-crlf [] rest h = refl
replace_all-crlf (c ∷ []) rest h = ground (arith, replace_all-crlf [] rest refl)
replace_all-crlf (c ∷ d ∷ s) rest h =
    ground (arith, replace_all-crlf (d ∷ s) rest (ground (arith, h)))

lines_of-write_lines :
    (lines : List Text)
    → All (λ t. contains t 10 ≡ false) lines
    → lines_of (write_lines lines) ≡ lines ++ ([] ∷ [])
unfolding lines_of write_lines split replace_all
lines_of-write_lines [] h = refl
lines_of-write_lines (ln ∷ lines) (here, h) =
    ap (split 10) (replace_all-crlf ln (write_lines lines) here)
    ∙ split-append 10 ln (replace_all (write_lines lines) crlf (10 ∷ [])) here
    ∙ ap (◌∷◌ ln) (lines_of-write_lines lines h)

module _ (k : Codec) where
  stripped-kept :
      (raw : Text) → stripped_transport_headers k raw ≡ write_lines (kept k true (lines_of raw))
  unfolding stripped_transport_headers lines_of
  stripped-kept raw = ap write_lines (strip_from-kept k [] true (lines_of raw))

  -- What is left of a header are the lines before the first empty one without the fields of MIME
  -- framing, each with its continuation lines, and with CRLF behind each line; and stripping what
  -- is left changes nothing.
  pub stripped_transport_headers_lem :
      (raw : Text)
      → (stripped_transport_headers k raw
          ≡ write_lines (without_framing k (fields_of (header_lines (lines_of raw)))))
        × (stripped_transport_headers k (stripped_transport_headers k raw)
            ≡ stripped_transport_headers k raw)
  unfolding lines_of
  stripped_transport_headers_lem raw =
      let lines = lines_of raw in
      let clean = kept-All k true lines (split-contains 10 (replace_all raw crlf (10 ∷ []))) in
      (
        stripped-kept raw ∙ ap write_lines (kept-fields k true lines),
        ap (stripped_transport_headers k) (stripped-kept raw)
            ∙ stripped-kept (write_lines (kept k true lines))
            ∙ ap (λ ls. write_lines (kept k true ls))
                (lines_of-write_lines (kept k true lines) clean)
            ∙ ap write_lines (kept-stop k true (kept k true lines) ∙ kept-kept k true lines)
            ∙ sym (stripped-kept raw),
      )
