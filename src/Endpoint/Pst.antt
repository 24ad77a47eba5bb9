-- ===== src/Endpoint/Pst.antt =====
-- internal/endpoint/pst.go: a PST archive as a side that is only read. This file has the header of
-- a message as RFC 822 text; its values are what go-pst gives for a message.
pub mod Body
pub mod Session
pub mod Stripped
pub mod Lines
use imapsync.Base.{
  ℕ, zero, suc, ◌+◌, ◌-◌, ◌/◌, ◌%◌, Bool, true, false, ◌&&◌, ◌||◌, not, Option, none, some, List,
  [], ◌∷◌, ◌++◌, ◌==◌, list_eq, nat_eq, if◌then◌else◌, contains, map, filter,
}
use imapsync.Base.Int.{ℤ, pos, negsuc, int_eq}
use imapsync.Base.Text.{
  Text, text, take, index_code, is_empty, has_prefix, has_suffix, trim_space, replace_all,
  equal_fold, replace_code,
}
use imapsync.Base.Text.Split.{split, join_seq}
use imapsync.Mailbox.Message.{crlf}
use imapsync.Base.Time.{Time, zero_time, is_zero}
use imapsync.Endpoint.Ews.{one_line}

-- Functions of the standard library: `strings.ToLower` and `strings.ToUpper`, the Q encoding of
-- package mime, the RFC 1123 format of a date, and base64.
pub record Codec : Type 0 where
  pub to_lower : Text → Text
  pub to_upper : Text → Text
  pub q_encode : Text → Text
  pub rfc1123z : Time → Text
  pub base64 : Text → Text
  pub quote : Text → Text  -- `%q`
  pub decode_utf16 : Text → Option Text
  pub is_utf8 : Text → Bool
  pub decode_windows1252 : Text → Option Text

-- `mapiProps`; the times are nanoseconds since 1970, and `flag_bits` is PidTagMessageFlags.
pub record MapiProps : Type 0 where
  pub subject : Text
  pub internet_message_id : Text
  pub transport_message_headers : Text
  pub client_submit_time : ℤ
  pub message_delivery_time : ℤ
  pub sender_name : Text
  pub sender_email_address : Text
  pub smtp_address : Text
  pub sent_representing_email_address : Text
  pub display_to : Text
  pub display_cc : Text
  pub flag_bits : ℕ
  pub body : Text
  pub body_html : Text

-- `time.Unix(0, t).UTC()` is `t`.
unfoldable pub mapi_date : MapiProps → Time
mapi_date p =
    if not (p.client_submit_time == pos 0)
    then p.client_submit_time
    else if not (p.message_delivery_time == pos 0)
    then p.message_delivery_time
    else zero_time

-- `fl&0x01` and `fl&0x08`
unfoldable pub mapi_flags : MapiProps → List Text
mapi_flags p =
    (if p.flag_bits % 2 == 1 then (92 ∷ text "Seen") ∷ [] else [])
    ++ (if p.flag_bits / 8 % 2 == 1 then (92 ∷ text "Draft") ∷ [] else [])

-- `wr`: a header line, unless its value is blank.
unfoldable pub wr : Text → Text → Text
wr name value = if is_empty (trim_space value) then [] else name ++ (text ": " ++ (value ++ crlf))

unfoldable pub first_non_empty : List Text → Text
first_non_empty [] = []
first_non_empty (v ∷ vs) =
    let later = first_non_empty vs in if not (is_empty (trim_space v)) then v else later

-- `withBlankLine`
unfoldable pub with_blank_line : Text → Text
with_blank_line h =
    if has_suffix h (crlf ++ crlf)
    then h
    else if has_suffix h crlf
    then h ++ crlf
    else h ++ (crlf ++ crlf)

-- The name of the field that a line begins.
abbrev pub field_name : Text → Text
field_name ln = elim (index_code b':' ln) [ none ↦ ln | some i ↦ take i ln ]

abbrev pub is_folded : Text → Bool
is_folded ln = has_prefix ln (b' ' ∷ []) || has_prefix ln (9 ∷ [])

-- Each line ends with CRLF.
unfoldable pub write_lines : List Text → Text
write_lines [] = []
write_lines (ln ∷ lines) = ln ++ (crlf ++ write_lines lines)

module _ (k : Codec) where
  unfoldable pub encode_word : Text → Text
  encode_word s = let line = one_line s in if is_empty line then [] else k.q_encode line

  -- The first candidate that looks like an SMTP address.
  unfoldable pub first_smtp : List Text → Text
  first_smtp [] = []
  first_smtp (cand ∷ cands) =
      let c = trim_space cand in
      let later = first_smtp cands in
      if contains c b'@' && not (has_prefix (k.to_upper c) (text "/O=")) then c else later

  unfoldable pub mapi_from : MapiProps → Text
  unfolding encode_word first_smtp
  mapi_from p =
      let name = one_line p.sender_name in
      let addr =
        first_smtp
          (p.smtp_address ∷ p.sent_representing_email_address ∷ p.sender_email_address ∷ []) in
      if not (is_empty addr) && not (is_empty name)
      then encode_word name ++ (text " <" ++ (addr ++ text ">"))
      else if not (is_empty addr)
      then addr
      else if not (is_empty name)
      then encode_word name
      else []

  unfoldable pub name_list : Text → Text
  unfolding encode_word
  name_list s =
      let line = one_line s in
      if is_empty line
      then []
      else join_seq (text ", ") (map (λ part. encode_word (trim_space part)) (split b';' line))

  -- `keep` of a line that begins a field: MIME-Version and Content-* are dropped.
  unfoldable pub is_kept : Text → Bool
  is_kept ln =
      let low = k.to_lower (trim_space (field_name ln)) in
      not (low == text "mime-version" || has_prefix low (text "content-"))

  -- The loop over the lines with its variables `cur` and `keep`; the output is what it appends to
  -- `out`. An empty line ends the loop.
  unfoldable pub strip_from : List Text → Bool → List Text → List Text
  unfolding is_kept
  strip_from cur keep [] = if keep then cur else []
  strip_from cur keep (ln ∷ lines) =
      let folded = strip_from (cur ++ (ln ∷ [])) keep lines in
      let next = strip_from (ln ∷ []) (is_kept ln) lines in
      let flushed = if keep then cur else [] in
      if is_empty ln then flushed else if is_folded ln then folded else flushed ++ next

  unfoldable pub stripped_transport_headers : Text → Text
  unfolding strip_from write_lines
  stripped_transport_headers raw =
      write_lines (strip_from [] true (split 10 (replace_all raw crlf (10 ∷ []))))
