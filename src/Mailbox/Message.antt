-- ===== src/Mailbox/Message.antt =====
-- internal/mailbox/message.go: the fields that deduplication reads, the match keys, and the
-- surrogate-hash header. `net/mail`, `mime` and the hash function are the parameters `Mail`.
pub mod Keys
pub mod Header
use imapsync.Base.{
  ℕ, ◌+◌, Bool, true, false, ◌&&◌, ◌||◌, not, Option, none, some, List, [], ◌∷◌, ◌++◌, map, ◌==◌,
  ◌!=◌, if◌then◌else◌, list_eq, nat_eq, any, length,
}
use imapsync.Base.Text.{
  Text, text, trim_space, trim_prefix, trim_suffix, has_prefix, has_suffix, index, take, is_empty,
}
use imapsync.Base.Text.Split.{split_seq}
use imapsync.Base.Result.{Result, ok, err, Error, wrap}
use imapsync.Base.Int.{ℤ, pos}
use imapsync.Base.Time.{Time, zero_time, is_zero, unix, decimal}

pub record Fields : Type 0 where
  pub message_id : Text
  pub date : Time
  pub subject : Text
  pub from : Text
  pub hash_hdr : Text

-- What the code calls of `net/mail`, `mime`, `crypto/sha256` and the case tables of `unicode`.
pub record Mail : Type 0 where
  pub read_message : Text → Result (Text → Text)  -- mail.ReadMessage, then Header.Get
  pub parse_date : Text → Option Time
  pub parse_address : Text → Option Text  -- the bare address
  pub decode_words : Text → Option Text  -- mime.WordDecoder.DecodeHeader
  pub sha256_hex : Text → Text
  pub lower : ℕ → ℕ  -- unicode.ToLower

-- `NormalizeMessageID`
pub normalize_message_id : Text → Text
normalize_message_id s =
    let t = trim_space s in
    let u = trim_prefix t (text "<") in let v = trim_suffix u (text ">") in trim_space v

abbrev pub crlf : Text
crlf = 13 ∷ 10 ∷ []

module _ (m : Mail) where
  -- `strings.ToLower`
  abbrev pub to_lower : Text → Text
  to_lower = map m.lower

  decode_header : Text → Text
  decode_header s = elim (m.decode_words s) [ none ↦ s | some out ↦ out ]

  normalize_addr : Text → Text
  unfolding decode_header
  normalize_addr raw =
      let s = trim_space (decode_header raw) in
      elim (m.parse_address s) [ none ↦ to_lower s | some address ↦ to_lower (trim_space address) ]

  -- The blank line that `net/mail` expects is added where it is missing.
  terminated : Text → Text
  terminated raw =
      if not (has_suffix raw (10 ∷ 10 ∷ [])) && not (has_suffix raw (crlf ++ crlf))
      then raw ++ crlf
      else raw

  header_date : Text → Time
  header_date ds =
      if is_empty ds then zero_time else elim (m.parse_date ds) [ none ↦ zero_time | some t ↦ t ]

  fields_of : (Text → Text) → Text → Fields
  unfolding normalize_message_id decode_header normalize_addr header_date
  fields_of get hash_header = record {
    message_id = normalize_message_id (get (text "Message-Id"));
    date = header_date (trim_space (get (text "Date")));
    subject = trim_space (decode_header (get (text "Subject")));
    from = normalize_addr (get (text "From"));
    hash_hdr = trim_space (get hash_header);
  }

  unfoldable pub parse_fields : Text → Text → Result Fields
  unfolding terminated fields_of
  parse_fields raw hash_header = elim (m.read_message (terminated raw)) [
    | err e ↦ err (wrap (text "parsing message headers: ") e)
    | ok get ↦ ok (fields_of get hash_header)
  ]

  unix_of : Time → ℤ
  unix_of t = if is_zero t then pos 0 else unix t

  unfoldable pub surrogate_hash : Fields → Text
  unfolding unix_of
  surrogate_hash f = m.sha256_hex (decimal (unix_of f.date) ++ (0 ∷ (f.subject ++ (0 ∷ f.from))))

  -- `HasHeader`
  header_block : Text → Text
  header_block raw = elim (index raw (crlf ++ crlf)) [ none ↦ raw | some i ↦ take i raw ]

  unfoldable pub has_header : Text → Text → Bool
  unfolding header_block
  has_header raw name =
      let prefix = to_lower name ++ text ":" in
      any (λ line. has_prefix (to_lower line) prefix) (split_seq crlf (header_block raw))

  unfoldable pub inject_hash_header : Text → Text → Text → Text
  inject_hash_header raw hash_header value =
      if has_header raw hash_header
      then raw
      else (hash_header ++ (text ": " ++ (value ++ crlf))) ++ raw

abbrev pub mid_key : Text → Text
mid_key id = text "mid:" ++ id

abbrev pub hash_key : Text → Text
hash_key h = text "hash:" ++ h

-- `len(keys) != 0 && keys[len(keys)-1] == k`
ends_with : List Text → Text → Bool
ends_with [] k = false
ends_with (x ∷ []) k = x == k
ends_with (x ∷ y ∷ xs) k = ends_with (y ∷ xs) k

-- `MatchKeysFrom`: the last key that is there is compared with the surrogate's.
unfoldable pub match_keys_from : Text → Text → Text → List Text
unfolding ends_with
match_keys_from message_id hash_hdr surrogate =
    let mid = if is_empty message_id then [] else mid_key message_id ∷ [] in
    let hash = if is_empty hash_hdr then [] else hash_key hash_hdr ∷ [] in
    let sur = hash_key surrogate in
    let keys = mid ++ hash in if ends_with keys sur then keys else keys ++ (sur ∷ [])

module _ (m : Mail) where
  unfoldable pub identity : Fields → Text
  identity f =
      if not (is_empty f.message_id)
      then mid_key f.message_id
      else if not (is_empty f.hash_hdr)
      then hash_key f.hash_hdr
      else hash_key (surrogate_hash m f)

  unfoldable pub match_keys : Fields → List Text
  match_keys f = match_keys_from f.message_id f.hash_hdr (surrogate_hash m f)
