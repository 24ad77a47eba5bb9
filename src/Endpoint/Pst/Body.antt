-- ===== src/Endpoint/Pst/Body.antt =====
-- `pstMeta` and `pstRender` of internal/endpoint/pst.go: a message as RFC 822 text. The container of
-- the attachments is written as package mime/multipart does.
use imapsync.Base.{
  ℕ, zero, suc, Bool, ◌||◌, not, Option, none, some, List, [], ◌∷◌, ◌++◌, ◌==◌, list_eq, nat_eq,
  ltb, if◌then◌else◌, length,
}
use imapsync.Base.Text.{Text, text, take, drop, is_empty, has_prefix, trim, trim_space, filter_map}
use imapsync.Base.Time.{Time, zero_time, is_zero}
use imapsync.Base.Result.{Result, ok, err}
use imapsync.Mailbox.Message.{crlf}
use imapsync.Endpoint.Pst.{
  Codec, MapiProps, mapi_date, mapi_flags, mapi_from, wr, first_non_empty, with_blank_line,
  encode_word, name_list, stripped_transport_headers,
}

-- A property as go-pst reads it: its bytes, and what it decodes them to if its type is a string.
pub record RawProp : Type 0 where
  pub content : Result Text
  pub is_string : Bool
  pub decoded : Result Text

-- What go-pst gives for an attachment. `content` is what `WriteTo` wrote.
pub record Attachment : Type 0 where
  pub attach_method : ℕ
  pub content : Result Text
  pub long_filename : Text
  pub filename : Text
  pub mime_tag : Text
  pub content_id : Text

-- The properties of a message: those of a mail, or of another class with its subject.
pub data Properties : Type 0 where
  mapi : MapiProps → Properties
  other : Text → Properties

-- `pst.Message`. `raw_prop` finds a property by its tag.
pub record PstMessage : Type 0 where
  pub properties : Properties
  pub raw_prop : ℕ → Option RawProp
  pub body_rtf : Result Text
  pub attachments : Result (List (Option Attachment))

pub record PstAttach : Type 0 where
  pub name : Text
  pub ctype : Text
  pub cid : Text
  pub data_bytes : Text

-- `readRawProp`
unfoldable pub read_raw_prop : PstMessage → ℕ → Text
read_raw_prop m tag = elim (m.raw_prop tag) [
  | none ↦ []
  | some pr ↦ elim pr.content [
    | err why ↦ []
    | ok buf ↦ if pr.is_string then elim pr.decoded [ err why ↦ buf | ok s ↦ s ] else buf
  ]
]

-- `pstAttachments`: by value, and with some content.
unfoldable pub collect : Option Attachment → Option PstAttach
collect none = none
collect (some a) = elim a.content [
  | err why ↦ none
  | ok buf ↦
      if not (a.attach_method == 1) || is_empty buf
      then none
      else some (record {
        name = first_non_empty (a.long_filename ∷ a.filename ∷ text "attachment" ∷ []);
        ctype = first_non_empty (a.mime_tag ∷ text "application/octet-stream" ∷ []);
        cid = trim (λ c. c == b'<' || c == b'>') a.content_id;
        data_bytes = buf;
      })
]

unfoldable pub pst_attachments : PstMessage → List PstAttach
unfolding collect
pst_attachments m = elim m.attachments [ err why ↦ [] | ok all ↦ filter_map collect all ]

-- The loop of `base64Lines`; the length is fuel enough, as each round takes 76 characters.
unfoldable pub wrap_from : ℕ → Text → Text
wrap_from zero s = s ++ crlf
wrap_from (suc fuel) s =
    let rest = wrap_from fuel (drop 76 s) in
    if ltb 76 (length s) then take 76 s ++ (crlf ++ rest) else s ++ crlf

module _ (k : Codec) where
  unfoldable pub base64_lines : Text → Text
  unfolding wrap_from
  base64_lines raw = let s = k.base64 raw in wrap_from (length s) s

  unfoldable pub decode_mapi_bytes : Text → Text
  decode_mapi_bytes raw =
      let plain =
        if k.is_utf8 raw
        then raw
        else elim (k.decode_windows1252 raw) [ none ↦ raw | some s ↦ s ] in
      if has_prefix raw (0xff ∷ 0xfe ∷ [])
      then elim (k.decode_utf16 raw) [ none ↦ plain | some s ↦ s ]
      else plain

  -- `pstBody`: HTML, then plain text, then RTF.
  unfoldable pub pst_body : MapiProps → PstMessage → Text × Text
  unfolding read_raw_prop decode_mapi_bytes
  pst_body p m =
      let html = read_raw_prop m 0x1013 in
      let plain = read_raw_prop m 0x1000 in
      let rtf : Text = elim m.body_rtf [
        | err why ↦ []
        | ok s ↦ if is_empty (trim_space s) then [] else s
      ] in
      if not (is_empty (trim_space p.body_html))
      then (text "text/html", trim_space p.body_html)
      else if not (is_empty html)
      then (text "text/html", decode_mapi_bytes html)
      else if not (is_empty (trim_space p.body))
      then (text "text/plain", trim_space p.body)
      else if not (is_empty plain)
      then (text "text/plain", decode_mapi_bytes plain)
      else (text "text/plain", rtf)

  abbrev pub mime_version : Text
  mime_version = wr (text "MIME-Version") (text "1.0")

  -- The header, the date and the flags that the index needs.
  unfoldable pub pst_meta : PstMessage → Text × (Time × List Text)
  unfolding mapi_date mapi_flags mapi_from encode_word stripped_transport_headers with_blank_line wr
  pst_meta m = elim m.properties [
    | other subject ↦
        (text "Subject: " ++ (encode_word k subject ++ (crlf ++ crlf)), (zero_time, []))
    | mapi p ↦
        let raw = trim_space p.transport_message_headers in
        let date = mapi_date p in
        let built =
          wr (text "Message-ID") (trim_space p.internet_message_id)
          ++ ((if is_zero date then [] else wr (text "Date") (k.rfc1123z date))
              ++ (wr (text "From") (mapi_from k p)
                  ++ (wr (text "Subject") (encode_word k p.subject) ++ crlf))) in
        let header =
          if not (is_empty raw)
          then with_blank_line (stripped_transport_headers k raw)
          else built in
        (header, (date, mapi_flags p))
  ]

  -- The header of a rendered message, up to its MIME fields.
  unfoldable pub render_header : MapiProps → Text
  unfolding mapi_date mapi_from encode_word name_list stripped_transport_headers wr
  render_header p =
      let raw = trim_space p.transport_message_headers in
      let date = mapi_date p in
      let built =
        wr (text "Message-ID") (trim_space p.internet_message_id)
        ++ ((if is_zero date then [] else wr (text "Date") (k.rfc1123z date))
            ++ (wr (text "From") (mapi_from k p)
                ++ (wr (text "To") (name_list k p.display_to)
                    ++ (wr (text "Cc") (name_list k p.display_cc)
                        ++ wr (text "Subject") (encode_word k p.subject))))) in
      (if not (is_empty raw) then stripped_transport_headers k raw else built) ++ mime_version

  -- `CreatePart`: the fields of a part stand in the order of their names.
  unfoldable pub attach_part : Text → PstAttach → Text
  unfolding base64_lines
  attach_part boundary a =
      (crlf ++ (text "--" ++ (boundary ++ crlf)))
      ++ ((text "Content-Disposition: attachment; filename=" ++ (k.quote a.name ++ crlf))
          ++ ((if is_empty a.cid then [] else text "Content-Id: <" ++ (a.cid ++ (text ">" ++ crlf)))
              ++ ((text "Content-Transfer-Encoding: base64" ++ crlf)
                  ++ ((text "Content-Type: " ++ (a.ctype ++ (crlf ++ crlf)))
                      ++ base64_lines a.data_bytes))))

  unfoldable pub attach_parts : Text → List PstAttach → Text
  unfolding attach_part
  attach_parts boundary [] = crlf ++ (text "--" ++ (boundary ++ (text "--" ++ crlf)))
  attach_parts boundary (a ∷ atts) = attach_part boundary a ++ attach_parts boundary atts

  -- `boundary` is what package multipart made up for this message.
  unfoldable pub pst_render : Text → PstMessage → Text
  unfolding pst_body pst_attachments render_header attach_parts encode_word
  pst_render boundary m = elim m.properties [
    | other subject ↦
        (text "Subject: " ++ (encode_word k subject ++ crlf))
        ++ ((text "MIME-Version: 1.0" ++ crlf)
            ++ (text "Content-Type: text/plain; charset=utf-8" ++ (crlf ++ crlf)))
    | mapi p ↦
        let (ctype, body) = pst_body p m in
        let atts = pst_attachments m in
        let single =
          (text "Content-Type: " ++ (ctype ++ (text "; charset=utf-8" ++ crlf)))
          ++ ((text "Content-Transfer-Encoding: 8bit" ++ (crlf ++ crlf)) ++ body) in
        let container =
          (text "Content-Type: multipart/mixed; boundary=" ++ (k.quote boundary ++ (crlf ++ crlf)))
          ++ ((text "--" ++ (boundary ++ crlf))
              ++ ((text "Content-Transfer-Encoding: 8bit" ++ crlf)
                  ++ ((text "Content-Type: "
                        ++ (ctype ++ (text "; charset=utf-8" ++ (crlf ++ crlf))))
                      ++ (body ++ attach_parts boundary atts)))) in
        render_header p ++ elim atts [ [] ↦ single | a ∷ rest ↦ container ]
  ]
