-- ===== src/Tests/Archives.antt =====
-- The theorems on the Exchange and PST endpoints at concrete inputs.
use imapsync.Base.{
  ℕ, ◌+◌, ◌-◌, zero, suc, ◌≡◌, ◌≤◌, refl, true, false, none, some, List, [], ◌∷◌, leb, take, drop,
  arith, list_eq, nat_eq,
}
use imapsync.Base.Int.{pos}
use imapsync.Base.Text.{Text, text, index}
use imapsync.Base.Time.{decimal}
use imapsync.Endpoint.Ews.Auth.{OauthAuth, HttpReply, Headers, oauth_auth}
use imapsync.Endpoint.Ews.Post.{Http, Conn, with_post, post}
use imapsync.Base.Result.{ok, err, errorf}
use imapsync.Endpoint.Ews.Soap.{Service, State, Page}
use imapsync.Endpoint.Ews.Session.{find_page, list_ids}
use imapsync.Endpoint.Ews.Paging.{list_ids-pages}
use imapsync.Endpoint.Pst.{Codec, write_lines, stripped_transport_headers}
use imapsync.Endpoint.Pst.Stripped.{
  without_framing, fields_of, header_lines, lines_of, stripped_transport_headers_lem,
}

abbrev plain_codec : Codec
plain_codec = record {
  to_lower = λ s. s;
  to_upper = λ s. s;
  q_encode = λ s. s;
  rfc1123z = λ t. [];
  base64 = λ s. s;
  quote = λ s. s;
  decode_utf16 = λ s. none;
  is_utf8 = λ s. true;
  decode_windows1252 = λ s. none;
}

abbrev raw_header : Text
raw_header = text "From: a\r\nContent-Type: text/html;\r\n charset=x\r\nSubject: b\r\n\r\nbody"

stripped_transport_headers_lem_example :
    (stripped_transport_headers plain_codec raw_header
      ≡ write_lines (without_framing plain_codec (fields_of (header_lines (lines_of raw_header)))))
    × (stripped_transport_headers plain_codec (stripped_transport_headers plain_codec raw_header)
        ≡ stripped_transport_headers plain_codec raw_header)
stripped_transport_headers_lem_example = stripped_transport_headers_lem plain_codec raw_header

-- A folder of two items.
abbrev items : List Text
items = text "a" ∷ text "b" ∷ []

-- The page for a request: the digit after `Offset="` is the offset.
page_at : ℕ → Page
page_at offset = record { last = leb 2 (offset + 1); ids = take 1 (drop offset items) }

requested : Text → ℕ
requested body = elim (index body (text "Offset=\"")) [
  | none ↦ 0
  | some i ↦ elim (drop (i + 8) body) [ [] ↦ 0 | c ∷ rest ↦ c - b'0' ]
]

abbrev exchange : Service
exchange = record {
  S = Unit;
  url = [];
  who = [];
  impersonate = [];
  post = λ env s. (ok (200, env, false), s);
  to_lower = λ s. s;
  escape = λ s. s;
  quote = λ s. s;
  encode_base64 = λ s. s;
  decode_base64 = λ s. ok s;
  parse_time = λ s. pos 0;
  read_folders = λ s. err (errorf []);
  read_page = λ s. ok (
    record { response_class = text "Success"; response_code = text "NoError"; message_text = [] },
    page_at (requested s),
  );
  read_items = λ s. ok [];
  read_created = λ s. err (errorf []);
}

abbrev exchange_session : State exchange
exchange_session = record { conn = tt; batch = 1; folder_xml = []; folder = text "INBOX" }

pages_of_exchange :
    (offset : ℕ)
    → offset ≤ 2
    → find_page offset exchange_session ≡ (
      ok (record { last = leb 2 (offset + 1); ids = take 1 (drop offset items) }),
      exchange_session,
    )
unfolding find_page page_at requested decimal list_eq index
pages_of_exchange zero h = refl
pages_of_exchange (suc zero) h = refl
pages_of_exchange (suc (suc zero)) h = refl
pages_of_exchange (suc (suc (suc n))) h = absurd (omega (arith, h))

-- Three requests are fuel enough for two items on pages of one.
list_ids-pages_example : list_ids 3 exchange_session ≡ (ok items, exchange_session)
list_ids-pages_example =
    list_ids-pages exchange_session items pages_of_exchange (refl, (refl, tt)) (omega arith) 3
      (omega arith)

abbrev no_token : OauthAuth
no_token = record { tok = []; exp = pos 0 }

abbrev token_reply : HttpReply
token_reply = record {
  status = 200;
  content = [];
  parsed = some (record {
    access_token = text "abc";
    expires_in = pos 3600;
    error_code = [];
    description = [];
  });
}

abbrev first_token : OauthAuth
first_token = record { tok = text "abc"; exp = pos 3_480_000_000_001 }

abbrev first_headers : Headers
first_headers = record { basic_auth = none; authorization = text "Bearer abc"; anchor_mailbox = [] }

-- A server that refuses every request, and a token endpoint that always gives the same token.
abbrev refusing : Http
refusing = record {
  Net = ℕ;
  now = λ n. pos n;
  ask_token = λ n. (ok token_reply, n + 1);
  do_request = λ h env n. (ok (401, text "no"), n + 1);
  bad_request = none;
}

abbrev client : State (with_post exchange refusing (oauth_auth [] []))
client = record {
  conn = record { auth = no_token; net = 0; sent = [] };
  batch = 1;
  folder_xml = [];
  folder = text "INBOX";
}

abbrev client_asked : Conn refusing
client_asked = record { auth = first_token; net = 1; sent = [] }
