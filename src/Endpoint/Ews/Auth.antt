-- ===== src/Endpoint/Ews/Auth.antt =====
-- internal/endpoint/ews_auth.go: the credentials of a request, and the cache of OAuth2 tokens.
pub mod Fresh
use imapsync.Base.{
  ℕ, ◌+◌, ◌-◌, ◌*◌, Bool, true, false, ◌&&◌, ◌||◌, not, Option, none, some, List, [], ◌∷◌, ◌++◌,
  ◌==◌, list_eq, nat_eq, leb, if◌then◌else◌,
}
use imapsync.Base.Int.{ℤ, pos, negsuc, int_leb, int_ltb, pos_part}
use imapsync.Base.Text.{Text, text, is_empty, trim_prefix}
use imapsync.Base.Time.{Time, decimal}
use imapsync.Base.Result.{Error, Result, ok, err, errorf, wrap}
use imapsync.Endpoint.Ews.{one_line, snippet}

-- What the program reads of the answer of the token endpoint.
pub record TokenReply : Type 0 where
  pub access_token : Text
  pub expires_in : ℤ  -- seconds, taken to stay below 2 ^ 33
  pub error_code : Text
  pub description : Text

-- An HTTP answer: its status, its data, and what they are as JSON.
pub record HttpReply : Type 0 where
  pub status : ℕ
  pub content : Text
  pub parsed : Option TokenReply

-- `oauthAuth`, as far as it changes: the token (empty for none), and until when it is used.
pub record OauthAuth : Type 0 where
  pub tok : Text
  pub exp : Time

abbrev pub token_skew : ℕ
token_skew = 120

-- A time so many nanoseconds later.
unfoldable pub later : Time → ℕ → Time
later (pos t) n = pos (t + n)
later (negsuc t) n = if leb n t then negsuc (t - n) else pos (n - t - 1)

-- A missing or odd `expires_in`: the token is kept for a minute.
unfoldable pub ttl_of : ℤ → ℕ
ttl_of expires_in =
    if int_leb expires_in (pos token_skew) then token_skew + 60 else pos_part expires_in

-- `fetch`, from what the request gives.
unfoldable pub fetch : Text → Result HttpReply → Result (Text × ℕ)
unfolding ttl_of snippet one_line
fetch token_url (err why) = err (wrap (text "oauth2 token " ++ (token_url ++ text ": ")) why)
fetch token_url (ok reply) =
    let context =
      text "oauth2 token "
      ++ (token_url ++ (text ": HTTP " ++ (decimal (pos reply.status) ++ text ": "))) in
    elim reply.parsed [
      | none ↦ err (errorf (context ++ snippet reply.content))
      | some tr ↦
          if not (reply.status == 200) || is_empty tr.access_token
          then (if not (is_empty tr.error_code)
              then err
                  (errorf (context ++ (tr.error_code ++ (text ": " ++ one_line tr.description))))
              else err (errorf (context ++ text "no access_token")))
          else ok (tr.access_token, ttl_of tr.expires_in)
    ]

-- `token`: `now` is the time of the check, `then_now` that after the request.
unfoldable pub token : Text → Time → Time → Result HttpReply → OauthAuth → Result Text × OauthAuth
unfolding fetch
token token_url now then_now reply a =
    if not (is_empty a.tok) && int_ltb now a.exp
    then (ok a.tok, a)
    else elim (fetch token_url reply) [
      | err why ↦ (err why, a)
      | ok got ↦ (
        ok got.0,
        record { tok = got.0; exp = later then_now ((got.1 - token_skew) * 1_000_000_000) },
      )
    ]

-- `rejected` of a request with this Authorization header: whether to try again.
unfoldable pub rejected : Text → OauthAuth → Bool × OauthAuth
rejected authorization a =
    let used = trim_prefix authorization (text "Bearer ") in
    if is_empty a.tok || not (a.tok == used) then (false, a) else (true, record a { tok = [] })

-- What `authorize` sets on a request.
pub record Headers : Type 0 where
  pub basic_auth : Option (Text × Text)
  pub authorization : Text
  pub anchor_mailbox : Text

-- The three implementations of `ewsAuth`.
pub data EwsAuth : Type 0 where
  basic_auth : Text → Text → EwsAuth
  ntlm_auth : Text → Text → EwsAuth
  oauth_auth : Text → Text → EwsAuth

-- The password is set as Basic for NTLM too: the transport turns it into the handshake. The last
-- argument is the client id, the first the token endpoint.
unfoldable pub authorize :
    EwsAuth → Time → Time → Result HttpReply → Text → OauthAuth → Result Headers × OauthAuth
unfolding token
authorize (basic_auth user pass) now then_now reply impersonate a =
    (ok (record { basic_auth = some (user, pass); authorization = []; anchor_mailbox = [] }), a)
authorize (ntlm_auth user pass) now then_now reply impersonate a =
    (ok (record { basic_auth = some (user, pass); authorization = []; anchor_mailbox = [] }), a)
authorize (oauth_auth token_url client_id) now then_now reply impersonate a =
    let (got, a') = token token_url now then_now reply a in
    elim got [
      | err why ↦ (err why, a')
      | ok tok ↦ (
        ok (record {
          basic_auth = none;
          authorization = text "Bearer " ++ tok;
          anchor_mailbox = impersonate;
        }),
        a',
      )
    ]

-- Only an OAuth2 token can have been stale.
unfoldable pub is_rejected : EwsAuth → Text → OauthAuth → Bool × OauthAuth
unfolding rejected
is_rejected (basic_auth user pass) authorization a = (false, a)
is_rejected (ntlm_auth user pass) authorization a = (false, a)
is_rejected (oauth_auth token_url client_id) authorization a = rejected authorization a

unfoldable pub who : EwsAuth → Text
who (basic_auth user pass) = text "basic " ++ user
who (ntlm_auth user pass) = text "ntlm " ++ user
who (oauth_auth token_url client_id) = text "oauth2 app " ++ client_id
