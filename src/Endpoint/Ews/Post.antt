-- ===== src/Endpoint/Ews/Post.antt =====
-- `ewsClient.post` of internal/endpoint/ews.go, and `call` with it: one authorized request, and the
-- second try after a 401.
use imapsync.Base.{
  ℕ, Bool, false, ◌&&◌, not, Option, none, some, List, [], ◌∷◌, ◌++◌, ◌==◌, list_eq, nat_eq,
  if◌then◌else◌,
}
use imapsync.Base.Int.{int_ltb}
use imapsync.Base.Text.{Text, text, is_empty}
use imapsync.Base.Time.{Time}
use imapsync.Base.Result.{Error, Result, ok, err, wrap}
use imapsync.Endpoint.Ews.Soap.{Service, State, answer_of}
use imapsync.Endpoint.Ews.Auth.{
  HttpReply, OauthAuth, EwsAuth, basic_auth, ntlm_auth, oauth_auth, Headers, authorize, is_rejected,
}

-- net/http and the clock: a request to the token endpoint, a request to the server, and the error of
-- `http.NewRequestWithContext`.
pub record Http : Type 1 where
  pub Net : Type 0
  pub now : Net → Time
  pub ask_token : Net → Result HttpReply × Net
  pub do_request : Headers → Text → Net → Result (ℕ × Text) × Net
  pub bad_request : Option Error

-- Whether `authorize` asks the token endpoint: only OAuth2 does, without a token that is good.
unfoldable pub asks_token : EwsAuth → Time → OauthAuth → Bool
asks_token (basic_auth user pass) now a = false
asks_token (ntlm_auth user pass) now a = false
asks_token (oauth_auth token_url client_id) now a = not (not (is_empty a.tok) && int_ltb now a.exp)

-- What a client has: the cached token, the network, and the headers of the requests that were sent.
pub record Conn (H : Http) : Type 0 where
  pub auth : OauthAuth
  pub net : H.Net
  pub sent : List Headers

module _ (H : Http) (scheme : EwsAuth) (url impersonate : Text) where
  because : Error → Error
  because why = wrap (text "EWS " ++ (url ++ text ": ")) why

  -- `c.auth.authorize`
  unfoldable pub set_headers : Conn H → Result Headers × Conn H
  unfolding asks_token authorize
  set_headers c =
      let (reply, net) = H.ask_token c.net in
      let (headers, auth) = authorize scheme (H.now c.net) (H.now net) reply impersonate c.auth in
      (
        headers,
        record c {
          auth = auth;
          net = if asks_token scheme (H.now c.net) c.auth then net else c.net;
        },
      )

  -- `c.http.Do` with what follows it.
  unfoldable pub send : Headers → Text → Conn H → Result (ℕ × Text × Bool) × Conn H
  unfolding because is_rejected
  send h env c =
      let (response, net) = H.do_request h env c.net in
      let (retry, auth) = is_rejected scheme h.authorization c.auth in
      let c' : Conn H = record c { net = net; sent = c.sent ++ (h ∷ []) } in
      elim response [
        | err why ↦ (err (because why), c')
        | ok (status, content) ↦
            if status == 401
            then (ok (status, content, retry), record c' { auth = auth })
            else (ok (status, content, false), c')
      ]

  -- The request, once there are headers.
  unfoldable pub sending : Text → Result Headers × Conn H → Result (ℕ × Text × Bool) × Conn H
  unfolding because send
  sending env (err why, c) = (err (because why), c)
  sending env (ok h, c) = send h env c

  unfoldable pub post : Text → Conn H → Result (ℕ × Text × Bool) × Conn H
  unfolding set_headers sending
  post env c = elim H.bad_request [ some why ↦ (err why, c) | none ↦ sending env (set_headers c) ]

-- The service whose `post` this is.
abbrev pub with_post : Service → Http → EwsAuth → Service
with_post V H scheme = record V { S = Conn H; post = post H scheme V.url V.impersonate }

-- What `call` makes of its second try.
abbrev pub answered :
    {V : Service} → State V → Result (ℕ × Text × Bool) × V.S → Result Text × State V
answered s (err why, conn) = (err why, record s { conn = conn })
answered s (ok answer, conn) = (answer_of s answer, record s { conn = conn })

module _ (H : Http) (V : Service) (token_url client_id : Text) (body : Text)
    (s : State (with_post V H (oauth_auth token_url client_id))) where
  -- After a 401 the token that was used is dropped.
  abbrev pub dropped : Headers → Conn H → H.Net → Conn H
  dropped h c net = record {
    auth = record (c.auth) { tok = [] };
    net = net;
    sent = c.sent ++ (h ∷ []);
  }
