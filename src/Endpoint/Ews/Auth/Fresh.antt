-- ===== src/Endpoint/Ews/Auth/Fresh.antt =====
-- After a 401 the cached token is dropped, so that the next one is fresh.
use imapsync.Base.{
  ℕ, ◌≡◌, refl, ap, ◌∙◌, true, false, Option, none, some, [], ◌∷◌, ◌++◌, list_eq, nat_eq, eq_refl,
  arith, length,
}
use imapsync.Base.Text.{Text, text, is_empty, trim_prefix, drop, has_prefix_self}
use imapsync.Base.Time.{Time}
use imapsync.Base.Result.{Result, ok, err}
use imapsync.Endpoint.Ews.Auth.{
  TokenReply, HttpReply, OauthAuth, fetch, token, rejected, Headers, oauth_auth, authorize,
  is_rejected,
}

-- The token that was fetched.
abbrev pub fetched_token : Result (Text × ℕ) → Result Text
fetched_token (err why) = err why
fetched_token (ok got) = ok got.0

drop-append : (s t : Text) → drop (length s) (s ++ t) ≡ t
drop-append [] t = refl
drop-append (c ∷ s) t = drop-append s t

trim_prefix-append : (s t : Text) → trim_prefix (s ++ t) s ≡ t
unfolding trim_prefix
trim_prefix-append s t = ground (arith, has_prefix_self s t, drop-append s t)

-- A token that is fetched is not empty.
fetch_some :
    (token_url : Text) (reply : Result HttpReply) (got : Text × ℕ)
    → fetch token_url reply ≡ ok got
    → is_empty got.0 ≡ false
unfolding fetch
fetch_some token_url (err why) got h = cc
fetch_some token_url (ok reply) got h = go reply.parsed refl
  where
    go : (parsed : Option TokenReply) → reply.parsed ≡ parsed → is_empty got.0 ≡ false
    go none e = ground (arith, e, h)
    go (some tr) e = ground (arith, e, h)

module _ (token_url : Text) (now then_now : Time) (reply : Result HttpReply) (a : OauthAuth) where
  -- The token that is given is the one that is kept, and is not empty.
  token_kept :
      (t : Text)
      → (token token_url now then_now reply a).0 ≡ ok t
      → ((token token_url now then_now reply a).1.tok ≡ t) × (is_empty t ≡ false)
  unfolding token
  token_kept t h = go (fetch token_url reply) refl
    where
      go :
          (got : Result (Text × ℕ))
          → fetch token_url reply ≡ got
          → ((token token_url now then_now reply a).1.tok ≡ t) × (is_empty t ≡ false)
      go (err why) e = ground (arith, e, h)
      go (ok got) e = ground (arith, e, h, fetch_some token_url reply got e)

-- The header has the token that is kept.
authorized :
    (token_url client_id impersonate : Text) (now then_now : Time) (reply : Result HttpReply)
    (a a' : OauthAuth) (h : Headers)
    → authorize (oauth_auth token_url client_id) now then_now reply impersonate a ≡ (ok h, a')
    → (h.authorization ≡ text "Bearer " ++ a'.tok) × (is_empty a'.tok ≡ false)
unfolding authorize
authorized token_url client_id impersonate now then_now reply a a' h e =
    go (token token_url now then_now reply a).0 refl
  where
    go :
        (got : Result Text)
        → (token token_url now then_now reply a).0 ≡ got
        → (h.authorization ≡ text "Bearer " ++ a'.tok) × (is_empty a'.tok ≡ false)
    go (err why) f = ground (arith, e, f)
    go (ok t) f = ground (arith, e, f, token_kept token_url now then_now reply a t f)

rejected_kept :
    (a : OauthAuth)
    → is_empty a.tok ≡ false
    → rejected (text "Bearer " ++ a.tok) a ≡ (true, record a { tok = [] })
unfolding rejected
rejected_kept a some_token =
    rw (rejected, trim_prefix-append (text "Bearer ") a.tok, some_token, eq_refl a.tok) refl

token_fetched :
    (token_url : Text) (now then_now : Time) (reply : Result HttpReply) (a : OauthAuth)
    → (token token_url now then_now reply (record a { tok = [] })).0
      ≡ fetched_token (fetch token_url reply)
unfolding token
token_fetched token_url now then_now reply a = go (fetch token_url reply) refl
  where
    go :
        (got : Result (Text × ℕ))
        → fetch token_url reply ≡ got
        → (token token_url now then_now reply (record a { tok = [] })).0
          ≡ fetched_token (fetch token_url reply)
    go (err why) e = rw (e, token) refl
    go (ok got) e = rw (e, token) refl

-- The token of an OAuth2 request that is answered with 401 is dropped, which asks for a second try;
-- with the cache empty the same header asks for none, and the next token comes from the endpoint.
pub is_rejected-authorize :
    (token_url client_id impersonate : Text) (now then_now : Time) (reply : Result HttpReply)
    (a a' : OauthAuth) (h : Headers)
    → authorize (oauth_auth token_url client_id) now then_now reply impersonate a ≡ (ok h, a')
    → let dropped = record a' { tok = [] } in
      (is_rejected (oauth_auth token_url client_id) h.authorization a' ≡ (true, dropped))
      × (is_rejected (oauth_auth token_url client_id) h.authorization dropped ≡ (false, dropped))
      × ((later_now : Time) (later_reply : Result HttpReply)
          → (token token_url later_now then_now later_reply dropped).0
            ≡ fetched_token (fetch token_url later_reply))
unfolding is_rejected rejected
is_rejected-authorize token_url client_id impersonate now then_now reply a a' h e =
    let (header, some_token) =
      authorized token_url client_id impersonate now then_now reply a a' h e in
    (
      ap (λ value. rejected value a') header ∙ rejected_kept a' some_token,
      refl,
      λ later_now later_reply. token_fetched token_url later_now then_now later_reply a',
    )
