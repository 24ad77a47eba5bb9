-- ===== src/Syncer/Errors.antt =====
-- `isConnErr` of internal/syncer/syncer.go: which errors are a lost connection.
use imapsync.Base.{ℕ, ◌≡◌, Bool, true, ◌||◌, List, [], ◌∷◌, ◌++◌, any, arith, list_eq, nat_eq}
use imapsync.Base.Text.{Text, text, index, contains_text}
use imapsync.Base.Result.{Error, wrap}

abbrev lost_connection_texts : List Text
lost_connection_texts =
    text "connection reset"
    ∷ text "broken pipe"
    ∷ text "use of closed"
    ∷ text "connection closed"
    ∷ text "connection refused"
    ∷ text "unexpected EOF"
    ∷ text "i/o timeout"
    ∷ text "TLS handshake"
    ∷ text "imap: connection closed"
    ∷ []

unfoldable pub is_conn_err : Error → Bool
is_conn_err e = e.is_eof || e.is_net || any (contains_text e.message) lost_connection_texts

contains_text-cons :
    (c : ℕ) (s sub : Text) → contains_text s sub ≡ true → contains_text (c ∷ s) sub ≡ true
unfolding contains_text index
contains_text-cons c s sub h = ground arith

contains_text-append :
    (before s sub : Text) → contains_text s sub ≡ true → contains_text (before ++ s) sub ≡ true
contains_text-append [] s sub h = h
contains_text-append (c ∷ before) s sub h =
    contains_text-cons c (before ++ s) sub (contains_text-append before s sub h)

any-contains_text :
    (before s : Text) (subs : List Text)
    → any (contains_text s) subs ≡ true
    → any (contains_text (before ++ s)) subs ≡ true
any-contains_text before s [] h = h
any-contains_text before s (sub ∷ subs) h =
    ground (arith, contains_text-append before s sub, any-contains_text before s subs)

-- Context that is put around an error never hides that the connection was lost.
pub is_conn_err-wrap :
    (context : Text) (e : Error) → is_conn_err e ≡ true → is_conn_err (wrap context e) ≡ true
unfolding is_conn_err
is_conn_err-wrap context e h =
    ground (arith, any-contains_text context e.message lost_connection_texts)
