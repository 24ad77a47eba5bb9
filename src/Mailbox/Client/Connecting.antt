-- ===== src/Mailbox/Client/Connecting.antt =====
-- `Connect`, `watch` and `Logout` of internal/mailbox/client.go.
use imapsync.Base.{
  ◌⊎◌, inl, inr, ℕ, suc, ◌≡◌, refl, ◌∙◌, Bool, true, false, List, ◌++◌, if◌then◌else◌,
}
use imapsync.Base.Text.{Text, text}
use imapsync.Base.Result.{Error, Result, ok, err, wrap}
use imapsync.Config.{Server}
use imapsync.Endpoint.Backends.{addr}

-- go-imap and the network below it. `live` is the number of connections that were made and not
-- closed; a connection is counted from the call that gives it to the first one that closes it. A
-- LOGOUT that succeeds closes its connection; one that fails may leave it.
pub record Dialer : Type 1 where
  pub Tls : Type 0
  pub Conn : Type 0
  pub Net : Type 0
  pub live : Net → ℕ
  pub dial : Text → Tls → Net → Result Conn × Net
  pub capability : Conn → Net → Result (List Text) × Net
  pub authenticate : Conn → Text → Text → Text → Net → Result (Unit {0}) × Net
  pub logout : Conn → Net → Result (Unit {0}) × Net
  pub dial_ok :
      (a : Text) (t : Tls) (n n' : Net) (c : Conn)
      → dial a t n ≡ (ok c, n')
      → (live n' ≡ suc (live n))
        × ((m m' : Net) → live m ≡ suc (live n) → logout c m ≡ (ok tt, m') → live m' ≡ live n)
  pub dial_err :
      (a : Text) (t : Tls) (n n' : Net) (e : Error) → dial a t n ≡ (err e, n') → live n' ≡ live n
  pub live_capability : (c : Conn) (n : Net) → live (capability c n).1 ≡ live n
  pub live_authenticate :
      (c : Conn) (z u p : Text) (n : Net) → live (authenticate c z u p n).1 ≡ live n

module _ (D : Dialer) where
  -- `connecting to %s (user %s): `
  abbrev connecting : Server → Text → Text
  connecting srv user =
      text "connecting to " ++ (addr srv ++ (text " (user " ++ (user ++ text "): ")))

  abbrev impersonating : Server → Text → Text
  impersonating srv user =
      text "impersonating "
      ++ (user
          ++ (text " on " ++ (addr srv ++ (text " via master " ++ (srv.master_user ++ text ": ")))))

  -- SASL PLAIN with the target user as authzid; a refused connection is logged out, and the error
  -- of the logout ignored.
  unfoldable pub log_in : Server → Text → D.Conn → D.Net → Result D.Conn × D.Net
  log_in srv user c n =
      let (outcome, n') = D.authenticate c user srv.master_user srv.master_pass n in
      elim outcome [
        | err e ↦ (err (wrap (impersonating srv user) e), (D.logout c n').1)
        | ok _ ↦ (ok c, n')
      ]

  -- `tls` is what TLSConfig gives. With `debug` the capabilities are asked for, and logged.
  unfoldable pub connect : Result D.Tls → Server → Text → Bool → D.Net → Result D.Conn × D.Net
  unfolding log_in
  connect (err e) srv user debug n = (err (wrap (connecting srv user) e), n)
  connect (ok tls) srv user debug n =
      let (dialed, n1) = D.dial (addr srv) tls n in
      elim dialed [
        | err e ↦ (err (wrap (connecting srv user) e), n1)
        | ok c ↦ log_in srv user c (if debug then (D.capability c n1).1 else n1)
      ]

  -- The connection that was live beside those before was logged out, which failed.
  abbrev pub IsLogoutFailed : ℕ → D.Net → Type 0
  IsLogoutFailed before n =
      (c : D.Conn) × (m : D.Net) × (why : Error) × (D.live m ≡ suc before)
      × (D.logout c m ≡ (err why, n))

  -- The connections that are live after an outcome: one more if it is a connection, and as many as
  -- before if it is an error, unless a LOGOUT failed.
  abbrev pub Accounted : ℕ → Result D.Conn × D.Net → Type 0
  Accounted before (ok c, n) = D.live n ≡ suc before
  Accounted before (err e, n) = (D.live n ≡ before) ⊎ IsLogoutFailed before n

  logged_out :
      (c : D.Conn) (before : ℕ) (n : D.Net)
      → D.live n ≡ suc before
      → ((m m' : D.Net) → D.live m ≡ suc before → D.logout c m ≡ (ok tt, m') → D.live m' ≡ before)
      → (D.live (D.logout c n).1 ≡ before) ⊎ IsLogoutFailed before (D.logout c n).1
  logged_out c before n one closes = go (D.logout c n) refl
    where
      go :
          (p : Result (Unit {0}) × D.Net)
          → D.logout c n ≡ p
          → (D.live p.1 ≡ before) ⊎ IsLogoutFailed before p.1
      go (ok _, n') e = inl (closes n n' one e)
      go (err why, n') e = inr (c, n, why, one, e)

  log_in-Accounted :
      (srv : Server) (user : Text) (c : D.Conn) (before : ℕ) (n : D.Net)
      → D.live n ≡ suc before
      → ((m m' : D.Net) → D.live m ≡ suc before → D.logout c m ≡ (ok tt, m') → D.live m' ≡ before)
      → Accounted before (log_in srv user c n)
  unfolding log_in
  log_in-Accounted srv user c before n one closes =
      go (D.authenticate c user srv.master_user srv.master_pass n).0
        (D.live_authenticate c user srv.master_user srv.master_pass n ∙ one)
    where
      n' : D.Net
      n' = (D.authenticate c user srv.master_user srv.master_pass n).1

      go :
          (r : Result (Unit {0}))
          → D.live n' ≡ suc before
          → Accounted before (elim r as (λ _. Result D.Conn × D.Net) [
            | err e ↦ (err (wrap (impersonating srv user) e), (D.logout c n').1)
            | ok _ ↦ (ok c, n')
          ])
      go (err e) h = logged_out c before n' h closes
      go (ok _) h = h

  -- `Connect` leaves no connection behind: one more is live if it returns one, and as many as before
  -- if it returns an error, whichever step fails, unless it is the LOGOUT after a refused login.
  pub connect-Accounted :
      (tls : Result D.Tls) (srv : Server) (user : Text) (debug : Bool) (n : D.Net)
      → Accounted (D.live n) (connect tls srv user debug n)
  unfolding connect
  connect-Accounted (err e) srv user debug n = inl refl
  connect-Accounted (ok tls) srv user debug n = go (D.dial (addr srv) tls n) refl debug
    where
      go :
          (dialed : Result D.Conn × D.Net)
          → D.dial (addr srv) tls n ≡ dialed
          → (b : Bool)
          → Accounted (D.live n) (elim dialed.0 as (λ _. Result D.Conn × D.Net) [
            | err e ↦ (err (wrap (connecting srv user) e), dialed.1)
            | ok c ↦ log_in srv user c (if b then (D.capability c dialed.1).1 else dialed.1)
          ])
      go (err e, n1) e1 b = inl (D.dial_err (addr srv) tls n n1 e e1)
      go (ok c, n1) e1 true =
          let (one, closes) = D.dial_ok (addr srv) tls n n1 c e1 in
          log_in-Accounted srv user c (D.live n) (D.capability c n1).1
            (D.live_capability c n1 ∙ one) closes
      go (ok c, n1) e1 false =
          let (one, closes) = D.dial_ok (addr srv) tls n n1 c e1 in
          log_in-Accounted srv user c (D.live n) n1 one closes
