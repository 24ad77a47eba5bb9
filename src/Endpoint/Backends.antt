-- ===== src/Endpoint/Backends.antt =====
-- What is built from a server's configuration: `NewBackend` of internal/endpoint/endpoint.go, and
-- `TLSConfig` and `Addr` of config/config.go.
pub mod Buildable
use imapsync.Base.{
  ℕ, ◌+◌, Bool, true, false, ◌||◌, ◌&&◌, not, Option, none, some, ◌++◌, ◌∷◌, ◌==◌, list_eq, nat_eq,
  if◌then◌else◌,
}
use imapsync.Base.Int.{ℤ, pos, int_ltb}
use imapsync.Base.Text.{Text, text, is_empty, trim_space}
use imapsync.Base.Time.{decimal}
use imapsync.Config.{Server, endpoint_imap, endpoint_maildir, endpoint_ews, endpoint_pst}
use imapsync.Config.Servers.{is_blank, parse_tls_version}

-- What a backend is built with.
pub data Backend : Type 0 where
  imap_backend : Server → ℤ → Backend
  maildir_backend : Text → Backend
  ews_backend : Server → Text → ℤ → Backend
  pst_backend : Text → Backend

-- `newEWSBackend`
unfoldable pub new_ews_backend : Server → ℤ → Backend
new_ews_backend s batch =
    let given = trim_space s.ews_url in
    let url =
      if is_empty given then text "https://" ++ (s.host ++ text "/EWS/Exchange.asmx") else given in
    ews_backend s url (if int_ltb batch (pos 1) then pos 50 else batch)

-- `none` is the error of an unknown type.
unfoldable pub new_backend : ℤ → Server → Option Backend
unfolding new_ews_backend
new_backend fetch_batch s =
    if is_empty s.type || s.type == endpoint_imap
    then some (imap_backend s fetch_batch)
    else if s.type == endpoint_maildir
    then some (maildir_backend s.root)
    else if s.type == endpoint_ews
    then some (new_ews_backend s fetch_batch)
    else if s.type == endpoint_pst
    then some (pst_backend s.root)
    else none

unfoldable pub addr : Server → Text
addr s =
    if s.type == endpoint_maildir
    then text "maildir:" ++ s.root
    else if s.type == endpoint_pst
    then text "pst:" ++ s.root
    else if s.type == endpoint_ews
    then (if not (is_empty s.ews_url) then s.ews_url else text "ews:" ++ s.host)
    else s.host ++ (b':' ∷ decimal s.port)

-- The fields of `tls.Config` that are set. `has_root_cas` is whether a pool of its own was loaded.
pub record TlsConfig : Type 0 where
  pub server_name : Text
  pub insecure_skip_verify : Bool
  pub min_version : ℕ
  pub max_version : ℕ
  pub has_root_cas : Bool

-- `lower` and `load_ca` are those of `validateServer`.
module _ (lower : ℕ → ℕ) (load_ca : Text → Bool) where
  -- `none` is an error: a version that cannot be read, or a certificate that cannot be loaded.
  unfoldable pub tls_config : Bool → Server → Option TlsConfig
  tls_config insecure s = elim (parse_tls_version lower load_ca s.min_tls_version) [
    | none ↦ none
    | some min ↦ elim (parse_tls_version lower load_ca s.max_tls_version) [
      | none ↦ none
      | some max ↦
          if not (is_blank s.ca_cert) && not (load_ca s.ca_cert)
          then none
          else some (record {
            server_name = s.host;
            insecure_skip_verify = insecure;
            min_version = min;
            max_version = max;
            has_root_cas = not (is_blank s.ca_cert);
          })
    ]
  ]
