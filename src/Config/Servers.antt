-- ===== src/Config/Servers.antt =====
-- `validateServer`, `validateEWSAuth` and `ParseTLSVersion` of config/config.go.
use imapsync.Base.{
  ℕ, Bool, true, false, ◌&&◌, ◌||◌, not, Option, none, some, map, ◌==◌, ◌!=◌, list_eq, nat_eq, ltb,
  if◌then◌else◌,
}
use imapsync.Base.Int.{pos, int_ltb}
use imapsync.Base.Text.{Text, text, is_empty, trim_space}
use imapsync.Config.{Server, endpoint_imap, endpoint_maildir, endpoint_ews, endpoint_pst}

-- The reasons for which a server is refused.
pub data ServerError : Type 0 where
  host_not_set invalid_port master_user_not_set master_pass_not_set : ServerError
  maildir_root_not_set pst_root_not_set ews_url_or_host_required : ServerError
  oauth_without_oauth2 ews_master_required oauth_client_required oauth_tenant_required : ServerError
  ews_auth_not_supported type_not_supported ews_only : ServerError
  min_tls_invalid max_tls_invalid tls_range ca_cert_invalid : ServerError

-- `if failed { return why }; rest`
abbrev pub refuse {ℓ} : {E : Type ℓ} → Bool → E → Option E → Option E
refuse true why rest = some why
refuse false why rest = rest

-- `if err := first; err != nil { return err }; rest`
abbrev pub first_error {ℓ} : {E : Type ℓ} → Option E → Option E → Option E
first_error (some why) rest = some why
first_error none rest = rest

-- `strings.TrimSpace(s) == ""`
unfoldable pub is_blank : Text → Bool
is_blank s = is_empty (trim_space s)

unfoldable pub has_oauth : Server → Bool
has_oauth s =
    not (is_empty s.oauth_tenant)
    || not (is_empty s.oauth_client_id)
    || not (is_empty s.oauth_client_secret)
    || not (is_empty s.oauth_token_url)
    || not (is_empty s.oauth_scope)

pub data Scheme : Type 0 where
  master oauth2 other : Scheme

unfoldable pub scheme : Text → Scheme
scheme t =
    if is_empty t || t == text "basic" || t == text "ntlm"
    then master
    else if t == text "oauth2"
    then oauth2
    else other

unfoldable pub check_scheme : Scheme → Server → Option ServerError
check_scheme master s =
    refuse (has_oauth s) oauth_without_oauth2
      (refuse (is_blank s.master_user || is_blank s.master_pass) ews_master_required none)
check_scheme oauth2 s =
    refuse (is_blank s.oauth_client_id || is_blank s.oauth_client_secret) oauth_client_required
      (refuse (is_blank s.oauth_tenant && is_blank s.oauth_token_url) oauth_tenant_required none)
check_scheme other s = some ews_auth_not_supported

unfoldable pub validate_ews_auth : Server → Option ServerError
validate_ews_auth s = check_scheme (scheme s.ews_auth) s

-- The cases of the `switch` on the type.
pub data Kind : Type 0 where
  imap maildir pst ews unknown : Kind

unfoldable pub kind : Text → Kind
kind t =
    if is_empty t || t == endpoint_imap
    then imap
    else if t == endpoint_maildir
    then maildir
    else if t == endpoint_pst
    then pst
    else if t == endpoint_ews
    then ews
    else unknown

unfoldable pub check_kind : Kind → Server → Option ServerError
check_kind imap s = refuse (is_blank s.host) host_not_set (
    refuse (int_ltb s.port (pos 1) || int_ltb (pos 65535) s.port) invalid_port (
      refuse (is_blank s.master_user) master_user_not_set
        (refuse (is_blank s.master_pass) master_pass_not_set none)))
check_kind maildir s = refuse (is_blank s.root) maildir_root_not_set none
check_kind pst s = refuse (is_blank s.root) pst_root_not_set none
check_kind ews s =
    refuse (is_blank s.ews_url && is_blank s.host) ews_url_or_host_required (validate_ews_auth s)
check_kind unknown s = some type_not_supported

-- A version constant of crypto/tls; 0 stands for "no bound", and `none` for an error.
unfoldable pub version_of : Text → Option ℕ
version_of s =
    if is_empty s
    then some 0
    else if s == text "1.0" || s == text "tls1.0" || s == text "tls1"
    then some 0x0301
    else if s == text "1.1" || s == text "tls1.1"
    then some 0x0302
    else if s == text "1.2" || s == text "tls1.2"
    then some 0x0303
    else if s == text "1.3" || s == text "tls1.3"
    then some 0x0304
    else none

-- `lower` is `unicode.ToLower`. `load_ca` says whether `loadCACertPool` succeeds.
module _ (lower : ℕ → ℕ) (load_ca : Text → Bool) where
  unfoldable pub parse_tls_version : Text → Option ℕ
  parse_tls_version raw = version_of (map lower (trim_space raw))

  unfoldable pub check_range : Server → Option ℕ → Option ℕ → Option ServerError
  check_range s none max = some min_tls_invalid
  check_range s (some min) none = some max_tls_invalid
  check_range s (some min) (some max) =
      refuse (min != 0 && max != 0 && ltb max min) tls_range
        (refuse (not (is_blank s.ca_cert) && not (load_ca s.ca_cert)) ca_cert_invalid none)

  unfoldable pub validate_server : Server → Option ServerError
  validate_server s = first_error (check_kind (kind s.type) s) (
      refuse (s.type != endpoint_ews && (not (is_empty s.ews_auth) || has_oauth s)) ews_only
        (check_range s (parse_tls_version s.min_tls_version) (parse_tls_version s.max_tls_version)))
