-- ===== src/Endpoint/Backends/Buildable.antt =====
-- A server that was validated can be built.
use imapsync.Base.{ℕ, ◌≡◌, refl, Bool, not, Option, none, some, list_eq, nat_eq, arith}
use imapsync.Base.Int.{ℤ}
use imapsync.Base.Text.{Text}
use imapsync.Config.{Server}
use imapsync.Config.Servers.{
  unknown, kind, check_kind, check_range, validate_server, parse_tls_version, is_blank,
}
use imapsync.Config.Checked.{first_error-none, after_kind}
use imapsync.Endpoint.Backends.{Backend, new_backend, TlsConfig, tls_config}

known_type : (s : Server) → check_kind (kind s.type) s ≡ none → (kind s.type ≡ unknown → ⊥)
unfolding check_kind
known_type s h e = ground (arith, e, h)

-- Only an unknown type has no backend.
new_backend-none :
    (fetch_batch : ℤ) (s : Server) → new_backend fetch_batch s ≡ none → kind s.type ≡ unknown
unfolding new_backend kind
new_backend-none fetch_batch s h = ground (arith, h)

new_backend_known :
    (fetch_batch : ℤ) (s : Server)
    → (kind s.type ≡ unknown → ⊥)
    → (b : Backend) × (new_backend fetch_batch s ≡ some b)
new_backend_known fetch_batch s known = go (new_backend fetch_batch s) refl
  where
    go :
        (built : Option Backend)
        → new_backend fetch_batch s ≡ built
        → (b : Backend) × (new_backend fetch_batch s ≡ some b)
    go none e = absurd (known (new_backend-none fetch_batch s e))
    go (some b) e = (b, e)

module _ (lower : ℕ → ℕ) (load_ca : Text → Bool) where
  tls_config-check_range :
      (insecure : Bool) (s : Server) (low high : Option ℕ)
      → parse_tls_version lower load_ca s.min_tls_version ≡ low
      → parse_tls_version lower load_ca s.max_tls_version ≡ high
      → check_range lower load_ca s low high ≡ none
      → (cfg : TlsConfig) × (tls_config lower load_ca insecure s ≡ some cfg)
  unfolding tls_config check_range
  tls_config-check_range insecure s none high e e' h = cc
  tls_config-check_range insecure s (some min) none e e' h = cc
  tls_config-check_range insecure s (some min) (some max) e e' h = (
    record {
      server_name = s.host;
      insecure_skip_verify = insecure;
      min_version = min;
      max_version = max;
      has_root_cas = not (is_blank s.ca_cert);
    },
    ground (arith, e, e', h),
  )

  -- For a server that was validated, NewBackend builds a backend and TLSConfig a configuration,
  -- where the certificate can be loaded again.
  pub validate_server_buildable :
      (fetch_batch : ℤ) (insecure : Bool) (s : Server)
      → validate_server lower load_ca s ≡ none
      → ((b : Backend) × (new_backend fetch_batch s ≡ some b))
        × ((cfg : TlsConfig) × (tls_config lower load_ca insecure s ≡ some cfg))
  unfolding validate_server
  validate_server_buildable fetch_batch insecure s h = (
    new_backend_known fetch_batch s (known_type s (first_error-none _ _ h).0),
    tls_config-check_range insecure s _ _ refl refl (after_kind lower load_ca s h),
  )
