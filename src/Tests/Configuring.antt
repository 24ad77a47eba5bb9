-- ===== src/Tests/Configuring.antt =====
-- The theorems on the configuration at a concrete configuration.
use imapsync.Base.{
  ℕ, ◌≤◌, ◌≡◌, refl, ◌⊎◌, Bool, true, false, some, [], ◌∷◌, list_eq, nat_eq, length, All,
  IsDistinct,
}
use imapsync.Base.Int.{pos, int_ltb}
use imapsync.Base.Text.{Text, text, trim_space}
use imapsync.Config.{
  Server, FolderPair, User, Config, direction_both, source_yaml, path_overridable,
}
use imapsync.Endpoint.Backends.{Backend, new_backend, TlsConfig, tls_config}
use imapsync.Endpoint.Backends.Buildable.{validate_server_buildable}
use imapsync.Config.Servers.{
  validate_server, parse_tls_version, is_blank, has_oauth, check_range, version_of, check_kind,
  kind,
}
use imapsync.Config.Validate.{validate_entities, check_users, check_user, check_folders}
use imapsync.Config.Checked.{IsUsable, names, validate_entities_sound}

abbrev pub server : Server
server = record {
  type = text "imap";
  host = text "h";
  port = pos 993;
  master_user = text "m";
  master_pass = text "p";
  root = [];
  ews_url = [];
  min_tls_version = text "1.2";
  max_tls_version = [];
  ca_cert = [];
  ews_auth = [];
  oauth_tenant = [];
  oauth_client_id = [];
  oauth_client_secret = [];
  oauth_token_url = [];
  oauth_scope = [];
}

abbrev ann : User
ann = record { name = text "ann"; user_a = text "a"; user_b = text "b"; path_a = []; path_b = [] }

abbrev inbox : FolderPair
inbox = record { a = text "INBOX"; b = text "INBOX" }

abbrev pub config : Config
config = record {
  server_a = server;
  server_b = server;
  source = source_yaml;
  sqlite_path = text "s.db";
  folders = inbox ∷ [];
  users = ann ∷ [];
  sync_all_folders = false;
  folder_exclude = [];
  workers = pos 1;
  sync_interval = pos 1;
  stats_interval = pos 1;
  per_user_timeout = pos 1;
  dial_timeout = pos 1;
  io_timeout = pos 1;
  fetch_batch_size = pos 1;
  insecure_tls = false;
  debug = false;
  connect_retries = pos 0;
  retry_backoff = pos 1;
  full_resync_every = pos 0;
  max_fail_streak = pos 0;
  hash_header = text "X-Hash";
  state_cache = true;
  direction = direction_both;
}

abbrev lower : ℕ → ℕ
lower c = c

abbrev load_ca : Text → Bool
load_ca path = true

validate_entities_sound_example :
    All (λ f. (is_blank f.a ≡ false) × (is_blank f.b ≡ false)) config.folders
    × All (IsUsable config) config.users
    × IsDistinct (names config config.users)
    × (1 ≤ length config.users)
    × ((length config.users ≡ 1) ⊎ (int_ltb config.workers (pos (length config.users)) ≡ true))
    × ((1 ≤ length config.folders) ⊎ (config.sync_all_folders ≡ true))
unfolding validate_entities check_users check_user check_folders path_overridable list_eq is_blank
    trim_space
validate_entities_sound_example = validate_entities_sound config refl

validate_server_buildable_example :
    ((b : Backend) × (new_backend (pos 200) server ≡ some b))
    × ((cfg : TlsConfig) × (tls_config lower load_ca false server ≡ some cfg))
unfolding validate_server list_eq is_blank trim_space has_oauth check_range parse_tls_version
    version_of check_kind kind
validate_server_buildable_example =
    validate_server_buildable lower load_ca (pos 200) false server refl
