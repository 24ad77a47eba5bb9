-- ===== src/Config.antt =====
-- config/config.go: the configuration, its defaults and its validation. YAML and the PEM file are
-- read outside the model.
pub mod Defaults
pub mod Servers
pub mod Validate
pub mod Checked
pub mod Load
use imapsync.Base.{Bool, ◌||◌, not, List, ◌==◌, list_eq, nat_eq, if◌then◌else◌}
use imapsync.Base.Int.{ℤ}
use imapsync.Base.Text.{Text, text, is_empty}

pub record Server : Type 0 where
  pub type : Text
  pub host : Text
  pub port : ℤ
  pub master_user : Text
  pub master_pass : Text
  pub root : Text
  pub ews_url : Text
  pub min_tls_version : Text
  pub max_tls_version : Text
  pub ca_cert : Text
  pub ews_auth : Text
  pub oauth_tenant : Text
  pub oauth_client_id : Text
  pub oauth_client_secret : Text
  pub oauth_token_url : Text
  pub oauth_scope : Text

pub record FolderPair : Type 0 where
  pub a : Text
  pub b : Text

pub record User : Type 0 where
  pub name : Text
  pub user_a : Text
  pub user_b : Text
  pub path_a : Text
  pub path_b : Text

-- A duration is its number of nanoseconds.
pub record Config : Type 0 where
  pub server_a : Server
  pub server_b : Server
  pub source : Text
  pub sqlite_path : Text
  pub folders : List FolderPair
  pub users : List User
  pub sync_all_folders : Bool
  pub folder_exclude : List Text
  pub workers : ℤ
  pub sync_interval : ℤ
  pub stats_interval : ℤ
  pub per_user_timeout : ℤ
  pub dial_timeout : ℤ
  pub io_timeout : ℤ
  pub fetch_batch_size : ℤ
  pub insecure_tls : Bool
  pub debug : Bool
  pub connect_retries : ℤ
  pub retry_backoff : ℤ
  pub full_resync_every : ℤ
  pub max_fail_streak : ℤ
  pub hash_header : Text
  pub state_cache : Bool
  pub direction : Text

abbrev pub endpoint_imap : Text
endpoint_imap = text "imap"

abbrev pub endpoint_maildir : Text
endpoint_maildir = text "maildir"

abbrev pub endpoint_ews : Text
endpoint_ews = text "ews"

abbrev pub endpoint_pst : Text
endpoint_pst = text "pst"

abbrev pub source_yaml : Text
source_yaml = text "yaml"

abbrev pub source_sqlite : Text
source_sqlite = text "sqlite"

abbrev pub direction_both : Text
direction_both = text "both"

abbrev pub direction_a_to_b : Text
direction_a_to_b = text "a-to-b"

abbrev pub direction_b_to_a : Text
direction_b_to_a = text "b-to-a"

pub data Side : Type 0 where
  side_a side_b : Side

-- `ConnectAs`
unfoldable pub connect_as : User → Side → Text
connect_as u side_b = if not (is_empty u.path_b) then u.path_b else u.user_b
connect_as u side_a = if not (is_empty u.path_a) then u.path_a else u.user_a

-- `readOnlyType`, `pathOverridable`, `folderDiscoverable`
unfoldable pub read_only_type : Text → Bool
read_only_type t = t == endpoint_pst

unfoldable pub path_overridable : Text → Bool
path_overridable t = t == endpoint_maildir || t == endpoint_pst

unfoldable pub folder_discoverable : Text → Bool
folder_discoverable t =
    is_empty t || t == endpoint_imap || t == endpoint_maildir || t == endpoint_pst
