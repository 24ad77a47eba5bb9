-- ===== src/Store/Tables.antt =====
-- The schema in internal/store/store.go and internal/store/state.go.
use imapsync.Base.{ℕ, Bool, Option, none, some, List, []}
use imapsync.Base.Int.{ℤ}
use imapsync.Base.Text.{Text}
use imapsync.Base.Dict.{Dict}
use imapsync.Base.Result.{Error, Result, err, wrap}
use imapsync.Config.{FolderPair}

pub record UserRow : Type 0 where
  pub user_a : Text
  pub user_b : Text
  pub path_a : Text
  pub path_b : Text
  pub enabled : Bool

pub record EndpointRow : Type 0 where
  pub validity : Text
  pub full_resync_at : ℤ
  pub updated_at : ℤ

pub record MsgRow : Type 0 where
  pub msgid : Text
  pub xhash : Text
  pub surrogate : Text
  pub internaldate : ℤ
  pub flags : Text

pub record StatusRow : Type 0 where
  pub last_run_at : ℤ
  pub last_ok_at : ℤ
  pub status : Text
  pub copied_a_b : ℕ
  pub copied_b_a : ℕ
  pub skipped_dup : ℕ
  pub errors : ℕ
  pub last_error : Text
  pub fail_since : ℤ
  pub fail_streak : ℕ

pub record RunRow : Type 0 where
  pub status : Text
  pub copied_a_b : ℕ
  pub copied_b_a : ℕ
  pub skipped_dup : ℕ
  pub errors : ℕ
  pub last_error : Text

-- The primary key of `sync_endpoint`: user, pair, side.
abbrev pub Scope : Type 0
Scope = Text × (Text × Text)

pub record Store : Type 0 where
  pub users : Dict Text UserRow
  pub folder_pairs : List FolderPair
  pub sync_endpoint : Dict Scope EndpointRow
  pub sync_msg_cache : Dict (Scope × Text) MsgRow
  pub user_status : Dict Text StatusRow
  pub user_run : Dict (Text × ℤ) RunRow

-- `if err != nil { return fmt.Errorf("…: %w", err) }` around the statements of an operation.
abbrev pub statement {ℓ} :
    {A : Type ℓ} → Option Error → Text → Result A × Store → Store → Result A × Store
statement none context after s = after
statement (some e) context after s = (err (wrap context e), s)

-- The tables that `Open` creates in an empty file.
abbrev pub new_store : Store
new_store = record {
  users = [];
  folder_pairs = [];
  sync_endpoint = [];
  sync_msg_cache = [];
  user_status = [];
  user_run = [];
}
