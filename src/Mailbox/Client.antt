-- ===== src/Mailbox/Client.antt =====
-- internal/mailbox/client.go: folders, and FETCH in batches, over an IMAP connection. The protocol
-- library is the parameter `Protocol`.
pub mod Connecting
pub mod DebugLog
pub mod Folders
pub mod Fetching
use imapsync.Base.{
  ℕ, ◌+◌, ◌-◌, ◌%◌, ◌^◌, Bool, true, false, Option, none, some, List, [], ◌∷◌, ◌++◌, ◌==◌, list_eq,
  nat_eq, if◌then◌else◌,
}
use imapsync.Base.Text.{Text, text}
use imapsync.Base.Time.{Time}
use imapsync.Base.Result.{Error, Result, ok, err}
use imapsync.Endpoint.{Literal}

-- What the program reads of `imap.MailboxInfo`, `imap.MailboxStatus` and `imap.Message`.
pub record MailboxInfo : Type 0 where
  pub name : Text
  pub delimiter : Text
  pub attributes : List Text

pub record MailboxStatus : Type 0 where
  pub messages : ℕ  -- uint32
  pub uid_validity : ℕ  -- uint32

-- `body` is the header section that the server sent, or the error in reading it.
pub record ImapMessage : Type 0 where
  pub seq_num : ℕ
  pub uid : ℕ
  pub flags : List Text
  pub internal_date : Time
  pub size : ℕ
  pub body : Result (Option Text)

-- The response to APPEND: its code, and its arguments as far as they are numbers.
pub record AppendStatus : Type 0 where
  pub failed : Option Error
  pub code : Text
  pub arguments : List (Option ℕ)

-- The connection: each command with its answer. A FETCH delivers messages, then its outcome.
-- `quote` is `%q`.
pub record Protocol : Type 1 where
  pub S : Type 0
  pub quote : Text → Text
  pub list : S → Result (List MailboxInfo) × S
  pub create : Text → S → Result (Unit {0}) × S
  pub select : Text → S → Result MailboxStatus × S
  pub fetch_range : ℕ → ℕ → S → (List ImapMessage × Option Error) × S
  pub fetch_uids : List ℕ → S → (List ImapMessage × Option Error) × S
  pub fetch_body : ℕ → S → (List (Option Literal) × Option Error) × S
  pub uid_search : S → Result (List ℕ) × S
  pub execute_append : Text → List Text → Time → Literal → S → Result AppendStatus × S

-- `Client`: the connection, for whom it stands, and the cache of LIST (empty for nil).
pub record Client (P : Protocol) : Type 0 where
  pub conn : P.S
  pub server : Text
  pub user : Text
  pub folders : List MailboxInfo

pub record FetchedMessage : Type 0 where
  pub seq_num : ℕ
  pub uid : ℕ
  pub flags : List Text
  pub internal_date : Time
  pub size : ℕ
  pub header : Text

-- ` on %s (user %s)`, and the same before a `: %w`
abbrev pub on_user : {P : Protocol} → Client P → Text
on_user cl = text " on " ++ (cl.server ++ (text " (user " ++ (cl.user ++ text ")")))

abbrev pub on_server : {P : Protocol} → Client P → Text
on_server cl = on_user cl ++ text ": "
