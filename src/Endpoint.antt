-- ===== src/Endpoint.antt =====
-- internal/endpoint/endpoint.go: the interface of a sync endpoint, and the header that is put in
-- front of a copied body.
pub mod Backends
pub mod Ews
pub mod Pst
pub mod Imap
pub mod Maildir
use imapsync.Base.{ℕ, ◌+◌, Bool, Option, List, ◌++◌, if◌then◌else◌, length}
use imapsync.Base.Text.{Text, text}
use imapsync.Base.Result.{Result}
use imapsync.Base.Time.{Time}
use imapsync.Mailbox.Message.{Mail, has_header, crlf}

pub record Message : Type 0 where
  pub id : Text
  pub flags : List Text
  pub internal_date : Time
  pub size : ℕ  -- uint32
  pub header : Text

-- A body with a known length. `buffered` is a `*bytes.Buffer`, whose bytes can be looked at
-- without reading them; `streamed` is any other reader.
pub data Literal : Type 0 where
  buffered : Text → Literal
  streamed : Text → ℕ → Literal

-- What a reader of the whole literal gets, and the length that it announces.
abbrev pub bytes : Literal → Text
bytes (buffered b) = b
bytes (streamed b n) = b

abbrev pub len : Literal → ℕ
len (buffered b) = length b
len (streamed b n) = n

-- One side's open session. An operation returns the session's new state beside its result.
pub record Endpoint : Type 1 where
  pub State : Type 0
  pub select : Text → State → Result (Text × Text) × State
  pub list_ids : State → Result (List Text) × State
  pub fetch_meta : Option (List Text) → State → Result (List Message) × State
  pub open_message : Text → State → Result Literal × State
  pub append : List Text → Time → Literal → State → Result Text × State
  pub read_only : Bool

pub record FolderInfo : Type 0 where
  pub name : Text
  pub special_use : Text
  pub selectable : Bool

abbrev header_line : Text → Text → Text
header_line name value = name ++ (text ": " ++ (value ++ crlf))

module _ (m : Mail) where
  -- `WithHeader`: only a buffer is looked at for a header that is there already.
  unfoldable pub with_header : Literal → Text → Text → Literal
  with_header (buffered b) name value =
      let hdr = header_line name value in
      if has_header m b name then buffered b else streamed (hdr ++ b) (length hdr + length b)
  with_header (streamed b n) name value =
      let hdr = header_line name value in streamed (hdr ++ b) (length hdr + n)
