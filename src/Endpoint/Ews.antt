-- ===== src/Endpoint/Ews.antt =====
-- internal/endpoint/ews.go: Exchange Web Services as a side. This file has the names of folders and
-- the header of an item.
pub mod Soap
pub mod Session
pub mod Paging
pub mod Auth
pub mod Post
use imapsync.Base.{
  ℕ, suc, ◌+◌, Bool, true, false, ◌&&◌, ◌||◌, not, Option, none, some, List, [], ◌∷◌, ◌++◌, ◌==◌,
  list_eq, nat_eq, if◌then◌else◌, map, length, any, ltb,
}
use imapsync.Base.Text.{Text, text, take, is_empty, trim_space, equal_fold}
use imapsync.Base.Dict.{Dict}
use imapsync.Base.Result.{Error, errorf}
use imapsync.Mailbox.Message.{crlf}

-- `oneLine`
unfoldable pub one_line : Text → Text
one_line s = map (λ c. if c == 13 || c == 10 then b' ' else c) (trim_space s)

abbrev token : Text → Text
token name = 92 ∷ name

abbrev pub ews_distinguished : Dict Text Text
ews_distinguished =
    ([], text "inbox")
    ∷ (text "inbox", text "inbox")
    ∷ (text "sent", text "sentitems")
    ∷ (text "sent items", text "sentitems")
    ∷ (token (text "sent"), text "sentitems")
    ∷ (text "drafts", text "drafts")
    ∷ (token (text "drafts"), text "drafts")
    ∷ (text "deleted items", text "deleteditems")
    ∷ (text "trash", text "deleteditems")
    ∷ (token (text "trash"), text "deleteditems")
    ∷ (text "junk email", text "junkemail")
    ∷ (token (text "junk"), text "junkemail")
    ∷ (text "archive", text "archive")
    ∷ (token (text "archive"), text "archive")
    ∷ (text "outbox", text "outbox")
    ∷ []

pub record Header : Type 0 where
  pub name : Text
  pub value : Text

-- `ewsItem`
pub record EwsItem : Type 0 where
  pub item_id : Text
  pub subject : Text
  pub date_time_received : Text
  pub size : ℕ  -- uint32
  pub is_read : Text
  pub is_draft : Text
  pub internet_msg_id : Text
  pub mime_content : Text
  pub headers : List Header

pub record RespMsg : Type 0 where
  pub response_class : Text
  pub response_code : Text
  pub message_text : Text

-- `respMsg.err`
unfoldable pub resp_err : Text → RespMsg → Option Error
resp_err op r =
    if not (is_empty r.response_code) && not (r.response_code == text "NoError")
    then some (
        errorf (
          text "EWS " ++ (op ++ (text ": " ++ (r.response_code ++ (text ": " ++ r.message_text))))))
    else if r.response_class == text "Error"
    then some (errorf (text "EWS " ++ (op ++ (text ": " ++ r.message_text))))
    else none

unfoldable pub snippet : Text → Text
snippet b = let s = trim_space b in if ltb 300 (length s) then take 300 s ++ text "..." else s

abbrev field : Text → Text → Text
field name value = name ++ (text ": " ++ (value ++ crlf))

-- The loop over the headers.
unfoldable pub header_lines : List Header → Text
unfolding one_line
header_lines [] = []
header_lines (h ∷ hs) = field (trim_space h.name) (one_line h.value) ++ header_lines hs

module _ (fold : ℕ → ℕ) where
  unfoldable pub ews_flags : EwsItem → List Text
  ews_flags it =
      (if equal_fold fold it.is_read (text "true") then token (text "Seen") ∷ [] else [])
      ++ (if equal_fold fold it.is_draft (text "true") then token (text "Draft") ∷ [] else [])

  abbrev pub has_field : Text → List Header → Bool
  has_field name hs = any (λ h. equal_fold fold (trim_space h.name) name) hs

  unfoldable pub ews_header_block : EwsItem → Text
  unfolding header_lines one_line
  ews_header_block it =
      header_lines it.headers
      ++ ((if not (has_field (text "Message-ID") it.headers) && not (is_empty it.internet_msg_id)
            then field (text "Message-ID") it.internet_msg_id
            else [])
          ++ ((if not (has_field (text "Subject") it.headers) && not (is_empty it.subject)
                then field (text "Subject") (one_line it.subject)
                else [])
              ++ crlf))
