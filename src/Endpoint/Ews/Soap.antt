-- ===== src/Endpoint/Ews/Soap.antt =====
-- The requests of internal/endpoint/ews.go, and `call` that sends them. HTTP, the XML and base64
-- packages are the parameter `Service`.
use imapsync.Base.{
  ℕ, Bool, true, false, none, some, List, [], ◌∷◌, ◌++◌, ◌==◌, list_eq, nat_eq, if◌then◌else◌,
}
use imapsync.Base.Int.{pos}
use imapsync.Base.Text.{Text, text, is_empty}
use imapsync.Base.Time.{Time, decimal}
use imapsync.Base.Result.{Result, ok, err, errorf, wrap}
use imapsync.Endpoint.Ews.{EwsItem, RespMsg, resp_err, snippet}

-- A folder of a FindFolder response.
pub record FolderEntry : Type 0 where
  pub folder_id : Text
  pub display_name : Text

-- A page of a FindItem response: whether it is the last, and the ids of its items.
pub record Page : Type 0 where
  pub last : Bool
  pub ids : List Text

-- `post` sends an envelope, and gives the status, the data, and whether to try again.
-- `read_folders` to `read_created` are `xml.Unmarshal` of the four responses. `escape` is
-- `xml.EscapeText`, `quote` is `%q`.
pub record Service : Type 1 where
  pub S : Type 0
  pub url : Text
  pub who : Text
  pub impersonate : Text
  pub post : Text → S → Result (ℕ × Text × Bool) × S
  pub to_lower : Text → Text
  pub escape : Text → Text
  pub quote : Text → Text
  pub encode_base64 : Text → Text
  pub decode_base64 : Text → Result Text
  pub parse_time : Text → Time
  pub read_folders : Text → Result (RespMsg × List FolderEntry)
  pub read_page : Text → Result (RespMsg × Page)
  pub read_items : Text → Result (List (RespMsg × List EwsItem))
  pub read_created : Text → Result (RespMsg × List Text)

-- `ewsEndpoint`
pub record State (V : Service) : Type 0 where
  pub conn : V.S
  pub batch : ℕ
  pub folder_xml : Text
  pub folder : Text

-- `fmt.Sprintf(…, folderXML)` of the two kinds of folders.
abbrev pub distinguished_xml : Text → Text
distinguished_xml d = text "<t:DistinguishedFolderId Id=\"" ++ (d ++ text "\"/>")

abbrev pub folder_id_xml : Text → Text
folder_id_xml id = text "<t:FolderId Id=\"" ++ (id ++ text "\"/>")

-- `soapEnvelope`
unfoldable pub envelope : Text → Text → Text
envelope header body =
    text
      "<?xml version=\"1.0\" encoding=\"utf-8\"?>\n<soap:Envelope xmlns:soap=\"http://schemas.xmlsoap.org/soap/envelope/\" xmlns:t=\"http://schemas.microsoft.com/exchange/services/2006/types\" xmlns:m=\"http://schemas.microsoft.com/exchange/services/2006/messages\">\n<soap:Header><t:RequestServerVersion Version=\"Exchange2013\"/>"
    ++ (header
        ++ (text "</soap:Header>\n<soap:Body>" ++ (body ++ text "</soap:Body>\n</soap:Envelope>")))

-- What a response says: its data, unless it cannot be parsed or reports an error.
unfoldable pub checked : {A : Type 0} → Text → Result (RespMsg × A) → Result A
unfolding resp_err
checked op (err why) = err (wrap (text "EWS " ++ (op ++ text ": parsing response: ")) why)
checked op (ok (msg, a)) = elim (resp_err op msg) [ some why ↦ err why | none ↦ ok a ]

abbrev pub find_folder_body : Text
find_folder_body =
    text
      "<m:FindFolder Traversal=\"Deep\"><m:FolderShape><t:BaseShape>Default</t:BaseShape></m:FolderShape>"
    ++ text
        "<m:ParentFolderIds><t:DistinguishedFolderId Id=\"msgfolderroot\"/></m:ParentFolderIds></m:FindFolder>"

unfoldable pub find_item_body : ℕ → ℕ → Text → Text
find_item_body batch offset folder_xml =
    text
      "<m:FindItem Traversal=\"Shallow\"><m:ItemShape><t:BaseShape>IdOnly</t:BaseShape></m:ItemShape><m:IndexedPageItemView MaxEntriesReturned=\""
    ++ (decimal (pos batch)
        ++ (text "\" Offset=\""
            ++ (decimal (pos offset)
                ++ (text "\" BasePoint=\"Beginning\"/><m:ParentFolderIds>"
                    ++ (folder_xml ++ text "</m:ParentFolderIds></m:FindItem>")))))

-- The shape of the items that are asked for, with or without their content.
abbrev pub item_shape : Bool → Text
item_shape true =
    text "<t:BaseShape>IdOnly</t:BaseShape><t:IncludeMimeContent>true</t:IncludeMimeContent>"
item_shape false =
    text "<t:BaseShape>IdOnly</t:BaseShape><t:AdditionalProperties>"
    ++ (text "<t:FieldURI FieldURI=\"item:InternetMessageHeaders\"/>"
        ++ (text "<t:FieldURI FieldURI=\"item:DateTimeReceived\"/>"
            ++ (text "<t:FieldURI FieldURI=\"item:Size\"/>"
                ++ (text "<t:FieldURI FieldURI=\"message:IsRead\"/>"
                    ++ (text "<t:FieldURI FieldURI=\"item:Subject\"/>"
                        ++ (text "<t:FieldURI FieldURI=\"message:InternetMessageId\"/>"
                            ++ text "</t:AdditionalProperties>"))))))

-- The loop over the ids.
unfoldable pub item_ids_xml : (Text → Text) → List Text → Text
item_ids_xml escape [] = []
item_ids_xml escape (id ∷ ids) =
    text "<t:ItemId Id=\"" ++ (escape id ++ (text "\"/>" ++ item_ids_xml escape ids))

unfoldable pub get_item_body : (Text → Text) → List Text → Bool → Text
unfolding item_ids_xml
get_item_body escape ids mime =
    text "<m:GetItem><m:ItemShape>"
    ++ (item_shape mime
        ++ (text "</m:ItemShape><m:ItemIds>"
            ++ (item_ids_xml escape ids ++ text "</m:ItemIds></m:GetItem>")))

unfoldable pub create_item_body : Text → Text → Bool → Text
create_item_body folder_xml content is_read =
    text "<m:CreateItem MessageDisposition=\"SaveOnly\"><m:SavedItemFolderId>"
    ++ (folder_xml
        ++ (text "</m:SavedItemFolderId><m:Items><t:Message><t:MimeContent CharacterSet=\"UTF-8\">"
            ++ (content
                ++ (text "</t:MimeContent><t:IsRead>"
                    ++ ((if is_read then text "true" else text "false")
                        ++ text "</t:IsRead></t:Message></m:Items></m:CreateItem>")))))

module _ {V : Service} where
  -- The header that names the mailbox.
  unfoldable pub impersonation : State V → Text
  impersonation s =
      if is_empty V.impersonate
      then []
      else text "<t:ExchangeImpersonation><t:ConnectingSID><t:PrimarySmtpAddress>"
        ++ (V.escape V.impersonate
            ++ text "</t:PrimarySmtpAddress></t:ConnectingSID></t:ExchangeImpersonation>")

  unfoldable pub answer_of : State V → ℕ × Text × Bool → Result Text
  unfolding snippet
  answer_of s (status, data_bytes, retry) =
      if status == 200
      then ok data_bytes
      else if status == 401
      then err (
          errorf (
            text "EWS "
            ++ (V.url
                ++ (text ": HTTP 401 unauthorized as "
                    ++ (V.who ++ (text ": " ++ snippet data_bytes))))))
      else err (
          errorf (
            text "EWS "
            ++ (V.url
                ++ (text ": HTTP "
                    ++ (decimal (pos status) ++ (text ": " ++ snippet data_bytes))))))

  -- A 401 is tried once more where the credentials can be fresh.
  unfoldable pub call : Text → State V → Result Text × State V
  unfolding envelope impersonation answer_of
  call body s =
      let env = envelope (impersonation s) body in
      let (first, conn) = V.post env s.conn in
      let (second, conn') = V.post env conn in
      let s' = record s { conn = conn } in
      let s'' = record s { conn = conn' } in
      elim first [
        | err why ↦ (err why, s')
        | ok (status, data_bytes, retry) ↦
            if retry
            then elim second [ err why ↦ (err why, s'') | ok answer ↦ (answer_of s answer, s'') ]
            else (answer_of s (status, data_bytes, retry), s')
      ]

  -- A call whose response is read by `read`.
  unfoldable pub ask :
      {A : Type 0} → Text → (Text → Result (RespMsg × A)) → Text → State V → Result A × State V
  unfolding call checked
  ask op read body s =
      let (answer, s') = call body s in
      elim answer [ err why ↦ (err why, s') | ok data_bytes ↦ (checked op (read data_bytes), s') ]
