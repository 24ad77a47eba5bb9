-- ===== src/Endpoint/Ews/Session.antt =====
-- A session with Exchange Web Services: the operations of internal/endpoint/ews.go.
use imapsync.Base.{
  ℕ, zero, suc, ◌+◌, Bool, true, false, ◌||◌, not, Option, none, some, List, [], ◌∷◌, ◌++◌, ◌==◌,
  list_eq, nat_eq, if◌then◌else◌, map, filter, contains, length,
}
use imapsync.Base.Text.{Text, text, trim_space, equal_fold, is_empty}
use imapsync.Base.Batches.{in_batches}
use imapsync.Base.Dict
use imapsync.Base.Time.{Time}
use imapsync.Base.Result.{Result, ok, err, errorf, wrap}
use imapsync.Endpoint.{Message, Literal, buffered, bytes, Endpoint}
use imapsync.Endpoint.Ews.{
  ews_distinguished, EwsItem, RespMsg, resp_err, ews_flags, ews_header_block,
}
use imapsync.Endpoint.Ews.Soap.{
  FolderEntry, Page, Service, State, distinguished_xml, folder_id_xml, find_folder_body,
  find_item_body, get_item_body, create_item_body, call, ask,
}

-- The loop of `findFolder`: the exact name wins, else the last that differs in case only and has an
-- id. `best` is `ci` with `disp`.
unfoldable pub search_folder : (ℕ → ℕ) → Text → FolderEntry → List FolderEntry → Option FolderEntry
search_folder fold name best [] = if is_empty best.folder_id then none else some best
search_folder fold name best (f ∷ fs) =
    let same = search_folder fold name f fs in
    let later = search_folder fold name best fs in
    if f.display_name == name
    then some f
    else if equal_fold fold f.display_name name
    then same
    else later

-- The responses of GetItem: the first that reports an error ends the loop.
unfoldable pub collect_items : List (RespMsg × List EwsItem) → Result (List EwsItem)
unfolding resp_err
collect_items [] = ok []
collect_items ((msg, items) ∷ msgs) =
    let rest = collect_items msgs in
    elim (resp_err (text "GetItem") msg) [
      | some why ↦ err why
      | none ↦ elim rest [ err why ↦ err why | ok more ↦ ok (items ++ more) ]
    ]

unfoldable pub message_of : Service → (ℕ → ℕ) → EwsItem → Message
unfolding ews_flags ews_header_block
message_of V fold it = record {
  id = it.item_id;
  flags = ews_flags fold it;
  internal_date = V.parse_time it.date_time_received;
  size = it.size;
  header = ews_header_block fold it;
}

-- The content of the first item of an answer.
unfoldable pub content_of : Service → Text → List EwsItem → Result Literal
content_of V id [] =
    err (errorf (text "EWS: message " ++ (V.quote id ++ text " has no MIME content")))
content_of V id (it ∷ items) =
    if is_empty it.mime_content
    then err (errorf (text "EWS: message " ++ (V.quote id ++ text " has no MIME content")))
    else elim (V.decode_base64 (trim_space it.mime_content)) [
      | err why ↦
          err (wrap (text "EWS: decoding MIME of message " ++ (V.quote id ++ text ": ")) why)
      | ok raw ↦ ok (buffered raw)
    ]

module _ {V : Service} where
  unfoldable pub find_folder : (ℕ → ℕ) → Text → State V → Result FolderEntry × State V
  unfolding ask search_folder
  find_folder fold name s =
      let (found, s') = ask (text "FindFolder") V.read_folders find_folder_body s in
      elim found [
        | err why ↦ (err why, s')
        | ok fs ↦ elim (search_folder fold name (record { folder_id = []; display_name = [] }) fs) [
          | none ↦ (err (errorf (text "EWS: folder " ++ (V.quote name ++ text " not found"))), s')
          | some f ↦ (ok f, s')
        ]
      ]

  unfoldable pub select : (ℕ → ℕ) → Text → State V → Result (Text × Text) × State V
  unfolding find_folder
  select fold name s =
      let (found, s') = find_folder fold name s in
      let shown = if is_empty name then text "INBOX" else name in
      elim (Dict.lookup (V.to_lower (trim_space name)) ews_distinguished) [
        | some d ↦
            (ok (shown, text "ews"), record s { folder_xml = distinguished_xml d; folder = shown })
        | none ↦ elim found [
          | err why ↦ (err why, s')
          | ok f ↦ (
            ok (f.display_name, text "ews"),
            record s' {
              folder_xml = folder_id_xml (V.escape f.folder_id);
              folder = f.display_name;
            },
          )
        ]
      ]

  unfoldable pub find_page : ℕ → State V → Result Page × State V
  unfolding ask find_item_body
  find_page offset s =
      ask (text "FindItem") V.read_page (find_item_body s.batch offset s.folder_xml) s

  -- The loop of `ListIDs`. The fuel is the number of pages; an empty page is the last.
  unfoldable pub list_pages : ℕ → ℕ → State V → Result (List Text) × State V
  unfolding find_page
  list_pages zero offset s = (ok [], s)
  list_pages (suc fuel) offset s =
      let (got, s') = find_page offset s in
      let (more, s'') = list_pages fuel (offset + s.batch) s' in
      elim got [
        | err why ↦ (err why, s')
        | ok page ↦
            let ids = filter (λ id. not (is_empty id)) page.ids in
            if page.last || length page.ids == 0
            then (ok ids, s')
            else elim more [ err why ↦ (err why, s'') | ok rest ↦ (ok (ids ++ rest), s'') ]
      ]

  unfoldable pub get_items : Bool → List Text → State V → Result (List EwsItem) × State V
  unfolding call collect_items get_item_body
  get_items mime ids s =
      let (answer, s') = call (get_item_body V.escape ids mime) s in
      elim answer [
        | err why ↦ (err why, s')
        | ok data_bytes ↦ elim (V.read_items data_bytes) [
          | err why ↦ (err (wrap (text "EWS GetItem: parsing response: ") why), s')
          | ok msgs ↦ (collect_items msgs, s')
        ]
      ]

  -- `ListIDs` with enough fuel for the pages.
  abbrev pub list_ids : ℕ → State V → Result (List Text) × State V
  list_ids fuel s = list_pages fuel 0 s

  abbrev pub fetch_slice : (ℕ → ℕ) → List Text → State V → Result (List Message) × State V
  fetch_slice fold ids s =
      let (got, s') = get_items false ids s in
      elim got [ err why ↦ (err why, s') | ok items ↦ (ok (map (message_of V fold) items), s') ]

  -- A nil list asks for every message of the folder.
  unfoldable pub fetch_meta :
      (ℕ → ℕ) → ℕ → Option (List Text) → State V → Result (List Message) × State V
  unfolding get_items list_pages message_of
  fetch_meta fold fuel (some ids) s = in_batches (fetch_slice fold) s.batch ids s
  fetch_meta fold fuel none s =
      let (listed, s') = list_ids fuel s in
      elim listed [
        | err why ↦ (err why, s')
        | ok ids ↦ in_batches (fetch_slice fold) s.batch ids s'
      ]

  unfoldable pub open_message : Text → State V → Result Literal × State V
  unfolding get_items content_of
  open_message id s =
      let (got, s') = get_items true (id ∷ []) s in
      elim got [ err why ↦ (err why, s') | ok items ↦ (content_of V id items, s') ]

  unfoldable pub append : List Text → Time → Literal → State V → Result Text × State V
  unfolding ask create_item_body
  append flags date body s =
      let is_read = contains flags (92 ∷ text "Seen") in
      let (created, s') =
        ask (text "CreateItem") V.read_created
          (create_item_body s.folder_xml (V.encode_base64 (bytes body)) is_read) s in
      elim created [
        | err why ↦ (err why, s')
        | ok ids ↦ (ok (elim ids [ [] ↦ [] | id ∷ rest ↦ id ]), s')
      ]

-- The session as an endpoint of `syncPair`; the fuel is that of `ListIDs`.
abbrev pub ews : (ℕ → ℕ) → ℕ → Service → Endpoint
ews fold fuel V = record {
  State = State V;
  select = select fold;
  list_ids = list_ids fuel;
  fetch_meta = fetch_meta fold fuel;
  open_message = open_message;
  append = append;
  read_only = false;
}
