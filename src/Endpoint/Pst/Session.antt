-- ===== src/Endpoint/Pst/Session.antt =====
-- A session on one PST archive: `Select`, `ListIDs`, `FetchMeta`, `Open`, `Append` and the folders of
-- internal/endpoint/pst.go.
use imapsync.Base.{
  ℕ, Bool, true, ◌||◌, not, Option, none, some, List, [], ◌∷◌, ◌++◌, ◌==◌, list_eq, nat_eq,
  if◌then◌else◌, map, filter, contains, any,
}
use imapsync.Base.Int.{pos}
use imapsync.Base.Text.{Text, text, trim_space, equal_fold, is_empty, filter_map}
use imapsync.Base.Text.Split.{join_seq}
use imapsync.Base.Dict
use imapsync.Base.Dict.{Dict}
use imapsync.Base.Sort.{sort, text_leb}
use imapsync.Base.Time.{Time, decimal}
use imapsync.Base.Result.{Error, Result, ok, err, errorf, wrap}
use imapsync.Endpoint.{Message, Literal, buffered, Endpoint, FolderInfo}
use imapsync.Endpoint.Pst.{Codec}
use imapsync.Endpoint.Pst.Body.{PstMessage, pst_meta, pst_render}

-- What the iterator of go-pst gives for a folder: an error at the start, unless it is that there are
-- no messages; the messages with their identifiers; an error at the end.
pub record Iteration : Type 0 where
  pub refused : Option Error
  pub found : List (ℕ × PstMessage)
  pub failed : Option Error

pub record PstFolder : Type 0 where
  pub name : Text
  pub message_count : ℕ
  pub is_search : Bool
  pub messages : Iteration

-- `pstEndpoint`; `folders` is what `WalkFolders` visits, or its error.
pub record State : Type 0 where
  pub path : Text
  pub folders : Result (List PstFolder)
  pub folder : Text
  pub msgs : Dict Text PstMessage

abbrev special : Text → Text
special name = 92 ∷ name

-- SPECIAL-USE tokens and the names of folders that stand for them.
abbrev pub pst_special : Dict Text (List Text)
pst_special =
    (special (text "Sent"), text "Sent Items" ∷ text "Sent" ∷ text "Sent Messages" ∷ [])
    ∷ (special (text "Drafts"), text "Drafts" ∷ [])
    ∷ (special (text "Trash"), text "Deleted Items" ∷ text "Trash" ∷ [])
    ∷ (special (text "Junk"), text "Junk Email" ∷ text "Junk E-mail" ∷ text "Junk" ∷ [])
    ∷ (special (text "Archive"), text "Archive" ∷ text "Archive Items" ∷ [])
    ∷ []

abbrev pub pst_admin_folders : List Text
pst_admin_folders =
    [] ∷ text "root_folder" ∷ text "top of personal folders" ∷ text "search root" ∷ []

-- The first folder that fits.
unfoldable pub first_folder : (PstFolder → Bool) → List PstFolder → Option PstFolder
first_folder fits [] = none
first_folder fits (f ∷ fs) = let later = first_folder fits fs in if fits f then some f else later

abbrev pub or_folder : Option PstFolder → Option PstFolder → Option PstFolder
or_folder none later = later
or_folder (some f) later = some f

module _ (fold : ℕ → ℕ) where
  abbrev pub is_alike : Text → PstFolder → Bool
  is_alike n f = equal_fold fold f.name n

  -- The loop over the candidates of a token.
  unfoldable pub first_candidate : List Text → List PstFolder → Option PstFolder
  unfolding first_folder
  first_candidate [] fs = none
  first_candidate (c ∷ cands) fs =
      or_folder (first_folder (is_alike c) fs) (first_candidate cands fs)

  unfoldable pub resolve_pst_folder : Text → List PstFolder → Option PstFolder
  unfolding first_candidate
  resolve_pst_folder name fs =
      let n = trim_space name in
      let by_token : Option PstFolder = elim (Dict.lookup n pst_special) [
        | none ↦ none
        | some cands ↦ first_candidate cands fs
      ] in
      let by_inbox =
        if equal_fold fold n (text "INBOX")
        then first_folder (is_alike (text "Inbox")) fs
        else none in
      or_folder (first_folder (λ f. f.name == n) fs)
        (or_folder by_token (or_folder by_inbox (first_folder (is_alike n) fs)))

  -- The loop of `pstSpecialUseOf`: no name stands for two tokens.
  unfoldable pub special_use_in : Dict Text (List Text) → Text → Text
  special_use_in [] name = []
  special_use_in ((token, cands) ∷ rest) name =
      let later = special_use_in rest name in
      if any (λ c. equal_fold fold c name) cands then token else later

  unfoldable pub pst_special_use_of : Text → Text
  unfolding special_use_in
  pst_special_use_of name = special_use_in pst_special name

  -- A folder as it is listed; structural folders and searches are not.
  unfoldable pub folder_info : Codec → PstFolder → Option FolderInfo
  unfolding pst_special_use_of
  folder_info k f =
      if contains pst_admin_folders (k.to_lower (trim_space f.name)) || f.is_search
      then none
      else some
          (record { name = f.name; special_use = pst_special_use_of f.name; selectable = true })

  unfoldable pub list_folders : Codec → State → Result (List FolderInfo) × State
  unfolding folder_info
  list_folders k s = elim s.folders [
    | err why ↦ (err (wrap (text "pst " ++ (s.path ++ text ": walking folders: ")) why), s)
    | ok fs ↦ (ok (filter_map (folder_info k) fs), s)
  ]

-- The messages go into the map under their identifiers.
unfoldable pub load_msgs : List (ℕ × PstMessage) → Dict Text PstMessage → Dict Text PstMessage
load_msgs [] msgs = msgs
load_msgs ((id, m) ∷ found) msgs = load_msgs found (Dict.insert (decimal (pos id)) m msgs)

module _ (fold : ℕ → ℕ) (k : Codec) where
  abbrev pub not_found : State → Text → List PstFolder → Error
  not_found s name fs =
      let names = filter (λ n. not (is_empty n)) (map (λ f. f.name) fs) in
      errorf (
        text "pst "
        ++ (s.path
            ++ (text ": folder "
                ++ (k.quote name
                    ++ (text " not found (have: " ++ (join_seq (text ", ") names ++ text ")"))))))

  abbrev pub in_folder : State → PstFolder → Text
  in_folder s f = text "pst " ++ (s.path ++ (text ", folder " ++ (k.quote f.name ++ text ": ")))

  -- The messages of the folder that was found; a folder without messages is not asked for them.
  unfoldable pub open_folder : State → PstFolder → Result (Text × Text) × State
  unfolding load_msgs
  open_folder s f =
      let loaded = record s { msgs = load_msgs f.messages.found [] } in
      let opened = record s { folder = f.name; msgs = load_msgs f.messages.found [] } in
      if f.message_count == 0
      then (ok (f.name, text "pst"), record s { folder = f.name; msgs = [] })
      else elim f.messages.refused [
        | some why ↦ (err (wrap (in_folder s f) why), record s { msgs = [] })
        | none ↦ elim f.messages.failed [
          | some why ↦ (err (wrap (in_folder s f ++ text "iterating messages: ") why), loaded)
          | none ↦ (ok (f.name, text "pst"), opened)
        ]
      ]

  unfoldable pub select : Text → State → Result (Text × Text) × State
  unfolding resolve_pst_folder open_folder
  select name s = elim s.folders [
    | err why ↦ (err (wrap (text "pst " ++ (s.path ++ text ": walking folders: ")) why), s)
    | ok fs ↦ elim (resolve_pst_folder fold name fs) [
      | none ↦ (err (not_found s name fs), s)
      | some f ↦ open_folder s f
    ]
  ]

unfoldable pub list_ids : State → Result (List Text) × State
list_ids s = (ok (sort text_leb (Dict.keys s.msgs)), s)

-- An id without a message is left out.
unfoldable pub meta_of : Codec → State → Text → Option Message
unfolding pst_meta
meta_of k s id = elim (Dict.lookup id s.msgs) [
  | none ↦ none
  | some m ↦
      let (header, (date, flags)) = pst_meta k m in
      some (record { id = id; flags = flags; internal_date = date; size = 0; header = header })
]

-- A nil list asks for every message.
unfoldable pub fetch_meta : Codec → Option (List Text) → State → Result (List Message) × State
unfolding meta_of
fetch_meta k none s = (ok (filter_map (meta_of k s) (Dict.keys s.msgs)), s)
fetch_meta k (some ids) s = (ok (filter_map (meta_of k s) ids), s)

-- `boundary` is made up for the message.
unfoldable pub open_message : Codec → (Text → Text) → Text → State → Result Literal × State
unfolding pst_render
open_message k boundary id s = elim (Dict.lookup id s.msgs) [
  | none ↦ (
    err (
        errorf
          (text "pst: message " ++ (k.quote id ++ (text " not found in " ++ k.quote s.folder)))),
    s,
  )
  | some m ↦ (ok (buffered (pst_render k (boundary id) m)), s)
]

unfoldable pub append : List Text → Time → Literal → State → Result Text × State
append flags date body s =
    (err (errorf (text "pst: append is not supported (read-only archive)")), s)

unfoldable pub create_folder : Codec → Text → State → Result (Unit {0}) × State
create_folder k name s = (
  err (
      errorf (
        text "pst "
        ++ (s.path
            ++ (text ": cannot create folder "
                ++ (k.quote name ++ text " - a PST archive is read-only"))))),
  s,
)

abbrev pub pst : (ℕ → ℕ) → Codec → (Text → Text) → Endpoint
pst fold k boundary = record {
  State = State;
  select = select fold k;
  list_ids = list_ids;
  fetch_meta = fetch_meta k;
  open_message = open_message k boundary;
  append = append;
  read_only = true;
}
