-- ===== src/Endpoint/Imap.antt =====
-- internal/endpoint/imap.go: an IMAP connection as one side of a synchronisation.
pub mod Uids
pub mod Listed
use imapsync.Base.{
  ℕ, zero, suc, ◌+◌, ◌-◌, ◌*◌, ◌^◌, Bool, true, false, ◌&&◌, not, Option, none, some, List, [], ◌∷◌,
  ◌++◌, ◌==◌, nat_eq, leb, ltb, if◌then◌else◌, map,
}
use imapsync.Base.Int.{ℤ, pos}
use imapsync.Base.Text.{Text, text, is_empty}
use imapsync.Base.Time.{Time, decimal}
use imapsync.Base.Result.{Error, Result, ok, err, errorf, wrap}
use imapsync.Endpoint.{Message, Literal, Endpoint, FolderInfo}
use imapsync.Mailbox.Client.{Protocol, Client, FetchedMessage}
use imapsync.Mailbox.Client.Folders
use imapsync.Mailbox.Client.Folders.{resolve_folder, create_mailbox}
use imapsync.Mailbox.Client.Fetching.{
  word, fetch_headers, fetch_headers_by_uid, uid_search_all, fetch_full_literal, append_literal,
}

-- `imapEndpoint`
pub record State (P : Protocol) : Type 0 where
  pub cl : Client P
  pub batch : ℤ
  pub folder : Text
  pub count : ℕ  -- uint32

abbrev pub uid_str : ℕ → Text
uid_str u = decimal (pos u)

abbrev pub is_digit : ℕ → Bool
is_digit c = leb b'0' c && leb c b'9'

-- The loop of `strconv.ParseUint` with base 10 and 32 bits. `refused` is its error.
unfoldable pub parse_digits : (Text → Error) → Text → ℕ → Result ℕ
parse_digits refused [] n = ok n
parse_digits refused (c ∷ s) n =
    let n' = n * 10 + (c - b'0') in
    let rest = parse_digits refused s n' in
    if not (is_digit c)
    then err (refused (text "invalid syntax"))
    else if ltb n' word
    then rest
    else err (refused (text "value out of range"))

-- The ids of FETCH: the first that is no UID ends the loop.
unfoldable pub parse_each : (Text → Result ℕ) → List Text → Result (List ℕ)
parse_each parse [] = ok []
parse_each parse (id ∷ ids) =
    let rest = parse_each parse ids in
    elim (parse id) [
      | err why ↦ err why
      | ok u ↦ elim rest [ err why ↦ err why | ok us ↦ ok (u ∷ us) ]
    ]

-- UID 0 stands for a server without UIDPLUS.
abbrev pub id_of : ℕ → Text
id_of uid = if uid == 0 then [] else uid_str uid

abbrev pub message_of : FetchedMessage → Message
message_of m = record {
  id = uid_str m.uid;
  flags = m.flags;
  internal_date = m.internal_date;
  size = m.size;
  header = m.header;
}

module _ {A B : Type 0} {P : Protocol} where
  -- What an operation of the client gives, as the session's: its result changed by `f`.
  unfoldable pub answered : State P → (A → B) → Result A × Client P → Result B × State P
  answered s f (err why, cl) = (err why, record s { cl = cl })
  answered s f (ok a, cl) = (ok (f a), record s { cl = cl })

-- `quote` is `%q`, and `fold` folds the case of a letter.
module _ (quote : Text → Text) where
  -- What `strconv.ParseUint` says of a text that is no number, or too large a one.
  abbrev pub no_uint : Text → Text → Error
  no_uint s why = errorf (text "strconv.ParseUint: parsing " ++ (quote s ++ (text ": " ++ why)))

  unfoldable pub parse_uint32 : Text → Result ℕ
  unfolding parse_digits
  parse_uint32 s =
      if is_empty s then err (no_uint s (text "invalid syntax")) else parse_digits (no_uint s) s 0

  unfoldable pub parse_uid : Text → Result ℕ
  unfolding parse_uint32
  parse_uid id = elim (parse_uint32 id) [
    | err why ↦ err (wrap (text "invalid UID " ++ (quote id ++ text ": ")) why)
    | ok u ↦ ok u
  ]

  module _ {P : Protocol} where
    -- A nil list asks for the whole folder, by sequence numbers.
    unfoldable pub fetch_meta : Option (List Text) → State P → Result (List Message) × State P
    unfolding answered fetch_headers fetch_headers_by_uid parse_each
    fetch_meta none s = answered s (map message_of) (fetch_headers s.count s.batch s.cl)
    fetch_meta (some ids) s = elim (parse_each parse_uid ids) [
      | err why ↦ (err why, s)
      | ok uids ↦ answered s (map message_of) (fetch_headers_by_uid uids s.batch s.cl)
    ]

    unfoldable pub open_message : Text → State P → Result Literal × State P
    unfolding answered parse_uid fetch_full_literal
    open_message id s = elim (parse_uid id) [
      | err why ↦ (err why, s)
      | ok u ↦ answered s (λ lit. lit) (fetch_full_literal u s.cl)
    ]

module _ {P : Protocol} where
  unfoldable pub select : (ℕ → ℕ) → Text → State P → Result (Text × Text) × State P
  unfolding resolve_folder Folders.select
  select fold name s =
      let (resolved, cl') = resolve_folder fold name s.cl in
      elim resolved [
        | err why ↦ (err why, record s { cl = cl' })
        | ok real ↦
            let (selected, cl'') = Folders.select real cl' in
            elim selected [
              | err why ↦ (err why, record s { cl = cl'' })
              | ok st ↦ (
                ok (real, uid_str st.uid_validity),
                record s { cl = cl''; folder = real; count = st.messages },
              )
            ]
      ]

  unfoldable pub list_ids : State P → Result (List Text) × State P
  unfolding answered uid_search_all
  list_ids s = answered s (map uid_str) (uid_search_all s.cl)

  unfoldable pub append : List Text → Time → Literal → State P → Result Text × State P
  unfolding answered append_literal
  append flags date body s = answered s id_of (append_literal s.folder flags date body s.cl)

  unfoldable pub list_folders : (ℕ → ℕ) → State P → Result (List FolderInfo) × State P
  unfolding answered Folders.list_folders
  list_folders fold s =
      answered s
        (map (λ fi. record {
          name = fi.name;
          special_use = fi.special_use;
          selectable = fi.selectable;
        }))
        (Folders.list_folders fold s.cl)

  unfoldable pub create_folder : Text → State P → Result (Unit {0}) × State P
  unfolding answered create_mailbox
  create_folder name s = answered s (λ u. u) (create_mailbox name s.cl)

-- The session as an endpoint of `syncPair`.
abbrev pub imap : (ℕ → ℕ) → (Text → Text) → Protocol → Endpoint
imap fold quote P = record {
  State = State P;
  select = select fold;
  list_ids = list_ids;
  fetch_meta = fetch_meta quote;
  open_message = open_message quote;
  append = append;
  read_only = false;
}
