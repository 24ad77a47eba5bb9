-- ===== src/Mailbox/Client/Folders.antt =====
-- LIST, CREATE, SELECT and the names of folders in internal/mailbox/client.go.
pub mod Resolved
use imapsync.Base.{
  ℕ, zero, suc, ◌+◌, Bool, true, false, ◌&&◌, ◌||◌, not, Option, none, some, List, [], ◌∷◌, ◌++◌,
  ◌==◌, list_eq, nat_eq, if◌then◌else◌, any, contains, map,
}
use imapsync.Base.Text.{Text, text, equal_fold, is_empty, replace_all}
use imapsync.Base.Text.Split.{join_seq}
use imapsync.Base.Result.{Error, Result, ok, err, errorf, wrap}
use imapsync.Mailbox.Client.{MailboxInfo, MailboxStatus, Protocol, Client, on_user, on_server}

-- The attribute tokens begin with a backslash.
abbrev pub attribute : Text → Text
attribute name = 92 ∷ name

abbrev pub special_use_attrs : List Text
special_use_attrs =
    attribute (text "All")
    ∷ attribute (text "Archive")
    ∷ attribute (text "Drafts")
    ∷ attribute (text "Flagged")
    ∷ attribute (text "Junk")
    ∷ attribute (text "Sent")
    ∷ attribute (text "Trash")
    ∷ []

unfoldable pub is_special_use : Text → Bool
is_special_use name = contains special_use_attrs name

-- A loop over the folders that returns the first fitting one.
unfoldable pub first_where : (MailboxInfo → Bool) → List MailboxInfo → Option Text
first_where fits [] = none
first_where fits (m ∷ infos) =
    let later = first_where fits infos in if fits m then some m.name else later

abbrev pub or_else : Option Text → Option Text → Option Text
or_else none later = later
or_else (some n) later = some n

unfoldable pub folder_delimiter : List MailboxInfo → Text
folder_delimiter [] = text "/"
folder_delimiter (m ∷ infos) =
    let later = folder_delimiter infos in if not (is_empty m.delimiter) then m.delimiter else later

-- `delim != "" && delim != "/"`
abbrev pub is_foreign : Text → Bool
is_foreign delim = not (is_empty delim) && not (delim == text "/")

-- A folder as `ListFolders` returns it.
pub record FolderInfo : Type 0 where
  pub name : Text
  pub special_use : Text
  pub selectable : Bool

module _ {P : Protocol} where
  -- `listFolders`: what was listed once is not asked for again.
  unfoldable pub list_cached : Client P → Result (List MailboxInfo) × Client P
  list_cached cl =
      let (listed, conn') = P.list cl.conn in
      elim cl.folders [
        | m ∷ infos ↦ (ok (m ∷ infos), cl)
        | [] ↦ elim listed [
          | err why ↦ (err (wrap (text "LIST" ++ on_server cl) why), record cl { conn = conn' })
          | ok infos ↦ (ok infos, record cl { conn = conn'; folders = infos })
        ]
      ]

  abbrev pub not_found : Text → Client P → List MailboxInfo → Error
  not_found name cl infos = errorf (
      text "folder "
      ++ (P.quote name
          ++ (text " not found"
              ++ (on_user cl
                  ++ (text "; available: " ++ join_seq (text ", ") (map (λ m. m.name) infos))))))

  -- `CreateMailbox`: afterwards the cache is empty, so that the folder is listed.
  unfoldable pub create_mailbox : Text → Client P → Result (Unit {0}) × Client P
  unfolding list_cached
  create_mailbox name cl =
      let (listed, cl') = list_cached cl in
      elim listed [
        | err why ↦ (err why, cl')
        | ok infos ↦
            let delim = folder_delimiter infos in
            let native = if is_foreign delim then replace_all name (text "/") delim else name in
            let (created, conn') = P.create native cl'.conn in
            elim created [
              | err why ↦ (
                err (wrap (text "CREATE " ++ (P.quote native ++ on_server cl)) why),
                record cl' { conn = conn' },
              )
              | ok _ ↦ (ok tt, record cl' { conn = conn'; folders = [] })
            ]
      ]

module _ (fold : ℕ → ℕ) where
  abbrev pub has_attribute : Text → MailboxInfo → Bool
  has_attribute name m = any (λ a. equal_fold fold a name) m.attributes

  abbrev pub is_named : Text → MailboxInfo → Bool
  is_named name m = m.name == name

  abbrev pub is_alike : Text → MailboxInfo → Bool
  is_alike name m = equal_fold fold m.name name

  -- The four searches of `ResolveFolder`, in their order.
  unfoldable pub by_special_use : Text → List MailboxInfo → Option Text
  unfolding is_special_use
  by_special_use name infos =
      if is_special_use name then first_where (has_attribute name) infos else none

  unfoldable pub by_native : Text → List MailboxInfo → Option Text
  by_native name infos =
      let delim = folder_delimiter infos in
      let native = replace_all name (text "/") delim in
      if is_foreign delim && contains name b'/'
      then first_where (λ m. is_named native m || is_alike native m) infos
      else none

  unfoldable pub resolve : Text → List MailboxInfo → Option Text
  unfolding by_special_use by_native
  resolve name infos = or_else (by_special_use name infos) (
      or_else (first_where (is_named name) infos)
        (or_else (by_native name infos) (first_where (is_alike name) infos)))

  module _ {P : Protocol} where
    unfoldable pub resolve_folder : Text → Client P → Result Text × Client P
    unfolding list_cached resolve
    resolve_folder name cl =
        let (listed, cl') = list_cached cl in
        elim listed [
          | err why ↦ (err why, cl')
          | ok infos ↦ elim (resolve name infos) [
            | none ↦ (err (not_found name cl infos), cl')
            | some found ↦ (ok found, cl')
          ]
        ]

  abbrev pub inbox_name : Text → Text
  inbox_name name = if equal_fold fold name (text "INBOX") then text "INBOX" else name

  abbrev pub canonical_name : Text → Text → Text
  canonical_name delim name =
      inbox_name (if is_foreign delim then replace_all name delim (text "/") else name)

  -- The loop over the attributes: the last SPECIAL-USE one counts.
  unfoldable pub read_attributes : List Text → FolderInfo → FolderInfo
  unfolding is_special_use
  read_attributes [] fi = fi
  read_attributes (a ∷ rest) fi =
      let marked =
        if equal_fold fold a (attribute (text "Noselect"))
        then record fi { selectable = false }
        else fi in
      read_attributes rest (if is_special_use a then record marked { special_use = a } else marked)

  unfoldable pub folder_info : Text → MailboxInfo → FolderInfo
  unfolding read_attributes
  folder_info delim m =
      read_attributes m.attributes
        (record { name = canonical_name delim m.name; special_use = []; selectable = true })

  unfoldable pub list_folders : {P : Protocol} → Client P → Result (List FolderInfo) × Client P
  unfolding folder_info list_cached
  list_folders cl =
      let (listed, cl') = list_cached cl in
      elim listed [
        | err why ↦ (err why, cl')
        | ok infos ↦ (ok (map (folder_info (folder_delimiter infos)) infos), cl')
      ]

unfoldable pub select : {P : Protocol} → Text → Client P → Result MailboxStatus × Client P
select {P} name cl =
    let (selected, conn') = P.select name cl.conn in
    let cl' = record cl { conn = conn' } in
    elim selected [
      | err why ↦ (err (wrap (text "SELECT " ++ (P.quote name ++ on_server cl)) why), cl')
      | ok st ↦ (ok st, cl')
    ]
