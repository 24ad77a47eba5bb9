-- ===== src/Endpoint/Maildir.antt =====
-- internal/endpoint/maildir.go: the names of files and folders. A file's name is its unique part
-- and, after ":2,", a letter for each flag.
pub mod Disk
pub mod Session
pub mod Folders
pub mod Flags
pub mod Delivery
use imapsync.Base.{
  ℕ, ◌+◌, Bool, true, false, ◌&&◌, not, Option, none, some, List, [], ◌∷◌, ◌++◌, ◌==◌, list_eq,
  nat_eq, leb, if◌then◌else◌,
}
use imapsync.Base.Text.{
  Text, text, take, drop, index, index_code, cut_last, filter_map, trim, replace_code, equal_fold,
}
use imapsync.Base.Sort.{sort}
use imapsync.Base.Dict
use imapsync.Base.Dict.{Dict}

-- What a verb of the template stands for: `%u`, `%n`, `%d`. The verb's letter is the first of `s`.
unfoldable pub verb : Text → Text → Text → ℕ → Text → Option Text
verb user name domain c [] = none
verb user name domain c (x ∷ s) =
    if not (c == b'%')
    then none
    else if x == b'u'
    then some user
    else if x == b'n'
    then some name
    else if x == b'd'
    then some domain
    else none

-- The replacer goes through the template once. After a verb its letter is skipped.
unfoldable pub expand_from : Text → Text → Text → Bool → Text → Text
unfolding verb
expand_from user name domain skip [] = []
expand_from user name domain true (c ∷ s) = expand_from user name domain false s
expand_from user name domain false (c ∷ s) = elim (verb user name domain c s) [
  | none ↦ c ∷ expand_from user name domain false s
  | some value ↦ value ++ expand_from user name domain true s
]

unfoldable pub expand_user : Text → Text → Text
unfolding expand_from
expand_user tmpl user = elim (cut_last b'@' user) [
  | none ↦ expand_from user user [] false tmpl
  | some (name, domain) ↦ expand_from user name domain false tmpl
]

abbrev pub flag : Text → Text
flag name = 92 ∷ name

abbrev pub flag_letter_to_imap : Dict ℕ Text
flag_letter_to_imap =
    (b'S', flag (text "Seen"))
    ∷ (b'R', flag (text "Answered"))
    ∷ (b'F', flag (text "Flagged"))
    ∷ (b'D', flag (text "Draft"))
    ∷ (b'T', flag (text "Deleted"))
    ∷ []

abbrev pub imap_to_flag_letter : Dict Text ℕ
imap_to_flag_letter =
    (flag (text "Seen"), b'S')
    ∷ (flag (text "Answered"), b'R')
    ∷ (flag (text "Flagged"), b'F')
    ∷ (flag (text "Draft"), b'D')
    ∷ (flag (text "Deleted"), b'T')
    ∷ []

-- SPECIAL-USE tokens and the subfolders that stand for them.
abbrev pub maildir_special : Dict Text Text
maildir_special =
    (flag (text "Sent"), text "Sent")
    ∷ (flag (text "Drafts"), text "Drafts")
    ∷ (flag (text "Trash"), text "Trash")
    ∷ (flag (text "Junk"), text "Junk")
    ∷ (flag (text "Archive"), text "Archive")
    ∷ []

-- `uniqueID`
unfoldable pub unique_id : Text → Text
unique_id filename = elim (index_code b':' filename) [ none ↦ filename | some i ↦ take i filename ]

abbrev pub info : Text
info = text ":2,"

-- `flagsFromName`
unfoldable pub flags_from_name : Text → List Text
flags_from_name filename = elim (index filename info) [
  | none ↦ []
  | some i ↦ filter_map (λ c. Dict.lookup c flag_letter_to_imap) (drop (i + 3) filename)
]

unfoldable pub flag_letters : List Text → Text
flag_letters flags = sort leb (filter_map (λ fl. Dict.lookup fl imap_to_flag_letter) flags)

-- The suffix for the letters; without letters there is none.
abbrev pub suffix_of : Text → Text
suffix_of [] = []
suffix_of (c ∷ cs) = info ++ (c ∷ cs)

-- `flagSuffix`
unfoldable pub flag_suffix : List Text → Text
flag_suffix flags = suffix_of (flag_letters flags)

-- `strings.Trim(strings.ReplaceAll(n, "/", "."), ".")`
unfoldable pub dotted : Text → Text
dotted n = trim (λ c. c == b'.') (replace_code b'/' b'.' n)

-- `strings.ReplaceAll(dotted, ".", "/")`
abbrev pub slashed : Text → Text
slashed = replace_code b'.' b'/'

-- `maildirSpecialUseOf`: no two tokens have one folder name.
unfoldable pub special_use_in : (ℕ → ℕ) → Dict Text Text → Text → Text
special_use_in fold [] name = []
special_use_in fold ((token, sub) ∷ rest) name =
    let later = special_use_in fold rest name in if equal_fold fold sub name then token else later

unfoldable pub maildir_special_use_of : (ℕ → ℕ) → Text → Text
unfolding special_use_in
maildir_special_use_of fold name = special_use_in fold maildir_special name

-- `readHeaderBlock` of the file's bytes.
unfoldable pub header_block : Text → Text
header_block content = elim (index content (13 ∷ 10 ∷ 13 ∷ 10 ∷ [])) [
  | some i ↦ take (i + 4) content
  | none ↦ elim (index content (10 ∷ 10 ∷ [])) [ none ↦ content | some i ↦ take (i + 2) content ]
]
