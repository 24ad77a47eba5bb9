-- ===== src/Dedup.antt =====
-- internal/dedup/index.go: the index of a folder's messages, and the messages that one side has
-- and the other lacks.
pub mod Members
pub mod Growth
pub mod Disjoint
pub mod Missing
use imapsync.Base.{
  ℕ, ◌+◌, Bool, List, [], ◌∷◌, ◌++◌, not, if◌then◌else◌, any, length, list_eq, nat_eq,
}
use imapsync.Base.Text.{Text, text}
use imapsync.Base.Dict
use imapsync.Base.Dict.{Dict}
use imapsync.Base.Result.{Result, ok, err, Error, wrap}
use imapsync.Base.Time.{Time}
use imapsync.Mailbox.Message.{Mail, Fields, parse_fields, surrogate_hash, match_keys_from}
use imapsync.Endpoint.{Message}

pub record Entry : Type 0 where
  pub id : Text
  pub flags : List Text
  pub internal_date : Time
  pub size : ℕ  -- uint32
  pub msg_id : Text
  pub surrogate : Text
  pub keys : List Text

pub record Input : Type 0 where
  pub id : Text
  pub flags : List Text
  pub internal_date : Time
  pub size : ℕ  -- uint32
  pub msg_id : Text
  pub xhash : Text
  pub surrogate : Text
  pub keys : List Text

pub record Index : Type 0 where
  pub by_key : Dict Text Entry
  pub entries : List Entry
  pub dups : ℕ

-- `Len` and `Dups`
abbrev pub len : Index → ℕ
len idx = length idx.entries

unfoldable pub has : Index → List Text → Bool
has idx keys = any (λ k. Dict.member k idx.by_key) keys

abbrev pub entry_of : Input → Entry
entry_of in' = record {
  id = in'.id;
  flags = in'.flags;
  internal_date = in'.internal_date;
  size = in'.size;
  msg_id = in'.msg_id;
  surrogate = in'.surrogate;
  keys = in'.keys;
}

-- `for _, k := range e.Keys { idx.byKey[k] = e }`
unfoldable pub insert_keys : List Text → Entry → Dict Text Entry → Dict Text Entry
insert_keys [] e d = d
insert_keys (k ∷ ks) e d = insert_keys ks e (Dict.insert k e d)

-- One round of the loop of `BuildFrom`.
unfoldable pub add : Index → Input → Index
unfolding has insert_keys
add idx in' =
    let e = entry_of in' in
    if has idx in'.keys
    then record idx { dups = idx.dups + 1 }
    else record idx { by_key = insert_keys e.keys e idx.by_key; entries = idx.entries ++ (e ∷ []) }

unfoldable pub add_all : Index → List Input → Index
add_all idx [] = idx
add_all idx (in' ∷ rest) = add_all (add idx in') rest

abbrev pub empty : Index
empty = record { by_key = []; entries = []; dups = 0 }

unfoldable pub build_from : List Input → Index
unfolding add_all add
build_from inputs = add_all empty inputs

unfoldable pub missing_from : List Entry → Index → List Entry
missing_from [] dst = []
missing_from (e ∷ es) dst =
    let rest = missing_from es dst in if not (has dst e.keys) then e ∷ rest else rest

unfoldable pub missing : Index → Index → List Entry
unfolding missing_from has
missing src dst = missing_from src.entries dst

unfoldable pub delta : Index → Index → List Entry × List Entry
delta a b = (missing a b, missing b a)

-- `Keys`
abbrev pub keys : Text → Text → Text → List Text
keys = match_keys_from

module _ (m : Mail) (hash_header : Text) where
  unfoldable pub input_of : Message → Fields → Input
  input_of msg f =
      let sur = surrogate_hash m f in
      record {
        id = msg.id;
        flags = msg.flags;
        internal_date = msg.internal_date;
        size = msg.size;
        msg_id = f.message_id;
        xhash = f.hash_hdr;
        surrogate = sur;
        keys = match_keys_from f.message_id f.hash_hdr sur;
      }

  unfoldable pub parse_message : Message → Result Input
  unfolding input_of
  parse_message msg = elim (parse_fields m msg.header hash_header) [
    | err e ↦ err (wrap (text "message id=" ++ (msg.id ++ text ": ")) e)
    | ok f ↦ ok (input_of msg f)
  ]

  -- The loop of `Build`: a message that cannot be parsed is left out and its error kept.
  unfoldable pub parse_all : List Message → List Input × List Error
  parse_all [] = ([], [])
  parse_all (msg ∷ rest) =
      let (inputs, errs) = parse_all rest in
      elim (parse_message msg) [ err e ↦ (inputs, e ∷ errs) | ok input ↦ (input ∷ inputs, errs) ]

  unfoldable pub build : List Message → Index × List Error
  unfolding parse_all
  build msgs = let (inputs, errs) = parse_all msgs in (build_from inputs, errs)
