-- ===== src/Tests.antt =====
-- Inputs on which the theorems are run.
mod Syncing
mod Discovering
mod Storing
mod Configuring
mod Running
mod Mailboxes
mod Archives
mod Operating
use imapsync.Base.{
  ℕ, zero, suc, ◌+◌, Bool, true, false, Option, none, some, List, [], ◌∷◌, ◌++◌, map,
}
use imapsync.Base.Int.{ℤ, pos}
use imapsync.Base.Text.{Text, text}
use imapsync.Base.Result.{Error, Result, ok, err, errorf}
use imapsync.Mailbox.Message.{Mail, match_keys_from}
use imapsync.Endpoint.{Endpoint, Message, Literal, streamed}
use imapsync.Dedup.{Input}

-- A `net/mail` without any header, and a hash that is its argument.
abbrev pub plain_mail : Mail
plain_mail = record {
  read_message = λ raw. ok (λ name. []);
  parse_date = λ s. none;
  parse_address = λ s. none;
  decode_words = λ s. none;
  sha256_hex = λ s. s;
  lower = λ c. c;
}

abbrev pub letter : Text → Text → Input
letter id sur = record {
  id = id;
  flags = [];
  internal_date = pos 0;
  size = 1;
  msg_id = id;
  xhash = [];
  surrogate = sur;
  keys = match_keys_from id [] sur;
}

abbrev pub first_letter : Input
first_letter = letter (text "one") (text "s1")

abbrev pub second_letter : Input
second_letter = letter (text "two") (text "s2")

abbrev pub letters_a : List Input
letters_a = first_letter ∷ second_letter ∷ first_letter ∷ []

abbrev pub letters_b : List Input
letters_b = second_letter ∷ letter (text "three") (text "s3") ∷ []

abbrev pub message : Text → Message
message id = record { id = id; flags = []; internal_date = pos 0; size = 1; header = [] }

-- A session on one folder, whose state is the folder's messages.
abbrev pub folder : Bool → Endpoint
folder is_read_only = record {
  State = List Message;
  select = λ name s. (ok (name, text "v1"), s);
  list_ids = λ s. (ok (map (λ m. m.id) s), s);
  fetch_meta = λ ids s. (ok s, s);
  open_message = λ id s. (ok (streamed id 3), s);
  append = λ flags date body s. (ok (text "new"), message (text "new") ∷ s);
  read_only = is_read_only;
}
