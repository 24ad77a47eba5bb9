-- ===== src/Tests/Mailboxes.antt =====
-- The theorems on the IMAP and Maildir endpoints at concrete inputs.
use imapsync.Base.{
  Bool, ◌∙◌, ℕ, suc, ◌+◌, ◌-◌, ◌≡◌, refl, sym, ap, true, false, none, some, List, [], ◌∷◌, ◌++◌,
  ◌==◌, list_eq, nat_eq, if◌then◌else◌, arith, map, contains, any,
}
use imapsync.Base.Int.{pos, negsuc}
use imapsync.Base.Text.{Text, text}
use imapsync.Base.Dict
use imapsync.Base.Time.{decimal}
use imapsync.Base.Result.{Error, Result, ok, err}
use imapsync.Endpoint.{Literal, buffered, bytes}
use imapsync.Mailbox.Client.{MailboxInfo, ImapMessage, Protocol, Client, FetchedMessage}
use imapsync.Mailbox.Client.DebugLog.{Writer, write, write-append}
use imapsync.Mailbox.Client.Connecting.{Dialer, connect, log_in, Accounted, connect-Accounted}
use imapsync.Tests.Configuring.{server as server_config}
use imapsync.Mailbox.Client.Folders.{is_alike, resolve}
use imapsync.Mailbox.Client.Folders.Resolved.{names, is_carried, resolve_lem}
use imapsync.Mailbox.Client.Fetching.{decode_header_msg, fetch_headers}
use imapsync.Mailbox.Client.Fetching.Ranges.{interval, fetch_headers-interval}
use imapsync.Endpoint.Imap
use imapsync.Endpoint.Imap.{uid_str, message_of, parse_uid}
use imapsync.Endpoint.Imap.Listed.{Answers, fetch_meta-list_ids}
use imapsync.Endpoint.Maildir.{flag_suffix, unique_id, flags_from_name, imap_to_flag_letter}
use imapsync.Endpoint.Maildir.Flags.{flag_suffix_read_back}
use imapsync.Base.Time.{unix}
use imapsync.Base.Ascending.{tally}
use imapsync.Endpoint.Maildir.Disk.{join}
use imapsync.Endpoint.Maildir.Session
use imapsync.Endpoint.Maildir.Session.{Host, unique_name, delivered_to, append, open_message}
use imapsync.Endpoint.Maildir.Delivery.{delivered, append_delivers}

-- A server that has a message for every number.
abbrev raw : ℕ → ImapMessage
raw k = record {
  seq_num = k;
  uid = k;
  flags = [];
  internal_date = pos 0;
  size = 1;
  body = ok (some (text "To: x"));
}

abbrev decoded : ℕ → FetchedMessage
decoded k = record {
  seq_num = k;
  uid = k;
  flags = [];
  internal_date = pos 0;
  size = 1;
  header = text "To: x";
}

abbrev found_uids : List ℕ
found_uids = 7 ∷ 4294967295 ∷ []

abbrev server : Protocol
server = record {
  S = Unit;
  quote = λ s. s;
  list = λ s. (ok [], s);
  create = λ name s. (ok tt, s);
  select = λ name s. (ok (record { messages = 5; uid_validity = 1 }), s);
  fetch_range = λ from to s. ((map raw (interval (to + 1 - from) from), none), s);
  fetch_uids = λ us s. ((map raw us, none), s);
  fetch_body = λ uid s. ((some (buffered (text "Hello")) ∷ [], none), s);
  uid_search = λ s. (ok found_uids, s);
  execute_append =
      λ folder flags date msg s. (ok (record { failed = none; code = []; arguments = [] }), s);
}

abbrev client : Client server
client = record { conn = tt; server = text "host"; user = text "ann"; folders = [] }

reads_raw : (k : ℕ) → decode_header_msg client (raw k) ≡ ok (decoded k)
unfolding decode_header_msg
reads_raw k = refl

-- Five messages in batches of two.
fetch_headers-interval_example :
    fetch_headers 5 (pos 2) client ≡ (ok (map decoded (interval 5 1)), client)
fetch_headers-interval_example =
    fetch_headers-interval client raw decoded reads_raw 2 5 (λ from to h h' h''. refl) (omega arith)
      (omega arith)

abbrev plain_quote : Text → Text
plain_quote s = s

abbrev imap_session : Imap.State server
imap_session = record { cl = client; batch = negsuc 0; folder = text "INBOX"; count = 5 }

answers : Answers client found_uids raw decoded
answers = record {
  found = refl;
  sends = λ us ascending within. (us, refl, λ p. refl);
  reads = reads_raw;
}

fetch_meta-list_ids_example :
    (Imap.list_ids imap_session ≡ (ok (map uid_str found_uids), imap_session))
    × ((sent : List ℕ) × (Imap.fetch_meta plain_quote (some (map uid_str found_uids)) imap_session
          ≡ (ok (map message_of (map decoded sent)), imap_session))
        × ((p : ℕ → Bool) → tally p sent ≡ tally p found_uids))
fetch_meta-list_ids_example =
    fetch_meta-list_ids plain_quote imap_session found_uids raw decoded answers
      (omega arith, (omega arith, tt)) ((omega arith, tt), (tt, tt))

abbrev mailboxes : List MailboxInfo
mailboxes =
    record { name = text "INBOX"; delimiter = text "."; attributes = [] }
    ∷ record {
      name = text "Sent Items";
      delimiter = text ".";
      attributes = (92 ∷ text "Sent") ∷ [];
    }
    ∷ []

same_case : ℕ → ℕ
same_case c = c

resolve_lem_example :
    (contains (names mailboxes) (text "INBOX") ≡ true
      → is_carried same_case (text "INBOX") mailboxes ≡ false
      → resolve same_case (text "INBOX") mailboxes ≡ some (text "INBOX"))
    × (resolve same_case (text "INBOX") mailboxes ≡ none
        → (any (is_alike same_case (text "INBOX")) mailboxes ≡ false)
          × (is_carried same_case (text "INBOX") mailboxes ≡ false))
resolve_lem_example = resolve_lem same_case (text "INBOX") mailboxes

flag_suffix_read_back_example :
    (unique_id (text "1.2_3.host" ++ flag_suffix ((92 ∷ text "Seen") ∷ text "$Label" ∷ []))
      ≡ text "1.2_3.host")
    × ((f : Text)
        → Dict.member f imap_to_flag_letter ≡ true
        → contains
            (flags_from_name
              (text "1.2_3.host" ++ flag_suffix ((92 ∷ text "Seen") ∷ text "$Label" ∷ [])))
            f
          ≡ contains ((92 ∷ text "Seen") ∷ text "$Label" ∷ []) f)
flag_suffix_read_back_example =
    flag_suffix_read_back (text "1.2_3.host") ((92 ∷ text "Seen") ∷ text "$Label" ∷ []) refl

abbrev machine : Host
machine = record { name = text "a:b"; pid = 42; now = pos 1000 }

abbrev maildir_session : Session.State
maildir_session = record {
  root = text "/m";
  folder = text "/m";
  files = [];
  disk = record {
    dirs = text "/m/tmp" ∷ text "/m/new" ∷ text "/m/cur" ∷ [];
    files = [];
    broken = λ call path. none;
  };
  counter = 0;
}

abbrev letter_body : Literal
letter_body = buffered (text "Subject: x")

abbrev letter_name : Text
letter_name = unique_name machine 1

abbrev letter_tmp : Text
letter_tmp = join (join (text "/m") (text "tmp")) letter_name

abbrev letter_dst : Text
letter_dst = delivered_to (text "/m") letter_name (flag_suffix [])

append_delivers_example :
    let r = append machine [] (pos 5) letter_body maildir_session in
    (r.0 ≡ ok letter_name)
    × ((open_message plain_quote letter_name r.1).0 ≡ ok (buffered (bytes letter_body)))
    × ((p : Text)
        → Dict.lookup p r.1.disk.files ≡ (
            if letter_dst == p
            then some (delivered machine.now (pos 5) (bytes letter_body))
            else if letter_tmp == p
            then none
            else none))
unfolding join unique_name decimal unix Dict.member list_eq
append_delivers_example =
    append_delivers plain_quote machine [] (pos 5) letter_body maildir_session (λ call path. refl)
      refl refl

abbrev new_writer : Writer
new_writer = record { logged = []; buf = [] }

write-append_example :
    (write
        (text "imap: ")
        (text "GIN" ++ (13 ∷ 10 ∷ text "B"))
        (write (text "imap: ") (text "A LO") new_writer)
      ≡ write (text "imap: ") (text "A LO" ++ (text "GIN" ++ (13 ∷ 10 ∷ text "B"))) new_writer)
    × (contains (write (text "imap: ") (text "A LO") new_writer).buf 10 ≡ false)
write-append_example =
    write-append (text "imap: ") (text "A LO") (text "GIN" ++ (13 ∷ 10 ∷ text "B")) new_writer refl

refused : Error
refused = record { is_eof = false; is_net = false; message = text "NO" }

abbrev taken : ℕ → Result (Unit {0}) × ℕ
taken n = (ok tt, suc n)

not_refused : {P : Type 0} (n n' : ℕ) (e : Error) → taken n ≡ (err e, n') → P
not_refused n n' e h = absurd (ground (arith, ap (λ p. p.0) h))

abbrev left_of : ℕ → Result (Unit {0}) × ℕ
left_of n = (ok tt, n - 1)

dialled :
    (n n' : ℕ) (c : Unit {0})
    → taken n ≡ (ok c, n')
    → (n' ≡ suc n) × ((m m' : ℕ) → m ≡ suc n → left_of m ≡ (ok tt, m') → m' ≡ n)
dialled n n' c e =
    (sym (ap (λ p. p.1) e), λ m m' h left. sym (ap (λ p. p.1) left) ∙ omega (arith, h))

-- A server that takes every connection and refuses every login.
abbrev strict : Dialer
strict = record {
  Tls = Unit;
  Conn = Unit;
  Net = ℕ;
  live = λ n. n;
  dial = λ a t n. taken n;
  capability = λ c n. (ok [], n);
  authenticate = λ c z u p n. (err refused, n);
  logout = λ c n. left_of n;
  dial_ok = λ a t n n' c e. dialled n n' c e;
  dial_err = λ a t n n' why e. not_refused n n' why e;
  live_capability = λ c n. refl;
  live_authenticate = λ c z u p n. refl;
}

connect-Accounted_example :
    Accounted strict 3 (connect strict (ok tt) server_config (text "ann") true 3)
unfolding connect log_in
connect-Accounted_example = connect-Accounted strict (ok tt) server_config (text "ann") true 3
