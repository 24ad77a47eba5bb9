-- ===== src/Endpoint/Imap/Listed.antt =====
-- What an IMAP session fetches of the messages that it lists.
use imapsync.Base.{ℕ, Subset, Bool, nat_eq, ◌<◌, ◌≡◌, some, List, map, arith, All}
use imapsync.Base.Ascending.{tally, IsAscending}
use imapsync.Base.Text.{Text}
use imapsync.Base.Result.{ok}
use imapsync.Mailbox.Client.{ImapMessage, Protocol, Client, FetchedMessage}
use imapsync.Mailbox.Client.Fetching.{word, decode_header_msg, uid_search_all}
use imapsync.Mailbox.Client.Fetching.Ranges.{Sends, fetch_headers_by_uid-map}
use imapsync.Endpoint.Imap
use imapsync.Endpoint.Imap.{State, uid_str, message_of, answered, parse_each, parse_uid}
use imapsync.Endpoint.Imap.Uids.{parse_each-uid_str}

-- A server that answers, for a connection that stays as it is: it finds these UIDs, and asked for some
-- of them, in ascending order, it sends the message of each once, in an order of its own.
pub record Answers {P : Protocol} (cl : Client P) (uids : List ℕ) (raw : ℕ → ImapMessage)
    (decoded : ℕ → FetchedMessage) : Type 0 where
  pub reads : (u : ℕ) → decode_header_msg cl (raw u) ≡ ok (decoded u)
  pub found : P.uid_search cl.conn ≡ (ok uids, cl.conn)
  pub sends : (us : List ℕ) → IsAscending us → Subset us uids → Sends cl raw decoded reads us

module _ {P : Protocol} (quote : Text → Text) (s : State P) (uids : List ℕ) (raw : ℕ → ImapMessage)
    (decoded : ℕ → FetchedMessage) where
  -- Where every message can be read, and the server answers and finds UIDs of 32 bits in ascending order, the ids that `ListIDs`
  -- gives for them can be given to `FetchMeta`, which then has the message of each UID once, in the
  -- order in which the server sends them, whatever the batch size.
  pub fetch_meta-list_ids :
      Answers s.cl uids raw decoded
      → All (λ u. u < word) uids
      → IsAscending uids
      → (Imap.list_ids s ≡ (ok (map uid_str uids), s))
        × ((sent : List ℕ) × (Imap.fetch_meta quote (some (map uid_str uids)) s
              ≡ (ok (map message_of (map decoded sent)), s))
            × ((p : ℕ → Bool) → tally p sent ≡ tally p uids))
  unfolding Imap.list_ids Imap.fetch_meta answered uid_search_all
  fetch_meta-list_ids server fits ascending =
      let read = parse_each-uid_str quote uids fits in
      let (got, e, (sent, brought, same)) =
        fetch_headers_by_uid-map s.cl raw decoded server.reads uids server.sends s.batch uids
          ascending (λ a h. h) in
      (ground (arith, server.found), (sent, ground (arith, read, e, brought), same))
