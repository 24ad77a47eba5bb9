-- ===== src/Mailbox/Client/Fetching.antt =====
-- FETCH, SEARCH and APPEND of internal/mailbox/client.go.
pub mod Ranges
use imapsync.Base.{
  ℕ, zero, suc, ◌+◌, ◌-◌, ◌%◌, ◌^◌, Bool, true, false, ◌&&◌, not, Option, none, some, List, [], ◌∷◌,
  ◌++◌, ◌==◌, list_eq, nat_eq, leb, if◌then◌else◌, length,
}
use imapsync.Base.Int.{ℤ, pos, negsuc, int_ltb, pos_part}
use imapsync.Base.Text.{Text, text}
use imapsync.Base.Batches.{in_batches}
use imapsync.Base.Time.{Time, decimal}
use imapsync.Base.Result.{Error, Result, ok, err, errorf, wrap}
use imapsync.Endpoint.{Literal}
use imapsync.Mailbox.Client.{
  ImapMessage, AppendStatus, Protocol, Client, FetchedMessage, on_user, on_server,
}

-- `uint32(n)`
abbrev pub word : ℕ
word = 2 ^ 32

unfoldable pub uint32 : ℤ → ℕ
uint32 (pos n) = n % word
uint32 (negsuc n) = (word - (n + 1) % word) % word

abbrev pub min : ℕ → ℕ → ℕ
min a b = if leb a b then a else b

abbrev uid_text : ℕ → Text
uid_text uid = decimal (pos uid)

abbrev range_context : ℕ → ℕ → Text
range_context from to = text "FETCH headers " ++ (uid_text from ++ (b':' ∷ uid_text to))

abbrev pub slice_context : List ℕ → Text
slice_context uids =
    text "FETCH headers by UID (" ++ (decimal (pos (length uids)) ++ text " of them)")

-- The last body that the channel delivers.
unfoldable pub last_body : Option Literal → List (Option Literal) → Option Literal
last_body found [] = found
last_body found (none ∷ rest) = last_body found rest
last_body found (some lit ∷ rest) = last_body (some lit) rest

-- The UID in an APPENDUID response, and 0 for any other.
unfoldable pub append_uid : AppendStatus → ℕ
append_uid st = elim st.arguments [
  | validity ∷ uid ∷ [] ↦
      if st.code == text "APPENDUID" then elim uid [ none ↦ 0 | some u ↦ u ] else 0
  | _ ↦ 0
]

module _ {P : Protocol} where
  unfoldable pub decode_header_msg : Client P → ImapMessage → Result FetchedMessage
  decode_header_msg cl msg = elim msg.body [
    | err why ↦ err (wrap (text "reading headers uid=" ++ (uid_text msg.uid ++ on_server cl)) why)
    | ok body ↦ ok (record {
      seq_num = msg.seq_num;
      uid = msg.uid;
      flags = msg.flags;
      internal_date = msg.internal_date;
      size = msg.size;
      header = elim body [ none ↦ [] | some raw ↦ raw ];
    })
  ]

  -- The loop over the channel of one FETCH.
  unfoldable pub decode_all : Client P → List ImapMessage → Result (List FetchedMessage)
  unfolding decode_header_msg
  decode_all cl [] = ok []
  decode_all cl (msg ∷ msgs) =
      let rest = decode_all cl msgs in
      elim (decode_header_msg cl msg) [
        | err why ↦ err why
        | ok fm ↦ elim rest [ err why ↦ err why | ok fms ↦ ok (fm ∷ fms) ]
      ]

  -- What one FETCH gives: the messages, and after them the command's own outcome.
  unfoldable pub fetched :
      Text
      → Client P
      → (List ImapMessage × Option Error) × P.S
      → Result (List FetchedMessage) × Client P
  unfolding decode_all
  fetched context cl ((msgs, failed), conn') =
      let cl' = record cl { conn = conn' } in
      elim (decode_all cl msgs) [
        | err why ↦ (err why, cl')
        | ok fms ↦ elim failed [
          | some why ↦ (err (wrap (context ++ on_server cl) why), cl')
          | none ↦ (ok fms, cl')
        ]
      ]

  -- The loop of `FetchHeaders`; `from`, `to` and `size` are uint32 and wrap. The fuel is the number
  -- of messages.
  unfoldable pub fetch_ranges : ℕ → ℕ → ℕ → ℕ → Client P → Result (List FetchedMessage) × Client P
  unfolding fetched
  fetch_ranges zero total size from cl = (ok [], cl)
  fetch_ranges (suc fuel) total size from cl =
      let to = min ((from + size - 1) % word) total in
      let (got, cl') = fetched (range_context from to) cl (P.fetch_range from to cl.conn) in
      let (more, cl'') = fetch_ranges fuel total size ((from + size) % word) cl' in
      if leb from total
      then elim got [
        | err why ↦ (err why, cl')
        | ok ys ↦ elim more [ err why ↦ (err why, cl'') | ok zs ↦ (ok (ys ++ zs), cl'') ]
      ]
      else (ok [], cl)

  unfoldable pub fetch_headers : ℕ → ℤ → Client P → Result (List FetchedMessage) × Client P
  unfolding fetch_ranges uint32
  fetch_headers total batch_size cl = fetch_ranges total total (uint32 batch_size) 1 cl

  abbrev pub fetch_slice : List ℕ → Client P → Result (List FetchedMessage) × Client P
  fetch_slice uids cl = fetched (slice_context uids) cl (P.fetch_uids uids cl.conn)

  -- `FetchHeadersByUID`
  unfoldable pub fetch_headers_by_uid :
      List ℕ → ℤ → Client P → Result (List FetchedMessage) × Client P
  unfolding fetched
  fetch_headers_by_uid uids batch_size cl =
      let n = if int_ltb batch_size (pos 1) then length uids else pos_part batch_size in
      in_batches fetch_slice n uids cl

  unfoldable pub uid_search_all : Client P → Result (List ℕ) × Client P
  uid_search_all cl =
      let (found, conn') = P.uid_search cl.conn in
      let cl' = record cl { conn = conn' } in
      elim found [
        | err why ↦ (err (wrap (text "UID SEARCH" ++ on_server cl) why), cl')
        | ok uids ↦ (ok uids, cl')
      ]

  unfoldable pub fetch_full_literal : ℕ → Client P → Result Literal × Client P
  unfolding last_body
  fetch_full_literal uid cl =
      let (answer, conn') = P.fetch_body uid cl.conn in
      let cl' = record cl { conn = conn' } in
      elim answer.1 [
        | some why ↦
            (err (wrap (text "FETCH body uid=" ++ (uid_text uid ++ on_server cl)) why), cl')
        | none ↦ elim (last_body none answer.0) [
          | none ↦ (
            err (
                errorf
                  (text "message uid=" ++ (uid_text uid ++ (text " not found" ++ on_user cl)))),
            cl',
          )
          | some lit ↦ (ok lit, cl')
        ]
      ]

  unfoldable pub append_literal : Text → List Text → Time → Literal → Client P → Result ℕ × Client P
  unfolding append_uid
  append_literal folder flags date msg cl =
      let (executed, conn') = P.execute_append folder flags date msg cl.conn in
      let cl' = record cl { conn = conn' } in
      let context = text "APPEND to " ++ (P.quote folder ++ on_server cl) in
      elim executed [
        | err why ↦ (err (wrap context why), cl')
        | ok st ↦ elim st.failed [
          | some why ↦ (err (wrap context why), cl')
          | none ↦ (ok (append_uid st), cl')
        ]
      ]
