-- ===== src/Mailbox/Client/Fetching/Ranges.antt =====
-- The sequence numbers that `FetchHeaders` asks for, and the UIDs that `FetchHeadersByUID` does.
use imapsync.Base.{
  ℕ, zero, suc, Bool, Subset, nat_eq, ◌+◌, ◌-◌, ◌%◌, ◌≤◌, ◌<◌, ◌≡◌, refl, sym, ap, ◌∙◌, Option,
  none, List, [], ◌∷◌, ◌++◌, map, arith, leb, if◌then◌else◌, Bool-cases, inl, inr, length,
  append-nil,
}
use mathlib.Core.List.{map-append}
use imapsync.Base.Int.{ℤ, pos, negsuc, int_ltb, pos_part}
use imapsync.Base.Text.{Text}
use imapsync.Base.Result.{Error, ok}
use imapsync.Mailbox.Client.{ImapMessage, Protocol, Client, FetchedMessage}
use imapsync.Mailbox.Client.Fetching.{
  word, uint32, min, decode_header_msg, decode_all, fetched, range_context, fetch_ranges,
  fetch_headers, slice_context, fetch_slice, fetch_headers_by_uid,
}
use imapsync.Base.Ascending.{
  tally, tally-append, IsAscending, IsAscending-take, IsAscending-drop, contains-take,
  contains-drop,
}
use imapsync.Base.Batches.{batched, in_batches, in_batches_answer}

-- `count` numbers from `start` on.
unfoldable pub interval : ℕ → ℕ → List ℕ
interval zero start = []
interval (suc count) start = start ∷ interval count (start + 1)

interval-append :
    (a b c start next : ℕ)
    → c ≡ a + b
    → next ≡ start + a
    → interval a start ++ interval b next ≡ interval c start
unfolding interval
interval-append zero b c start next sum e =
    ap (λ k. interval b k) (omega (arith, e)) ∙ ap (λ k. interval k start) (omega (arith, sum))
interval-append (suc a) b zero start next sum e = absurd (omega (arith, sum))
interval-append (suc a) b (suc c) start next sum e =
    ap (◌∷◌ start) (interval-append a b c (start + 1) next (omega (arith, sum)) (omega (arith, e)))

map-interval :
    {A : Type 0} (f : ℕ → A) (a b c start next : ℕ)
    → c ≡ a + b
    → next ≡ start + a
    → map f (interval a start) ++ map f (interval b next) ≡ map f (interval c start)
map-interval f a b c start next sum e =
    sym (map-append f (interval a start) (interval b next))
    ∙ ap (map f) (interval-append a b c start next sum e)

slice_positive :
    (batch_size : ℤ) (n : ℕ)
    → 1 ≤ (if int_ltb batch_size (pos 1) then suc n else pos_part batch_size)
slice_positive (pos k) n = ground arith
slice_positive (negsuc k) n = omega arith

module _ {P : Protocol} (cl : Client P) (raw : ℕ → ImapMessage) (decoded : ℕ → FetchedMessage)
    (reads : (k : ℕ) → decode_header_msg cl (raw k) ≡ ok (decoded k)) where
  decode_all-map : (ks : List ℕ) → decode_all cl (map raw ks) ≡ ok (map decoded ks)
  unfolding decode_all
  decode_all-map [] = refl
  decode_all-map (k ∷ ks) = ground (arith, reads k, decode_all-map ks)

  -- A FETCH whose answer is the messages of these numbers.
  fetched-map :
      (context : Text) (ks : List ℕ) (answer : (List ImapMessage × Option Error) × P.S)
      → answer ≡ ((map raw ks, none), cl.conn)
      → fetched context cl answer ≡ (ok (map decoded ks), cl)
  unfolding fetched
  fetched-map context ks answer e = ap (fetched context cl) e ∙ ground (arith, decode_all-map ks)

  -- The server answers for a range of the folder, and the connection goes on as it was.
  module _ (size total : ℕ)
      (answers : (from to : ℕ)
        → 1 ≤ from
        → from ≤ to
        → to ≤ total
        → P.fetch_range from to cl.conn
          ≡ ((map raw (interval (to + 1 - from) from), none), cl.conn))
      (positive : 1 ≤ size) (fits : total + size < word) where
    fetched-range :
        (from to : ℕ)
        → 1 ≤ from
        → from ≤ to
        → to ≤ total
        → fetched (range_context from to) cl (P.fetch_range from to cl.conn)
          ≡ (ok (map decoded (interval (to + 1 - from) from)), cl)
    unfolding fetched
    fetched-range from to h h' h'' =
        fetched-map (range_context from to) (interval (to + 1 - from) from)
          (P.fetch_range from to cl.conn) (answers from to h h' h'')

    upper : ℕ → ℕ
    upper from = min ((from + size - 1) % word) total

    upper_bounds : (from : ℕ) → 1 ≤ from → from ≤ total → (from ≤ upper from) × (upper from ≤ total)
    unfolding upper
    upper_bounds from h h' = (ground arith, ground arith)

    upper_full : (from : ℕ) → 1 ≤ from → from + size ≤ total + 1 → upper from ≡ from + size - 1
    unfolding upper
    upper_full from h h' = ground arith

    upper_last : (from : ℕ) → from ≤ total → total + 1 < from + size → upper from ≡ total
    unfolding upper
    upper_last from h h' = ground arith

    range_step :
        (from : ℕ)
        → 1 ≤ from
        → from ≤ total
        → map decoded (interval (upper from + 1 - from) from)
            ++ map decoded (interval (total + 1 - (from + size)) (from + size))
          ≡ map decoded (interval (total + 1 - from) from)
    unfolding interval
    range_step from h h' = elim (Bool-cases (leb (from + size) (total + 1))) [
      | inl full ↦
          let top : upper from ≡ from + size - 1 = upper_full from h (ground (arith, full)) in
          map-interval decoded (upper from + 1 - from) (total + 1 - (from + size))
            (total + 1 - from) from (from + size) (ground (arith, full, top)) (omega (arith, top))
      | inr last ↦
          let none_left : total + 1 - (from + size) ≡ 0 = ground (arith, last) in
          let top : upper from ≡ total = upper_last from h' (ground (arith, last)) in
          ap
            (λ b.
              map decoded (interval (upper from + 1 - from) from)
              ++ map decoded (interval b (from + size)))
            none_left
          ∙ append-nil (map decoded (interval (upper from + 1 - from) from))
          ∙ ap (λ t. map decoded (interval (t + 1 - from) from)) top
    ]

    next_start : (from : ℕ) → from ≤ total → (from + size) % word ≡ from + size
    next_start from h = ground arith

    fetch_ranges-interval :
        (fuel from : ℕ)
        → 1 ≤ from
        → from ≤ total + size
        → total + 1 ≤ from + fuel
        → fetch_ranges fuel total size from cl
          ≡ (ok (map decoded (interval (total + 1 - from) from)), cl)
    unfolding fetch_ranges fetched interval upper
    fetch_ranges-interval zero from h h' enough =
        let none_left : 0 ≡ total + 1 - from = omega (arith, enough) in
        ap (λ n. (ok (map decoded (interval n from)), cl)) none_left
    fetch_ranges-interval (suc fuel) from h h' enough = elim (Bool-cases (leb from total)) [
      | inr over ↦
          let none_left : 0 ≡ total + 1 - from = ground (arith, over) in
          ground (arith, over, none_left)
      | inl more ↦
          let within : from ≤ total = ground (arith, more) in
          let (some_left, inside) = upper_bounds from h within in
          ground (
            arith,
            more,
            fetched-range from (upper from) h some_left inside,
            next_start from within,
            range_step from h within,
            fetch_ranges-interval fuel (from + size) (omega (arith, h)) (omega (arith, within))
                (omega (arith, enough, positive)),
          )
    ]

    -- Where every message can be read, `FetchHeaders` over a folder of `total` messages ends, and
    -- gives each of the messages 1 to `total` once and in order, whatever the batch size, as long
    -- as `total` and the batch size stay below 2^32 together.
    pub fetch_headers-interval :
        fetch_headers total (pos size) cl ≡ (ok (map decoded (interval total 1)), cl)
    unfolding fetch_headers uint32
    fetch_headers-interval =
        let same : size % word ≡ size = ground arith in
        let all : total + 1 - 1 ≡ total = omega arith in
        ap (λ n. fetch_ranges total total n 1 cl) same
        ∙ fetch_ranges-interval total 1 (omega arith) (omega (arith, positive)) (omega arith)
        ∙ ap (λ n. (ok (map decoded (interval n 1)), cl)) all

  -- The server sends the message of each of these UIDs once, in an order of its own.
  abbrev pub Sends : List ℕ → Type 0
  Sends us =
      (sent : List ℕ) × (P.fetch_uids us cl.conn ≡ ((map raw sent, none), cl.conn))
      × ((p : ℕ → Bool) → tally p sent ≡ tally p us)

  -- The messages of these UIDs, each once.
  abbrev pub Brings : List ℕ → List FetchedMessage → Type 0
  Brings us got =
      (sent : List ℕ) × (got ≡ map decoded sent) × ((p : ℕ → Bool) → tally p sent ≡ tally p us)

  Brings-append :
      (us vs : List ℕ) (got more : List FetchedMessage)
      → Brings us got
      → Brings vs more
      → Brings (us ++ vs) (got ++ more)
  Brings-append us vs got more (sent, e, same) (sent', e', same') = (
    sent ++ sent',
    rw (e, e') (sym (map-append decoded sent sent')),
    λ p. omega (arith, tally-append p sent sent', tally-append p us vs, same p, same' p),
  )

  -- Where the server answers for UIDs in ascending order and every message can be read,
  -- `FetchHeadersByUID` gives the message of each UID once, whatever the batch size: also one that
  -- is not positive.
  pub fetch_headers_by_uid-map :
      (all : List ℕ)
      → ((us : List ℕ) → IsAscending us → Subset us all → Sends us)
      → (batch_size : ℤ) (uids : List ℕ) → IsAscending uids
      → Subset uids all
      → (got : List FetchedMessage) × (fetch_headers_by_uid uids batch_size cl ≡ (ok got, cl))
        × Brings uids got
  unfolding fetch_headers_by_uid in_batches batched
  fetch_headers_by_uid-map all answers batch_size [] ascending within =
      ([], refl, ([], refl, λ p. refl))
  fetch_headers_by_uid-map all answers batch_size (u ∷ uids) ascending within =
      let size : ℕ =
        if int_ltb batch_size (pos 1) then length (u ∷ uids) else pos_part batch_size in
      in_batches_answer fetch_slice size cl (λ us. IsAscending us × Subset us all) Brings
        (λ us good.
          let (sent, answered, same) = answers us good.0 good.1 in
          (
            map decoded sent,
            fetched-map (slice_context us) sent (P.fetch_uids us cl.conn) answered,
            (sent, refl, same),
          ))
        (λ us good. (
          (IsAscending-take size us good.0, λ a h. good.1 a (contains-take size us a h)),
          (IsAscending-drop size us good.0, λ a h. good.1 a (contains-drop size us a h)),
        ))
        Brings-append ([], refl, λ p. refl) (slice_positive batch_size (length uids)) (u ∷ uids)
        (ascending, within)
