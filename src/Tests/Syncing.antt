-- ===== src/Tests/Syncing.antt =====
-- The theorems on deduplication, on a pair, on `dial` and on a cycle, at concrete inputs.
use imapsync.Base.{
  ℕ, zero, suc, ◌≡◌, refl, true, false, not, none, List, [], ◌∷◌, ◌++◌, any, filter, arith, map,
  Subset, ◌==◌, list_eq, nat_eq,
}
use imapsync.Base.Dict
use imapsync.Base.Int.{pos}
use imapsync.Base.Time.{unix, from_unix}
use imapsync.Base.Text.{Text, text}
use imapsync.Base.Result.{Error, Result, ok, err}
use imapsync.Mailbox.Message.{Fields, inject_hash_header}
use imapsync.Dedup.{Entry, missing, build_from}
use imapsync.Dedup.Disjoint.{AreDisjoint, AreDisjoint-build_from}
use imapsync.Dedup.Missing.{same_message, missing-build_from}
use imapsync.Config.{User, FolderPair}
use imapsync.Store.Tables.{Store}
use imapsync.Stats.{fresh_user}
use imapsync.Syncer.Convergence.{copies, missing_after_copy, missing_back}
use imapsync.Base.Sort.{sort, text_leb}
use imapsync.Dedup.{build}
use imapsync.Store.State.{msgs_of}
use imapsync.Store.Tables.{Scope}
use imapsync.Syncer.Index.{index_folder_incremental}
use imapsync.Syncer.Incremental.{unsized}
use imapsync.Syncer.Incremental.Built.{IsCurrent, Serves, index_folder_incremental-build}
use imapsync.Syncer.Incremental.Kept.{no_faults, Leaves, index_folder_incremental-Leaves}
use imapsync.Syncer.Pair.{Rules, World, Session, sync_pair}
use imapsync.Syncer.Pair.OneWay.{sync_pair_one_way}
use imapsync.Syncer.Errors.{is_conn_err}
use imapsync.Syncer.Dial.{dial, retries}
use imapsync.Syncer.Dial.Retry.{answers, loses, dial_answers}
use imapsync.Syncer.Pool.{State, Steps, start, hands, finishes, here, step}
use imapsync.Syncer.Pool.Cycle.{count, cycle_exactly_once}
use imapsync.Tests.{plain_mail, letters_a, letters_b, message, folder}

abbrev new_name : Entry → Text
new_name e = text "new-" ++ e.id

missing_after_copy_example :
    missing (build_from letters_a) (
      build_from
        (letters_b ++ copies new_name (missing (build_from letters_a) (build_from letters_b))))
    ≡ []
missing_after_copy_example =
    missing_after_copy new_name letters_a letters_b (refl, (refl, (refl, tt)))

missing_back_example :
    missing
      (build_from
        (letters_b ++ copies new_name (missing (build_from letters_a) (build_from letters_b))))
      (build_from letters_a)
    ≡ missing (build_from letters_b) (build_from letters_a)
missing_back_example = missing_back new_name letters_a letters_b (refl, (refl, (refl, tt)))

missing-build_from_example :
    missing (build_from letters_a) (build_from letters_b)
    ≡ filter
        (λ e. not (any (same_message e) (build_from letters_b).entries))
        (build_from letters_a).entries
missing-build_from_example = missing-build_from (build_from letters_a) letters_b

AreDisjoint-build_from_example : AreDisjoint (build_from letters_a).entries
AreDisjoint-build_from_example = AreDisjoint-build_from letters_a

abbrev pub rules : Rules
rules = record {
  mail = plain_mail;
  hash_header = text "X-Hash";
  dir_a_to_b = true;
  dir_b_to_a = true;
  incremental = true;
  full_resync_every = pos 0;
  quote = λ s. s;
}

abbrev pub world : World
world = record {
  now = pos 100;
  ctx = λ n. none;
  faults_a = no_faults;
  faults_b = no_faults;
  post_a = none;
  post_b = none;
}

abbrev empty_store : Store
empty_store = record {
  users = [];
  folder_pairs = [];
  sync_endpoint = [];
  sync_msg_cache = [];
  user_status = [];
  user_run = [];
}

abbrev side_a : Scope
side_a = (text "ann", (text "INBOX", text "a"))

abbrev two_ids : List Text
two_ids = text "2" ∷ text "1" ∷ []

abbrev three_ids : List Text
three_ids = text "3" ∷ two_ids

two_served :
    (asked : List Text)
    → Subset asked two_ids
    → Serves plain_mail (text "X-Hash") (folder false) message (map message two_ids) asked
two_served asked sub = (map message two_ids, refl, (refl, (refl, tt)), sub)

three_served :
    (asked : List Text)
    → Subset asked three_ids
    → Serves plain_mail (text "X-Hash") (folder false) message (map message three_ids) asked
three_served asked sub = (map message three_ids, refl, (refl, (refl, (refl, tt))), sub)

nothing_cached :
    IsCurrent plain_mail (text "X-Hash") (folder false) message side_a (text "v1") empty_store
unfolding msgs_of Dict.lookup
nothing_cached h id cm e = cc

abbrev after_first : Store
after_first =
    (index_folder_incremental plain_mail (text "X-Hash") (folder false) no_faults (pos 100) (pos 0)
      (text "INBOX: ") side_a (text "v1") (map message two_ids) empty_store
      (fresh_user (text "ann"))).store

index_folder_incremental-Leaves_example :
    Leaves plain_mail (text "X-Hash") message side_a two_ids after_first
unfolding unix from_unix
index_folder_incremental-Leaves_example =
    index_folder_incremental-Leaves plain_mail (text "X-Hash") (folder false) (pos 100) (pos 0)
      (text "INBOX: ") side_a (text "v1") (map message two_ids) empty_store
      (fresh_user (text "ann")) message two_ids refl two_served nothing_cached (λ i. (tt, refl))

after_first-Leaves : Leaves plain_mail (text "X-Hash") message side_a two_ids after_first
unfolding unix from_unix
after_first-Leaves =
    index_folder_incremental-Leaves plain_mail (text "X-Hash") (folder false) (pos 100) (pos 0)
      (text "INBOX: ") side_a (text "v1") (map message two_ids) empty_store
      (fresh_user (text "ann")) message two_ids refl two_served nothing_cached (λ i. (tt, refl))

-- A third message has come since the cache was written.
index_folder_incremental-build_example :
    (index_folder_incremental plain_mail
      (text "X-Hash")
      (folder false)
      no_faults
      (pos 100)
      (pos 0)
      (text "INBOX: ")
      side_a
      (text "v1")
      (map message three_ids)
      after_first
      (fresh_user (text "ann"))).outcome
    ≡ ok
        (build plain_mail
          (text "X-Hash")
          (map (λ id. unsized (message id)) (sort text_leb three_ids))).0
index_folder_incremental-build_example =
    index_folder_incremental-build plain_mail (text "X-Hash") (folder false) no_faults (pos 100)
      (pos 0) (text "INBOX: ") side_a (text "v1") (map message three_ids) after_first
      (fresh_user (text "ann")) message three_ids refl refl refl three_served
      (λ h. after_first-Leaves.0)

abbrev pub session : Session rules (folder false) (folder true)
session = record {
  a = message (text "one") ∷ [];
  b = [];
  store = empty_store;
  us = fresh_user (text "ann");
  polls = 0;
}

abbrev pub inbox : FolderPair
inbox = record { a = text "INBOX"; b = text "INBOX" }

sync_pair_one_way_example :
    (sync_pair rules (folder false) (folder true) world (text "ann") inbox session).1.b ≡ []
sync_pair_one_way_example =
    sync_pair_one_way rules (folder false) (folder true) (λ s. s ≡ [])
      (record {
        selecting = λ name s p. p;
        listing = λ s p. p;
        fetching = λ ids s p. p;
        opening = λ id s p. p;
      })
      refl world (text "ann") inbox session refl

abbrev lost : Error
lost = record { is_eof = true; is_net = false; message = text "EOF" }

-- A server that loses the first connection.
abbrev flaky : ℕ → Result Text × ℕ
flaky zero = (err lost, 1)
flaky (suc n) = (ok (text "session"), suc (suc n))

dial_answers_example : dial flaky (λ j. none) (pos 3) 0 ≡ (ok (text "session"), 2)
unfolding is_conn_err retries
dial_answers_example =
    dial_answers flaky (λ j. none) (pos 3) 1 0 2 (text "session") (λ j. refl)
      (loses lost refl refl (answers refl)) (omega arith)

abbrev user_of : Text → User
user_of name = record { name = name; user_a = name; user_b = name; path_a = []; path_b = [] }

abbrev two_users : List User
two_users = user_of (text "ann") ∷ user_of (text "bob") ∷ []

abbrev finished : State
finished = record { waiting = []; busy = []; done = two_users }

-- Ann is handed out, Bob is handed out, Ann is finished, Bob is finished.
two-Steps : Steps 2 false (start two_users) finished
two-Steps = step (hands _ (user_of (text "ann")) (user_of (text "bob") ∷ []) refl (omega arith)) (
    step (hands _ (user_of (text "bob")) [] refl (omega arith)) (
      step (finishes _ (user_of (text "ann")) [] (user_of (text "bob") ∷ []) refl)
        (step (finishes _ (user_of (text "bob")) [] [] refl) here)))

cycle_exactly_once_example :
    count (λ u. u.name == text "bob") two_users ≡ count (λ u. u.name == text "bob") two_users
cycle_exactly_once_example =
    cycle_exactly_once 2 two_users finished two-Steps (refl, refl) (λ u. u.name == text "bob")

abbrev header : Text
header = text "Subject: x"

abbrev name : Text
name = text "X-Hash"

abbrev injected : Text
injected = inject_hash_header plain_mail header name (text "f00")

abbrev fields : Fields
fields = record {
  message_id = [];
  date = pos 0;
  subject = text "x";
  from = text "y";
  hash_hdr = text "h";
}
