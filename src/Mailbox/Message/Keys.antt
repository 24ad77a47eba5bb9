-- ===== src/Mailbox/Message/Keys.antt =====
-- What `MatchKeysFrom` and `Identity` of internal/mailbox/message.go guarantee.
use imapsync.Base.{
  ◌≤◌, ◌≡◌, refl, true, false, ◌&&◌, ◌||◌, not, [], ◌∷◌, arith, ◌==◌, eq_iff, eq_refl, eq_comm,
  list_eq, nat_eq, contains, IsDistinct, length, if◌then◌else◌,
}
use imapsync.Base.Text.{Text, is_empty}
use imapsync.Mailbox.Message.{
  Fields, Mail, mid_key, hash_key, match_keys_from, match_keys, identity, surrogate_hash,
}

-- The keys of a message are exactly "mid:" with its Message-ID if there is one, "hash:" with the
-- header that marks a copy if there is one, and "hash:" with the surrogate.
pub contains-match_keys_from :
    (message_id hash_hdr surrogate k : Text)
    → contains (match_keys_from message_id hash_hdr surrogate) k ≡ (
        not (is_empty message_id) && k == mid_key message_id
        || not (is_empty hash_hdr) && k == hash_key hash_hdr
        || k == hash_key surrogate)
unfolding match_keys_from
contains-match_keys_from [] [] sur k = ground arith
contains-match_keys_from [] (h ∷ hs) sur k =
    ground (arith, eq_iff (hash_key (h ∷ hs)) (hash_key sur))
contains-match_keys_from (c ∷ cs) [] sur k =
    ground (arith, eq_iff (mid_key (c ∷ cs)) (hash_key sur))
contains-match_keys_from (c ∷ cs) (h ∷ hs) sur k =
    ground (arith, eq_iff (hash_key (h ∷ hs)) (hash_key sur))

-- The surrogate key is never missing.
pub match_keys_from-surrogate :
    (message_id hash_hdr surrogate : Text)
    → contains (match_keys_from message_id hash_hdr surrogate) (hash_key surrogate) ≡ true
match_keys_from-surrogate message_id hash_hdr surrogate = ground (
  arith,
  contains-match_keys_from message_id hash_hdr surrogate (hash_key surrogate),
  eq_refl (hash_key surrogate),
)

contains-identity_key :
    (message_id hash_hdr surrogate : Text)
    → contains (match_keys_from message_id hash_hdr surrogate) (
        if not (is_empty message_id)
        then mid_key message_id
        else if not (is_empty hash_hdr)
        then hash_key hash_hdr
        else hash_key surrogate)
      ≡ true
unfolding match_keys_from
contains-identity_key [] [] sur = ground (arith, eq_refl (hash_key sur))
contains-identity_key [] (h ∷ hs) sur = ground (arith, eq_refl (hash_key (h ∷ hs)))
contains-identity_key (c ∷ cs) [] sur = ground (arith, eq_refl (mid_key (c ∷ cs)))
contains-identity_key (c ∷ cs) (h ∷ hs) sur = ground (arith, eq_refl (mid_key (c ∷ cs)))

-- `Identity` is one of the match keys of the message.
pub identity-match_keys : (m : Mail) (f : Fields) → contains (match_keys m f) (identity m f) ≡ true
unfolding match_keys identity
identity-match_keys m f = contains-identity_key f.message_id f.hash_hdr (surrogate_hash m f)

mid_key-ne-hash_key : (id h : Text) → (mid_key id == hash_key h) ≡ false
unfolding list_eq
mid_key-ne-hash_key id h = refl

-- No key stands twice among the keys of a message, and there are one to three of them.
pub match_keys_from-IsDistinct :
    (message_id hash_hdr surrogate : Text)
    → IsDistinct (match_keys_from message_id hash_hdr surrogate)
      × (1 ≤ length (match_keys_from message_id hash_hdr surrogate))
      × (length (match_keys_from message_id hash_hdr surrogate) ≤ 3)
unfolding match_keys_from
match_keys_from-IsDistinct [] [] sur = ground arith
match_keys_from-IsDistinct [] (h ∷ hs) sur =
    ground (arith, eq_comm (hash_key (h ∷ hs)) (hash_key sur))
match_keys_from-IsDistinct (c ∷ cs) [] sur = ground (arith, mid_key-ne-hash_key (c ∷ cs) sur)
match_keys_from-IsDistinct (c ∷ cs) (h ∷ hs) sur = ground (
  arith,
  eq_comm (hash_key (h ∷ hs)) (hash_key sur),
  mid_key-ne-hash_key (c ∷ cs) sur,
  mid_key-ne-hash_key (c ∷ cs) (h ∷ hs),
)
