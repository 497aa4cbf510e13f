-- ===== src/Examples/Session.antt =====
-- Runs of a ratchet session between two ends.
use nex_talk.Base.{
  if◌then◌else◌, ℕ, ◌+◌, ◌≤◌, ◌<◌, ◌≡◌, ◌≢◌, refl, false, Option, none, some, List, [], ◌∷◌, arith,
  Bytes, codes, ok, err, lookup, map, take, ltb, ◌⊎◌,
}
use nex_talk.Crypto.SecureMessage.{
  SecureMessage, CryptoResult, replay, too_many_skipped, hmac_payload, wire_frame,
  parse_secure_message,
}
use nex_talk.Crypto.Ratchet.{
  SecurePeer, KeyPair, or_nil, max_skip, root_info, skip_message_keys, encrypt, decrypt,
  authenticate, open_next,
}
use nex_talk.Crypto.Ratchet.Sync.{
  IsInSync, encrypt_all, decrypt_all, decrypt_all-encrypt_all, decrypt-encrypt,
}
use nex_talk.Crypto.Ratchet.Rejects.{decrypt_changes_epoch, skip_message_keys_bounds}
use nex_talk.Crypto.Ratchet.Replay.{KeepsPast, decrypt_once}
use nex_talk.Crypto.Ratchet.Gap.{decrypt_swapped}
use nex_talk.Crypto.SecureMessage.{CryptoResult}
use nex_talk.Crypto.Ratchet.Genuine.{IsGenuine, decrypt-IsGenuine}
use nex_talk.Crypto.Handshake.{PeerKeys}
use nex_talk.Examples.Toy.{toy, toy-Laws}

abbrev pub fresh_pair : KeyPair
fresh_pair = record { priv = 11 ∷ []; public = 12 ∷ [] }

-- The keys of a session whose handshake is over.
abbrev pub no_keys : PeerKeys
no_keys = record {
  expected_peer_hash = none;
  identity_private = [];
  identity_public = [];
  pqc_sign_private = [];
  pqc_sign_public = [];
  priv = [];
  public = [];
  pqc_private_key = [];
  pqc_public_key = [];
  file_key = [];
  am_initiator = false;
  seen_offers = [];
}

abbrev pub alice : SecurePeer
alice = record {
  dh_private = 1 ∷ [];
  dh_public = 2 ∷ [];
  remote_dh_public = some (4 ∷ []);
  root_key = [];
  send_ck = 5 ∷ [];
  recv_ck = 6 ∷ [];
  hmac_key = 7 ∷ [];
  send_nonce = 0;
  recv_nonce = 0;
  skipped_messages = [];
  pending_dh_ratchet = false;
}

abbrev pub bob : SecurePeer
bob = record {
  dh_private = 3 ∷ [];
  dh_public = 4 ∷ [];
  remote_dh_public = some (2 ∷ []);
  root_key = [];
  send_ck = 6 ∷ [];
  recv_ck = 5 ∷ [];
  hmac_key = 7 ∷ [];
  send_nonce = 0;
  recv_nonce = 0;
  skipped_messages = [];
  pending_dh_ratchet = false;
}

pub in_sync : IsInSync alice bob
unfolding lookup
in_sync = record {
  chain = refl;
  count = refl;
  mac = refl;
  remote = refl;
  settled = refl;
  fresh = λ i h. refl;
}

-- A message of A with a text of one byte.
abbrev message_at : Bytes → ℕ → Bytes → SecureMessage
message_at key n tag = record {
  sender_id = codes "A";
  ratchet_key = key;
  nonce = n;
  ciphertext = 9 ∷ codes "h";
  tag = tag;
}

abbrev some_list : Option (List Bytes) → List Bytes
some_list none = []
some_list (some bs) = bs

two_texts : List Bytes
two_texts = codes "hi" ∷ codes "yo" ∷ []

two_wires : List Bytes
two_wires = some_list (encrypt_all toy alice fresh_pair (codes "A") two_texts)

written : encrypt_all toy alice fresh_pair (codes "A") two_texts ≡ some two_wires
unfolding two_wires two_texts encrypt_all encrypt nex_talk.Crypto.Ratchet.encrypt_chain
    nex_talk.Crypto.Ratchet.count_sent nex_talk.Crypto.Ratchet.seal_frame toy
    nex_talk.Crypto.SecureMessage.hmac_payload nex_talk.Crypto.SecureMessage.marshal_bin_id
    wire_frame
written = refl

decrypt_all-encrypt_all_example :
    decrypt_all toy bob two_wires ≡ map (λ (text : Bytes). ok (codes "A", text)) two_texts
decrypt_all-encrypt_all_example =
    unfold two_texts in
    decrypt_all-encrypt_all toy toy-Laws alice bob fresh_pair (codes "A") two_texts two_wires
      in_sync (omega arith) written

first_wire : Bytes
first_wire = or_nil (wire_frame toy (message_at (2 ∷ []) 0 (7 ∷ [])))

first_written : (encrypt toy alice fresh_pair (codes "A") (codes "h")).0 ≡ ok first_wire
unfolding first_wire encrypt nex_talk.Crypto.Ratchet.encrypt_chain
    nex_talk.Crypto.Ratchet.count_sent nex_talk.Crypto.Ratchet.seal_frame toy hmac_payload
    nex_talk.Crypto.SecureMessage.marshal_bin_id wire_frame nex_talk.Crypto.Ratchet.sealed_message
first_written = refl

decrypt-encrypt_example :
    ((decrypt toy bob first_wire).0 ≡ ok (codes "A", codes "h"))
    × IsInSync
        (encrypt toy alice fresh_pair (codes "A") (codes "h")).1
        (decrypt toy bob first_wire).1
decrypt-encrypt_example =
    decrypt-encrypt toy toy-Laws alice bob fresh_pair (codes "A") (codes "h") first_wire in_sync
      (omega arith) first_written

frame_of : SecureMessage → Bytes
frame_of m = or_nil (wire_frame toy m)

-- A frame two messages ahead of the receiver.
abbrev ahead : SecureMessage
ahead = message_at (2 ∷ []) 2 (7 ∷ [])

ahead_real : authenticate toy bob (frame_of ahead) ≡ ok ahead
unfolding frame_of authenticate parse_secure_message toy wire_frame
    nex_talk.Crypto.SecureMessage.marshal_bin_id nex_talk.Std.Words.put_uint64
    nex_talk.Std.Words.be_fold hmac_payload nex_talk.Base.beq
ahead_real = refl

bob-KeepsPast : KeepsPast bob
unfolding lookup
bob-KeepsPast i h = refl

decrypt_once_example :
    KeepsPast (decrypt toy bob (frame_of ahead)).1
    × (decrypt toy (decrypt toy bob (frame_of ahead)).1 (frame_of ahead)
        ≡ (err replay, (decrypt toy bob (frame_of ahead)).1))
decrypt_once_example = decrypt_once toy bob (frame_of ahead) ahead ahead_real refl bob-KeepsPast

ahead_opened : (decrypt toy bob (frame_of ahead)).0 ≡ ok (codes "A", codes "h")
unfolding frame_of decrypt authenticate parse_secure_message toy wire_frame
    nex_talk.Crypto.SecureMessage.marshal_bin_id nex_talk.Std.Words.put_uint64
    nex_talk.Std.Words.be_fold hmac_payload nex_talk.Base.beq nex_talk.Crypto.Ratchet.open_message
    lookup open_next nex_talk.Crypto.Ratchet.is_new_epoch nex_talk.Crypto.Ratchet.open_chain
    nex_talk.Crypto.Ratchet.decrypt_with_key
ahead_opened = refl

decrypt-IsGenuine_example : IsGenuine toy bob (frame_of ahead) (codes "A") (codes "h")
decrypt-IsGenuine_example =
    decrypt-IsGenuine toy bob (frame_of ahead) (codes "A") (codes "h") ahead_opened

-- A frame under another ratchet key, with a ciphertext that does not open.
abbrev foreign : SecureMessage
foreign = record (message_at (99 ∷ []) 2 (7 ∷ [])) { ciphertext = [] }

foreign_real : authenticate toy bob (frame_of foreign) ≡ ok foreign
unfolding frame_of authenticate parse_secure_message toy wire_frame
    nex_talk.Crypto.SecureMessage.marshal_bin_id nex_talk.Std.Words.put_uint64
    nex_talk.Std.Words.be_fold hmac_payload nex_talk.Base.beq
foreign_real = refl

foreign_key : foreign.ratchet_key ≢ 2 ∷ []
foreign_key e = ground arith

decrypt_changes_epoch_example :
    ((decrypt toy bob (frame_of foreign)).1.remote_dh_public ≡ some (99 ∷ []))
    × ((decrypt toy bob (frame_of foreign)).1.root_key
        ≡ take 32 (toy.hkdf (toy.x25519 (3 ∷ []) (99 ∷ [])) [] root_info 64))
    × ((decrypt toy bob (frame_of foreign)).1.recv_nonce ≡ 3)
unfolding lookup
decrypt_changes_epoch_example =
    decrypt_changes_epoch toy bob (frame_of foreign) (2 ∷ []) foreign foreign_real refl foreign_key
      refl

skip_message_keys_bounds_example :
    ((0 + max_skip < 5000) × (skip_message_keys toy bob 5000 ≡ (err too_many_skipped, bob)))
    ⊎ ((5000 ≤ 0 + max_skip)
        × ((skip_message_keys toy bob 5000).0 ≡ ok tt)
        × ((skip_message_keys toy bob 5000).1.recv_nonce ≡ (if ltb 0 5000 then 5000 else 0)))
skip_message_keys_bounds_example = skip_message_keys_bounds toy bob 5000

abbrev wire_of : CryptoResult Bytes → Bytes
wire_of (ok b) = b
wire_of (err e) = []

second_wire : Bytes
second_wire =
    wire_of
      (encrypt toy (encrypt toy alice fresh_pair (codes "A") (codes "h")).1 fresh_pair (codes "A")
        (codes "i")).0

second_written :
    (encrypt toy
      (encrypt toy alice fresh_pair (codes "A") (codes "h")).1
      fresh_pair
      (codes "A")
      (codes "i")).0
    ≡ ok second_wire
unfolding second_wire toy encrypt nex_talk.Crypto.Ratchet.encrypt_chain
    nex_talk.Crypto.Ratchet.count_sent nex_talk.Crypto.Ratchet.seal_frame hmac_payload
    nex_talk.Crypto.SecureMessage.marshal_bin_id wire_frame
second_written = refl

decrypt_swapped_example :
    ((decrypt toy bob second_wire).0 ≡ ok (codes "A", codes "i"))
    × ((decrypt toy (decrypt toy bob second_wire).1 first_wire).0 ≡ ok (codes "A", codes "h"))
decrypt_swapped_example =
    decrypt_swapped toy toy-Laws alice bob fresh_pair (codes "A") (codes "h") (codes "i") first_wire
      second_wire in_sync (omega arith) first_written second_written
