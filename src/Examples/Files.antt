-- ===== src/Examples/Files.antt =====
-- A file that one client sends to another.
use nex_talk.Base.{
  ℕ, ◌+◌, ◌<◌, ◌≤◌, ◌≡◌, refl, true, false, Option, none, some, List, [], ◌∷◌, arith, Bytes, codes,
  Result, ok, err, lookup, length, All,
}
use nex_talk.Crypto.Ratchet.{SecurePeer}
use nex_talk.Client.{Client, ClientError, find_session}
use nex_talk.Client
use nex_talk.Filetransfer.Manifests.{Manifest}
use nex_talk.Filetransfer.{
  split_chunks, chunks_of, join_chunks, encrypt_file, reassemble_and_decrypt,
}
use nex_talk.Filetransfer.Chunks.{chunks_of_complete}
use nex_talk.Filetransfer.EndToEnd.{reassemble_and_decrypt-encrypt_file}
use nex_talk.Examples.Toy.{toy, toy_suite, toy-Laws}
use nex_talk.Examples.Session.{no_keys, alice, bob, in_sync, fresh_pair}

chunks_of_complete_example :
    (split_chunks 5 2 (codes "abc") ≡ chunks_of 2 (codes "abc"))
    × (join_chunks (chunks_of 2 (codes "abc")) ≡ some (codes "abc"))
    × All (λ (c : Bytes). (0 < length c) × (length c ≤ 2)) (chunks_of 2 (codes "abc"))
chunks_of_complete_example = chunks_of_complete 5 2 (codes "abc") (omega arith) (omega arith)

abbrev client_of : Bytes → Bytes → SecurePeer → Client
client_of id peer_id sp = record {
  id = id;
  identity_private = [];
  identity_public = [];
  dilithium_private = [];
  dilithium_public = [];
  sessions = record { table = (peer_id, 0) ∷ []; peers = λ a. sp; keys = λ a. no_keys; next = 1 };
  saved = none;
  ephemeral = false;
  writable = true;
}

abbrev sender : Client
sender = client_of (codes "A") (codes "B") alice

abbrev receiver : Client
receiver = client_of (codes "B") (codes "A") bob

wire_of : Result ClientError Bytes → Bytes
wire_of (ok wire) = wire
wire_of (err e) = []

cipher : Bytes
unfolding wire_of
cipher = wire_of (Client.encrypt toy sender fresh_pair (codes "B") (codes "hello")).0

sealed : (Client.encrypt toy sender fresh_pair (codes "B") (codes "hello")).0 ≡ ok cipher
unfolding cipher wire_of Client.encrypt toy lookup nex_talk.Base.beq nex_talk.Crypto.Ratchet.encrypt
    nex_talk.Crypto.Ratchet.encrypt_chain nex_talk.Crypto.Ratchet.count_sent
    nex_talk.Crypto.Ratchet.seal_frame nex_talk.Crypto.SecureMessage.hmac_payload
    nex_talk.Crypto.SecureMessage.marshal_bin_id nex_talk.Crypto.SecureMessage.wire_frame
sealed = refl

held : lookup (codes "B") sender.sessions.table ≡ some 0
unfolding lookup nex_talk.Base.beq
held = refl

found : find_session receiver.sessions (codes "A") ≡ some 0
unfolding find_session lookup nex_talk.Base.beq
found = refl

reassemble_and_decrypt-encrypt_file_example :
    (chunks : List Bytes) × (mf : Manifest) × ((encrypt_file toy toy_suite sender fresh_pair
        (codes "B")
        (codes "f.txt")
        (codes "hello")
        16).0
      ≡ ok (cipher, chunks, mf))
    × ((reassemble_and_decrypt toy toy_suite receiver (codes "A") chunks mf).0 ≡ ok (codes "hello"))
reassemble_and_decrypt-encrypt_file_example =
    reassemble_and_decrypt-encrypt_file toy toy_suite toy-Laws sender receiver fresh_pair 0 0
      (codes "B") (codes "f.txt") (codes "hello") cipher 16 held found in_sync (omega arith)
      (omega arith) (omega arith) (omega arith) sealed
