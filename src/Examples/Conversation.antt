-- ===== src/Examples/Conversation.antt =====
-- A conversation of two linked ends with a change of turn.
use nex_talk.Base.{
  ℕ, ◌+◌, ◌<◌, ◌^◌, ◌≡◌, ◌≢◌, refl, ◌∙◌, true, false, Option, none, some, List, [], ◌∷◌, arith,
  Bytes, codes, ok, err, map,
}
use nex_talk.Crypto.SecureMessage.{CryptoResult}
use nex_talk.Crypto.Ratchet.{SecurePeer, KeyPair, encrypt, decrypt}
use nex_talk.Crypto.Ratchet.Conversation.{Linked, settled, turning}
use nex_talk.Crypto.Ratchet.Turns.{Talks, silent, over, writes, reads, Talks-heard}
use nex_talk.Examples.Toy.{toy, toy_suite, toy-Laws, toy-SuiteLaws}

abbrev east : SecurePeer
east = record {
  dh_private = 1 ∷ [];
  dh_public = 1 ∷ [];
  remote_dh_public = some (2 ∷ []);
  root_key = 3 ∷ [];
  send_ck = 5 ∷ [];
  recv_ck = 6 ∷ [];
  hmac_key = 7 ∷ [];
  send_nonce = 0;
  recv_nonce = 0;
  skipped_messages = [];
  pending_dh_ratchet = false;
}

abbrev west : SecurePeer
west = record {
  dh_private = 2 ∷ [];
  dh_public = 2 ∷ [];
  remote_dh_public = some (1 ∷ []);
  root_key = 3 ∷ [];
  send_ck = [];
  recv_ck = 5 ∷ [];
  hmac_key = 7 ∷ [];
  send_nonce = 0;
  recv_nonce = 0;
  skipped_messages = [];
  pending_dh_ratchet = true;
}

linked : Linked toy_suite east west
unfolding toy_suite
linked = record {
  root = refl;
  mac = refl;
  remote_a = refl;
  remote_b = refl;
  paired_a = refl;
  paired_b = refl;
  none_a = refl;
  none_b = refl;
  forth = settled refl refl refl;
  back = turning refl;
}

abbrev wire_of : CryptoResult Bytes → Bytes
wire_of (ok wire) = wire
wire_of (err e) = []

abbrev pair_of : ℕ → KeyPair
pair_of n = record { priv = n ∷ []; public = n ∷ [] }

question : Bytes
question = wire_of (encrypt toy east (pair_of 30) (codes "E") (codes "hi")).0

asked : (encrypt toy east (pair_of 30) (codes "E") (codes "hi")).0 ≡ ok question
unfolding question encrypt toy nex_talk.Crypto.Ratchet.encrypt_chain
    nex_talk.Crypto.Ratchet.count_sent nex_talk.Crypto.Ratchet.seal_frame
    nex_talk.Crypto.SecureMessage.hmac_payload nex_talk.Crypto.SecureMessage.marshal_bin_id
    nex_talk.Crypto.SecureMessage.wire_frame
asked = refl

-- The ends behind the first frame.
asker : SecurePeer
asker = (encrypt toy east (pair_of 30) (codes "E") (codes "hi")).1

-- A second frame, before the first is read.
more : Bytes
more = wire_of (encrypt toy asker (pair_of 31) (codes "E") (codes "you")).0

asked_more : (encrypt toy asker (pair_of 31) (codes "E") (codes "you")).0 ≡ ok more
unfolding more asker encrypt toy nex_talk.Crypto.Ratchet.encrypt_chain
    nex_talk.Crypto.Ratchet.count_sent nex_talk.Crypto.Ratchet.seal_frame
    nex_talk.Crypto.SecureMessage.hmac_payload nex_talk.Crypto.SecureMessage.marshal_bin_id
    nex_talk.Crypto.SecureMessage.wire_frame nex_talk.Crypto.Ratchet.rotate
    nex_talk.Crypto.Ratchet.sealed_message nex_talk.Crypto.Ratchet.ratchet_step
asked_more = refl

asker_key : asker.dh_public ≡ 1 ∷ []
unfolding asker question encrypt decrypt toy nex_talk.Crypto.Ratchet.authenticate
    nex_talk.Crypto.SecureMessage.parse_secure_message nex_talk.Crypto.Ratchet.encrypt_chain
    nex_talk.Crypto.Ratchet.count_sent nex_talk.Crypto.Ratchet.seal_frame
    nex_talk.Crypto.SecureMessage.hmac_payload nex_talk.Crypto.SecureMessage.marshal_bin_id
    nex_talk.Crypto.SecureMessage.wire_frame nex_talk.Crypto.Ratchet.sealed_message
    nex_talk.Std.Words.put_uint64 nex_talk.Std.Words.be_fold nex_talk.Base.beq
    nex_talk.Crypto.Ratchet.open_message nex_talk.Base.lookup nex_talk.Crypto.Ratchet.open_next
    nex_talk.Crypto.Ratchet.is_new_epoch nex_talk.Crypto.Ratchet.open_chain nex_talk.Base.delete
    nex_talk.Base.insert nex_talk.Crypto.Ratchet.advance nex_talk.Crypto.Ratchet.associated
    nex_talk.Crypto.Ratchet.decrypt_with_key nex_talk.Crypto.Ratchet.dh_ratchet
    nex_talk.Crypto.Ratchet.int_to_bytes nex_talk.Crypto.Ratchet.ratchet_step
    nex_talk.Crypto.Ratchet.rotate nex_talk.Crypto.Ratchet.skip_key nex_talk.Crypto.Ratchet.stash
    nex_talk.Crypto.SecureMessage.unmarshal_bin_id nex_talk.Examples.Toy.zeros
    nex_talk.Std.Base64.base64 nex_talk.Std.Decimal.decimal
asker_key = refl

asker_count : asker.send_nonce ≡ 1
unfolding asker question encrypt decrypt toy nex_talk.Crypto.Ratchet.authenticate
    nex_talk.Crypto.SecureMessage.parse_secure_message nex_talk.Crypto.Ratchet.encrypt_chain
    nex_talk.Crypto.Ratchet.count_sent nex_talk.Crypto.Ratchet.seal_frame
    nex_talk.Crypto.SecureMessage.hmac_payload nex_talk.Crypto.SecureMessage.marshal_bin_id
    nex_talk.Crypto.SecureMessage.wire_frame nex_talk.Crypto.Ratchet.sealed_message
    nex_talk.Std.Words.put_uint64 nex_talk.Std.Words.be_fold nex_talk.Base.beq
    nex_talk.Crypto.Ratchet.open_message nex_talk.Base.lookup nex_talk.Crypto.Ratchet.open_next
    nex_talk.Crypto.Ratchet.is_new_epoch nex_talk.Crypto.Ratchet.open_chain nex_talk.Base.delete
    nex_talk.Base.insert nex_talk.Crypto.Ratchet.advance nex_talk.Crypto.Ratchet.associated
    nex_talk.Crypto.Ratchet.decrypt_with_key nex_talk.Crypto.Ratchet.dh_ratchet
    nex_talk.Crypto.Ratchet.int_to_bytes nex_talk.Crypto.Ratchet.ratchet_step
    nex_talk.Crypto.Ratchet.rotate nex_talk.Crypto.Ratchet.skip_key nex_talk.Crypto.Ratchet.stash
    nex_talk.Crypto.SecureMessage.unmarshal_bin_id nex_talk.Examples.Toy.zeros
    nex_talk.Std.Base64.base64 nex_talk.Std.Decimal.decimal
asker_count = refl

more_new : (pair_of 31).public ≢ asker.dh_public
more_new e =
    let same : (pair_of 31).public ≡ 1 ∷ [] = e ∙ asker_key in absurd (ground (arith, same))

more_second : asker.send_nonce < 2 ^ 31
more_second = omega (arith, asker_count)

-- The ends behind both frames.
waiting : SecurePeer
waiting = (encrypt toy asker (pair_of 31) (codes "E") (codes "you")).1

asked_one : SecurePeer
asked_one = (decrypt toy west question).1

answerer : SecurePeer
answerer = (decrypt toy asked_one more).1

reply : Bytes
reply = wire_of (encrypt toy answerer (pair_of 40) (codes "W") (codes "yo")).0

replied : (encrypt toy answerer (pair_of 40) (codes "W") (codes "yo")).0 ≡ ok reply
unfolding reply encrypt toy nex_talk.Crypto.Ratchet.encrypt_chain nex_talk.Crypto.Ratchet.count_sent
    nex_talk.Crypto.Ratchet.seal_frame nex_talk.Crypto.SecureMessage.hmac_payload
    nex_talk.Crypto.SecureMessage.marshal_bin_id nex_talk.Crypto.SecureMessage.wire_frame answerer
    asked_one question more asker decrypt
replied = refl

reply_key : answerer.dh_public ≡ 2 ∷ []
unfolding answerer asked_one asker more question encrypt decrypt toy
    nex_talk.Crypto.Ratchet.authenticate nex_talk.Crypto.SecureMessage.parse_secure_message
    nex_talk.Crypto.Ratchet.encrypt_chain nex_talk.Crypto.Ratchet.count_sent
    nex_talk.Crypto.Ratchet.seal_frame nex_talk.Crypto.SecureMessage.hmac_payload
    nex_talk.Crypto.SecureMessage.marshal_bin_id nex_talk.Crypto.SecureMessage.wire_frame
    nex_talk.Crypto.Ratchet.sealed_message nex_talk.Std.Words.put_uint64 nex_talk.Std.Words.be_fold
    nex_talk.Base.beq nex_talk.Crypto.Ratchet.open_message nex_talk.Base.lookup
    nex_talk.Crypto.Ratchet.open_next nex_talk.Crypto.Ratchet.is_new_epoch
    nex_talk.Crypto.Ratchet.open_chain nex_talk.Base.delete nex_talk.Base.insert
    nex_talk.Crypto.Ratchet.advance nex_talk.Crypto.Ratchet.associated
    nex_talk.Crypto.Ratchet.decrypt_with_key nex_talk.Crypto.Ratchet.dh_ratchet
    nex_talk.Crypto.Ratchet.int_to_bytes nex_talk.Crypto.Ratchet.ratchet_step
    nex_talk.Crypto.Ratchet.rotate nex_talk.Crypto.Ratchet.skip_key nex_talk.Crypto.Ratchet.stash
    nex_talk.Crypto.SecureMessage.unmarshal_bin_id nex_talk.Examples.Toy.zeros
    nex_talk.Std.Base64.base64 nex_talk.Std.Decimal.decimal
reply_key = refl

reply_new : (pair_of 40).public ≢ answerer.dh_public
reply_new e =
    let same : (pair_of 40).public ≡ 2 ∷ [] = e ∙ reply_key in absurd (ground (arith, same))

reply_count : answerer.send_nonce ≡ 0
unfolding answerer asked_one asker more question encrypt decrypt toy
    nex_talk.Crypto.Ratchet.authenticate nex_talk.Crypto.SecureMessage.parse_secure_message
    nex_talk.Crypto.Ratchet.encrypt_chain nex_talk.Crypto.Ratchet.count_sent
    nex_talk.Crypto.Ratchet.seal_frame nex_talk.Crypto.SecureMessage.hmac_payload
    nex_talk.Crypto.SecureMessage.marshal_bin_id nex_talk.Crypto.SecureMessage.wire_frame
    nex_talk.Crypto.Ratchet.sealed_message nex_talk.Std.Words.put_uint64 nex_talk.Std.Words.be_fold
    nex_talk.Base.beq nex_talk.Crypto.Ratchet.open_message nex_talk.Base.lookup
    nex_talk.Crypto.Ratchet.open_next nex_talk.Crypto.Ratchet.is_new_epoch
    nex_talk.Crypto.Ratchet.open_chain nex_talk.Base.delete nex_talk.Base.insert
    nex_talk.Crypto.Ratchet.advance nex_talk.Crypto.Ratchet.associated
    nex_talk.Crypto.Ratchet.decrypt_with_key nex_talk.Crypto.Ratchet.dh_ratchet
    nex_talk.Crypto.Ratchet.int_to_bytes nex_talk.Crypto.Ratchet.ratchet_step
    nex_talk.Crypto.Ratchet.rotate nex_talk.Crypto.Ratchet.skip_key nex_talk.Crypto.Ratchet.stash
    nex_talk.Crypto.SecureMessage.unmarshal_bin_id nex_talk.Examples.Toy.zeros
    nex_talk.Std.Base64.base64 nex_talk.Std.Decimal.decimal
reply_count = refl

reply_first : answerer.send_nonce < 2 ^ 31
reply_first = omega (arith, reply_count)

talk :
    Talks toy toy_suite
      (codes "E")
      (codes "W")
      east
      west
      []
      ((codes "E", codes "hi") ∷ (codes "E", codes "you") ∷ (codes "W", codes "yo") ∷ [])
      ((decrypt toy west question).0
        ∷ (decrypt toy asked_one more).0
        ∷ (decrypt toy waiting reply).0
        ∷ [])
unfolding toy_suite asked_one asker waiting answerer
talk =
    writes (pair_of 30) (codes "hi") question refl (λ e. cc) (omega arith) asked
      (writes (pair_of 31) (codes "you") more refl more_new more_second asked_more (
        reads question (
          reads more (
            over (
              writes (pair_of 40) (codes "yo") reply refl reply_new reply_first replied
                (reads reply (silent {p = codes "W"} {q = codes "E"})))))))

Talks-heard_example :
    (decrypt toy west question).0
      ∷ (decrypt toy asked_one more).0
      ∷ (decrypt toy waiting reply).0
      ∷ []
    ≡ map ok ((codes "E", codes "hi") ∷ (codes "E", codes "you") ∷ (codes "W", codes "yo") ∷ [])
Talks-heard_example = Talks-heard toy toy_suite toy-Laws toy-SuiteLaws linked talk
