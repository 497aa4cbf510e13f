-- ===== src/Crypto/SecureMessage.antt =====
-- crypto/kex_hybrid.go and kex_hybrid_nanopack.go: the wire form of an encrypted message.
pub mod RoundTrip
use nex_talk.Base.{
  ℕ, zero, suc, ◌+◌, ◌*◌, ◌/◌, ◌%◌, ◌^◌, ◌<◌, ◌≡◌, refl, Bool, true, false, Option, none, some,
  List, [], ◌∷◌, ◌++◌, arith, Bytes, ltb, leb, ◌==◌, if◌then◌else◌, length, Result, ok, err, ◌>>=◌,
  ◌>>◌, require, or_fail,
}
use nex_talk.Std.Words.{put_uint64, be_fold}
use nex_talk.External.{External, Field}

pub record SecureMessage : Type 0 where
  pub sender_id : Bytes
  pub ratchet_key : Bytes
  pub nonce : ℕ
  pub ciphertext : Bytes
  pub tag : Bytes

pub data CryptoError : Type 0 where
  parsing_frame short_body nonce_out_of_range encoding_payload encoding_frame : CryptoError
  invalid_tag bad_key tampered replay too_many_skipped : CryptoError

abbrev pub CryptoResult : Type 0 → Type 0
CryptoResult A = Result CryptoError A

abbrev pub field : ℕ → Bytes → Field
field i b = record { id = i; bytes = b }

-- secureMessageFieldTag
abbrev pub tag_id : ℕ
tag_id = 5

-- maxWireNonce
abbrev pub max_wire_nonce : ℕ
max_wire_nonce = 2 ^ 31

module _ (x : External) where
  -- MarshalBinID: the fields that it adds, or the error of `AddUint64ID`.
  unfoldable pub marshal_bin_id : SecureMessage → Option (List Field)
  marshal_bin_id p = elim (x.uint64_data p.nonce) [
    | none ↦ none
    | some n ↦
        some (field 1 p.sender_id ∷ field 2 p.ratchet_key ∷ field 3 n ∷ field 4 p.ciphertext ∷ [])
  ]

  -- secureMessageHmacPayload, by nanopack.MarshalFastID
  unfoldable pub hmac_payload : SecureMessage → Option Bytes
  hmac_payload msg = elim (marshal_bin_id msg) [ none ↦ none | some fs ↦ x.encode_id fs ]

empty_message : SecureMessage
empty_message = record { sender_id = []; ratchet_key = []; nonce = 0; ciphertext = []; tag = [] }

set_nonce : SecureMessage → Bytes → Option SecureMessage
set_nonce p d = if length d == 8 then some (record p { nonce = be_fold 0 d }) else none

unmarshal_field : SecureMessage → Field → Option SecureMessage
unfolding set_nonce
unmarshal_field p f =
    if f.id == 1
    then some (record p { sender_id = f.bytes })
    else if f.id == 2
    then some (record p { ratchet_key = f.bytes })
    else if f.id == 3
    then set_nonce p f.bytes
    else if f.id == 4
    then some (record p { ciphertext = f.bytes })
    else some p

-- UnmarshalBinID: `none` is ErrShortBody.
unfoldable pub unmarshal_bin_id : SecureMessage → List Field → Option SecureMessage
unfolding unmarshal_field
unmarshal_bin_id p [] = some p
unmarshal_bin_id p (f ∷ fs) = elim (unmarshal_field p f) [
  | none ↦ none
  | some q ↦ unmarshal_bin_id q fs
]

-- The second loop of parseSecureMessage.
read_tag : SecureMessage → List Field → SecureMessage
read_tag p [] = p
read_tag p (f ∷ fs) = read_tag (if f.id == tag_id then record p { tag = f.bytes } else p) fs

module _ (x : External) where
  unfoldable pub parse_secure_message : Bytes → CryptoResult SecureMessage
  unfolding unmarshal_bin_id read_tag empty_message
  parse_secure_message payload = do
    fields ← or_fail (x.decode_id payload) parsing_frame
    msg ← or_fail (unmarshal_bin_id empty_message fields) short_body
    let tagged = read_tag msg fields
    require (ltb tagged.nonce max_wire_nonce) nonce_out_of_range
    ok tagged

  -- SenderIDFromFrame
  unfoldable pub sender_id_from_frame : Bytes → CryptoResult Bytes
  sender_id_from_frame payload = do msg ← parse_secure_message payload; ok msg.sender_id

  -- The frame that Encrypt writes: the canonical fields, and the tag behind them.
  unfoldable pub wire_frame : SecureMessage → Option Bytes
  wire_frame msg = elim (marshal_bin_id x msg) [
    | none ↦ none
    | some fs ↦ x.encode_id (fs ++ field tag_id msg.tag ∷ [])
  ]
