-- ===== src/Core/Wire.antt =====
-- core/models.go: the offer and the answer of a handshake. Bytes are values here, so the copies of
-- cloneAll have no counterpart. The encoding/json reader of older builds is an argument.
pub mod RoundTrip
use nex_talk.Base.{
  ℕ, ◌≡◌, Bool, true, false, Option, none, some, List, [], ◌∷◌, arith, Bytes, ◌==◌, if◌then◌else◌,
}
use nex_talk.External.{External, Field}
use nex_talk.Crypto.SecureMessage.{field}
use nex_talk.Crypto.Handshake.{Shown}

-- HandShakeOffer; the fields that Handshake reads stand in `shown`.
pub record HandShakeOffer : Type 0 where
  pub sender_id : Bytes
  pub recipient_id : Bytes
  pub offer_id : Bytes
  pub shown : Shown

pub record HandShakeAnswer : Type 0 where
  pub sender_id : Bytes
  pub recipient_id : Bytes
  pub offer_id : Bytes
  pub shown : Shown
  pub kyber_ciphertext : Bytes

-- `json.Unmarshal` into an offer and into an answer.
pub record LegacyJson : Type 0 where
  pub read_offer : Bytes → Option HandShakeOffer
  pub read_answer : Bytes → Option HandShakeAnswer

abbrev pub no_shown : Shown
no_shown = record {
  id_pub = [];
  ephemeral = [];
  dh_pub = [];
  kyber_pub = [];
  dilithium_pub = [];
  sign = [];
  dilithium_sign = [];
}

abbrev pub empty_offer : HandShakeOffer
empty_offer = record { sender_id = []; recipient_id = []; offer_id = []; shown = no_shown }

abbrev pub empty_answer : HandShakeAnswer
empty_answer = record {
  sender_id = [];
  recipient_id = [];
  offer_id = [];
  shown = no_shown;
  kyber_ciphertext = [];
}

-- HandShakeOffer.MarshalBinID
unfoldable pub offer_fields : HandShakeOffer → List Field
offer_fields o =
    field 1 o.sender_id
    ∷ field 2 o.recipient_id
    ∷ field 3 o.offer_id
    ∷ field 4 o.shown.id_pub
    ∷ field 5 o.shown.ephemeral
    ∷ field 6 o.shown.dh_pub
    ∷ field 7 o.shown.kyber_pub
    ∷ field 8 o.shown.dilithium_pub
    ∷ field 9 o.shown.sign
    ∷ field 10 o.shown.dilithium_sign
    ∷ []

-- One round of HandShakeOffer.UnmarshalBinID.
unfoldable pub set_offer_field : HandShakeOffer → Field → HandShakeOffer
set_offer_field o f =
    if f.id == 1
    then record o { sender_id = f.bytes }
    else if f.id == 2
    then record o { recipient_id = f.bytes }
    else if f.id == 3
    then record o { offer_id = f.bytes }
    else if f.id == 4
    then record o { shown = record o.shown { id_pub = f.bytes } }
    else if f.id == 5
    then record o { shown = record o.shown { ephemeral = f.bytes } }
    else if f.id == 6
    then record o { shown = record o.shown { dh_pub = f.bytes } }
    else if f.id == 7
    then record o { shown = record o.shown { kyber_pub = f.bytes } }
    else if f.id == 8
    then record o { shown = record o.shown { dilithium_pub = f.bytes } }
    else if f.id == 9
    then record o { shown = record o.shown { sign = f.bytes } }
    else if f.id == 10
    then record o { shown = record o.shown { dilithium_sign = f.bytes } }
    else o

unfoldable pub unmarshal_offer : HandShakeOffer → List Field → HandShakeOffer
unmarshal_offer o [] = o
unmarshal_offer o (f ∷ fs) = unmarshal_offer (set_offer_field o f) fs

-- HandShakeAnswer.MarshalBinID
unfoldable pub answer_fields : HandShakeAnswer → List Field
answer_fields a =
    field 1 a.sender_id
    ∷ field 2 a.recipient_id
    ∷ field 3 a.offer_id
    ∷ field 4 a.shown.id_pub
    ∷ field 5 a.shown.ephemeral
    ∷ field 6 a.shown.dh_pub
    ∷ field 7 a.shown.kyber_pub
    ∷ field 8 a.kyber_ciphertext
    ∷ field 9 a.shown.dilithium_pub
    ∷ field 10 a.shown.sign
    ∷ field 11 a.shown.dilithium_sign
    ∷ []

-- One round of HandShakeAnswer.UnmarshalBinID.
unfoldable pub set_answer_field : HandShakeAnswer → Field → HandShakeAnswer
set_answer_field a f =
    if f.id == 1
    then record a { sender_id = f.bytes }
    else if f.id == 2
    then record a { recipient_id = f.bytes }
    else if f.id == 3
    then record a { offer_id = f.bytes }
    else if f.id == 4
    then record a { shown = record a.shown { id_pub = f.bytes } }
    else if f.id == 5
    then record a { shown = record a.shown { ephemeral = f.bytes } }
    else if f.id == 6
    then record a { shown = record a.shown { dh_pub = f.bytes } }
    else if f.id == 7
    then record a { shown = record a.shown { kyber_pub = f.bytes } }
    else if f.id == 8
    then record a { kyber_ciphertext = f.bytes }
    else if f.id == 9
    then record a { shown = record a.shown { dilithium_pub = f.bytes } }
    else if f.id == 10
    then record a { shown = record a.shown { sign = f.bytes } }
    else if f.id == 11
    then record a { shown = record a.shown { dilithium_sign = f.bytes } }
    else a

unfoldable pub unmarshal_answer : HandShakeAnswer → List Field → HandShakeAnswer
unmarshal_answer a [] = a
unmarshal_answer a (f ∷ fs) = unmarshal_answer (set_answer_field a f) fs

-- `len(b) > 0 && b[0] == '{'`
unfoldable pub is_json : Bytes → Bool
is_json [] = false
is_json (c ∷ b) = c == b'{'

module _ (x : External) (legacy : LegacyJson) where
  -- decodeOffer
  unfoldable pub decode_offer : Bytes → Option HandShakeOffer
  decode_offer b =
      if is_json b
      then legacy.read_offer b
      else elim (x.decode_id b) [ none ↦ none | some fs ↦ some (unmarshal_offer empty_offer fs) ]

  -- decodeAnswer
  unfoldable pub decode_answer : Bytes → Option HandShakeAnswer
  decode_answer b =
      if is_json b
      then legacy.read_answer b
      else elim (x.decode_id b) [ none ↦ none | some fs ↦ some (unmarshal_answer empty_answer fs) ]

  -- PeekAnswerSenderID
  unfoldable pub peek_answer_sender_id : Bytes → Option Bytes
  peek_answer_sender_id b = elim (decode_answer b) [ none ↦ none | some a ↦ some a.sender_id ]
