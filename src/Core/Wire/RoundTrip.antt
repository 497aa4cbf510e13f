-- ===== src/Core/Wire/RoundTrip.antt =====
-- core/models.go: an offer and an answer that were written, and their decoders.
use nex_talk.Base.{◌≡◌, refl, some, Bytes, false}
use nex_talk.External.{External, Laws}
use nex_talk.External.Suite.{Suite, SuiteLaws}
use nex_talk.Core.Wire.{
  HandShakeOffer, HandShakeAnswer, LegacyJson, empty_offer, empty_answer, offer_fields,
  answer_fields, set_offer_field, set_answer_field, unmarshal_offer, unmarshal_answer, is_json,
  decode_offer, decode_answer,
}

unmarshal_offer-fields : (o : HandShakeOffer) → unmarshal_offer empty_offer (offer_fields o) ≡ o
unfolding unmarshal_offer offer_fields set_offer_field
unmarshal_offer-fields o = refl

unmarshal_answer-fields :
    (a : HandShakeAnswer) → unmarshal_answer empty_answer (answer_fields a) ≡ a
unfolding unmarshal_answer answer_fields set_answer_field
unmarshal_answer-fields a = refl

module _ (x : External) (y : Suite) (laws : Laws x) (suite : SuiteLaws x y)
    (legacy : LegacyJson) where
  offer_not_json :
      (o : HandShakeOffer) (b : Bytes) → x.encode_id (offer_fields o) ≡ some b → is_json b ≡ false
  unfolding is_json offer_fields
  offer_not_json o b e =
      let (rest, same) = suite.encode-count (offer_fields o) b e in rw (same, is_json) refl

  answer_not_json :
      (a : HandShakeAnswer) (b : Bytes) → x.encode_id (answer_fields a) ≡ some b → is_json b ≡ false
  unfolding is_json answer_fields
  answer_not_json a b e =
      let (rest, same) = suite.encode-count (answer_fields a) b e in rw (same, is_json) refl

  -- An offer that was written is decoded to itself, and never taken for the JSON of an older build.
  pub decode_offer-encode :
      (o : HandShakeOffer) (b : Bytes)
      → x.encode_id (offer_fields o) ≡ some b
      → decode_offer x legacy b ≡ some o
  unfolding decode_offer
  decode_offer-encode o b e =
      rw (offer_not_json o b e, laws.decode-encode (offer_fields o) b e, unmarshal_offer-fields o)
        refl

  -- An answer that was written is decoded to itself, and never taken for the JSON of an older build.
  pub decode_answer-encode :
      (a : HandShakeAnswer) (b : Bytes)
      → x.encode_id (answer_fields a) ≡ some b
      → decode_answer x legacy b ≡ some a
  unfolding decode_answer
  decode_answer-encode a b e =
      rw
        (answer_not_json a b e, laws.decode-encode (answer_fields a) b e, unmarshal_answer-fields a)
        refl
