-- ===== src/Crypto/SecureMessage/RoundTrip.antt =====
-- crypto/kex_hybrid.go: the frame of Encrypt against parseSecureMessage.
use nex_talk.Base.{
  ◌<◌, ◌^◌, ◌≡◌, refl, some, List, [], ◌∷◌, ◌++◌, inl, inr, arith, Bytes, ok, lt→ltb, Option-cases,
}
use nex_talk.Std.Words.{put_uint64, be_fold-put_uint64, length-put_uint64}
use nex_talk.External.{External, Laws, Field}
use nex_talk.Crypto.SecureMessage.{
  SecureMessage, field, tag_id, max_wire_nonce, marshal_bin_id, unmarshal_bin_id, read_tag,
  empty_message, parse_secure_message, wire_frame,
}

-- The fields of a message, in the order that they are written.
fields_of : SecureMessage → Bytes → List Field
fields_of m n = field 1 m.sender_id ∷ field 2 m.ratchet_key ∷ field 3 n ∷ field 4 m.ciphertext ∷ []

read_back :
    (m : SecureMessage)
    → m.nonce < 2 ^ 31
    → unmarshal_bin_id empty_message (fields_of m (put_uint64 m.nonce) ++ field tag_id m.tag ∷ [])
      ≡ some (record m { tag = [] })
unfolding unmarshal_bin_id fields_of empty_message
read_back m h = ground (arith, length-put_uint64 m.nonce, be_fold-put_uint64 m.nonce (omega arith))

read_tag_back :
    (m q : SecureMessage) (n : Bytes)
    → read_tag q (fields_of m n ++ field tag_id m.tag ∷ []) ≡ record q { tag = m.tag }
unfolding read_tag fields_of
read_tag_back m q n = refl

module _ (x : External) (laws : Laws x) where
  wire_fields :
      (m : SecureMessage) (b : Bytes)
      → wire_frame x m ≡ some b
      → x.decode_id b ≡ some (fields_of m (put_uint64 m.nonce) ++ field tag_id m.tag ∷ [])
  unfolding wire_frame marshal_bin_id fields_of
  wire_fields m b e = elim (Option-cases (x.uint64_data m.nonce)) [
    | inl absent ↦ ground arith
    | inr (n, found) ↦ ground (
      arith,
      laws.uint64_is m.nonce n found,
      laws.decode-encode (fields_of m n ++ field tag_id m.tag ∷ []) b,
    )
  ]

  -- A frame that was written is parsed to the message it was written from.
  pub parse-wire_frame :
      (m : SecureMessage) (b : Bytes)
      → m.nonce < max_wire_nonce
      → wire_frame x m ≡ some b
      → parse_secure_message x b ≡ ok m
  unfolding parse_secure_message
  parse-wire_frame m b h e = rw (
    wire_fields m b e,
    read_back m h,
    read_tag_back m (record m { tag = [] }) (put_uint64 m.nonce),
    lt→ltb m.nonce max_wire_nonce h,
  )
