-- ===== src/Frame/RoundTrip.antt =====
-- internal/frame/frame.go: what is wrapped is unwrapped.
use nex_talk.Base.{
  ℕ, ◌<◌, ◌≡◌, refl, sym, ap, ◌∙◌, Bool, true, false, Option, none, some, List, [], ◌∷◌, arith,
  Bytes, codes, length, All, ◌==◌, if◌then◌else◌, Result, ok, err, ◌>>=◌, or_fail, Option-cases,
  inl, inr,
}
use nex_talk.Std.Base64.{IsByte, IsAscii, base64}
use nex_talk.Std.Base64.RoundTrip.{unbase64-base64, base64-IsAscii}
use nex_talk.Relay.{EnvelopeType, offer, answer, message, multi_msg, type_byte, wrap_envelope}
use nex_talk.Frame.{
  Container, Texts, name_of, types_by_name, type_of, unwrap, is_named, encode_container,
  decode_frame, decode_blob, decode_json, decode_trimmed, decode_container,
}

type_of-type_byte : (t : EnvelopeType) → type_of (type_byte t) ≡ some t
unfolding type_of type_byte
type_of-type_byte offer = refl
type_of-type_byte answer = refl
type_of-type_byte message = refl
type_of-type_byte multi_msg = refl

-- A frame with a payload is split to the type and the payload that it was wrapped from.
unwrap-wrap_envelope :
    (t : EnvelopeType) (payload : Bytes)
    → 0 < length payload
    → unwrap (wrap_envelope t payload) ≡ ok (t, payload)
unfolding unwrap wrap_envelope
unwrap-wrap_envelope t [] h = absurd (omega arith)
unwrap-wrap_envelope t (c ∷ payload) h = rw (unwrap, type_of-type_byte t) refl

wrap_envelope-IsByte :
    (t : EnvelopeType) (payload : Bytes) → All IsByte payload → All IsByte (wrap_envelope t payload)
unfolding wrap_envelope type_byte
wrap_envelope-IsByte offer payload h = (omega arith, h)
wrap_envelope-IsByte answer payload h = (omega arith, h)
wrap_envelope-IsByte message payload h = (omega arith, h)
wrap_envelope-IsByte multi_msg payload h = (omega arith, h)

name_of-IsAscii : (t : EnvelopeType) → All IsAscii (name_of t)
unfolding name_of
name_of-IsAscii offer = ground arith
name_of-IsAscii answer = ground arith
name_of-IsAscii message = ground arith
name_of-IsAscii multi_msg = ground arith

-- What the code relies on of the JSON form and of the texts: a container of ASCII strings is read back
-- (encoding/json replaces what is not UTF-8), the text of a container is an object without white space
-- around it, and lower case leaves the names alone.
pub record TextsLaws (x : Texts) : Type 0 where
  pub unmarshal-marshal :
      (c : Container) → All IsAscii c.kind → All IsAscii c.blob → x.unmarshal (x.marshal c) ≡ some c
  pub marshal_opens : (c : Container) → (s : Bytes) × (x.marshal c ≡ b'{' ∷ s)
  pub trim_space-marshal : (c : Container) → x.trim_space (x.marshal c) ≡ x.marshal c
  pub to_lower-name_of : (t : EnvelopeType) → x.to_lower (name_of t) ≡ name_of t

module _ (x : Texts) (laws : TextsLaws x) where
  decode_frame-name_of :
      (t : EnvelopeType) (payload : Bytes)
      → decode_frame x (name_of t) t payload ≡ ok (record { kind = t; payload = payload })
  unfolding decode_frame name_of types_by_name is_named type_byte nex_talk.Base.beq
  decode_frame-name_of offer payload = rw (decode_frame, laws.to_lower-name_of offer) refl
  decode_frame-name_of answer payload = rw (decode_frame, laws.to_lower-name_of answer) refl
  decode_frame-name_of message payload = rw (decode_frame, laws.to_lower-name_of message) refl
  decode_frame-name_of multi_msg payload = rw (decode_frame, laws.to_lower-name_of multi_msg) refl

  decode_blob-wrap_envelope :
      (t : EnvelopeType) (payload : Bytes)
      → decode_blob x (name_of t) (wrap_envelope t payload)
        ≡ ok (record { kind = t; payload = payload })
  unfolding decode_blob wrap_envelope
  decode_blob-wrap_envelope t payload =
      rw (decode_blob, wrap_envelope, type_of-type_byte t) (decode_frame-name_of t payload)

  decode_json-marshal :
      (t : EnvelopeType) (payload : Bytes)
      → All IsByte payload
      → decode_json x
          (x.marshal (record { kind = name_of t; blob = base64 (wrap_envelope t payload) }))
        ≡ ok (record { kind = t; payload = payload })
  unfolding decode_json
  decode_json-marshal t payload h =
      rw
        (
          laws.unmarshal-marshal
              (record { kind = name_of t; blob = base64 (wrap_envelope t payload) })
              (name_of-IsAscii t) (base64-IsAscii (wrap_envelope t payload)),
          unbase64-base64 (wrap_envelope t payload) (wrap_envelope-IsByte t payload h),
        )
        (decode_blob-wrap_envelope t payload)

  decode_container-marshal :
      (t : EnvelopeType) (payload : Bytes)
      → All IsByte payload
      → decode_container x
          (x.marshal (record { kind = name_of t; blob = base64 (wrap_envelope t payload) }))
        ≡ ok (record { kind = t; payload = payload })
  unfolding decode_container decode_trimmed decode_json
  decode_container-marshal t payload h =
      let c : Container = record { kind = name_of t; blob = base64 (wrap_envelope t payload) } in
      let (s, opens) = laws.marshal_opens c in
      ap (decode_trimmed x) (laws.trim_space-marshal c ∙ opens)
      ∙ ap (λ w. decode_json x w) (sym opens)
      ∙ decode_json-marshal t payload h

  -- Under TextsLaws, a container that EncodeContainer made of a registered type and a payload of
  -- bytes is decoded to that type and that payload.
  pub decode_container-encode_container :
      (n : ℕ) (t : EnvelopeType) (payload raw : Bytes)
      → type_of n ≡ some t
      → All IsByte payload
      → encode_container x n payload ≡ ok raw
      → decode_container x raw ≡ ok (record { kind = t; payload = payload })
  unfolding encode_container
  decode_container-encode_container n t payload raw known h e =
      let same : x.marshal (record { kind = name_of t; blob = base64 (wrap_envelope t payload) })
          ≡ raw =
        ground arith in
      ap (decode_container x) (sym same) ∙ decode_container-marshal t payload h
