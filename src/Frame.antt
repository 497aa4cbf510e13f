-- ===== src/Frame.antt =====
-- internal/frame/frame.go: the frame of one type byte, and the container that people carry. The JSON
-- form of a container and the text functions that know Unicode are arguments.
pub mod RoundTrip
use nex_talk.Base.{
  ℕ, ◌≡◌, Bool, true, false, Option, none, some, List, [], ◌∷◌, arith, Bytes, codes, beq, ◌==◌,
  if◌then◌else◌, Result, ok, err, ◌>>=◌, ◌>>◌, require, or_fail,
}
use nex_talk.Std.Base64.{base64, unbase64}
use nex_talk.Relay.{EnvelopeType, offer, answer, message, multi_msg, type_byte, wrap_envelope}

pub record Container : Type 0 where
  pub kind : Bytes
  pub blob : Bytes

pub record Decoded : Type 0 where
  pub kind : EnvelopeType
  pub payload : Bytes

-- index_out_of_range is the panic of `blob[0]` on an input of white space only.
pub data FrameError : Type 0 where
  too_short unknown_type unregistered bad_json bad_base64 empty_blob disagrees : FrameError
  unknown_name not_framed index_out_of_range : FrameError

-- json.Marshal and json.Unmarshal of a container, strings.TrimSpace and strings.ToLower.
pub record Texts : Type 0 where
  pub marshal : Container → Bytes
  pub unmarshal : Bytes → Option Container
  pub trim_space : Bytes → Bytes
  pub to_lower : Bytes → Bytes

-- Names
unfoldable pub name_of : EnvelopeType → Bytes
name_of offer = codes "offer"
name_of answer = codes "answer"
name_of message = codes "message"
name_of multi_msg = codes "multimsg"

-- TypesByName
unfoldable pub types_by_name : Bytes → Option EnvelopeType
types_by_name name =
    if beq name (codes "offer")
    then some offer
    else if beq name (codes "answer")
    then some answer
    else if beq name (codes "message")
    then some message
    else if beq name (codes "multimsg")
    then some multi_msg
    else none

-- Valid, with the type.
unfoldable pub type_of : ℕ → Option EnvelopeType
type_of b =
    if b == 1
    then some offer
    else if b == 2
    then some answer
    else if b == 3
    then some message
    else if b == 4
    then some multi_msg
    else none

-- Unwrap
unfoldable pub unwrap : Bytes → Result FrameError (EnvelopeType × Bytes)
unwrap [] = err too_short
unwrap (t ∷ []) = err too_short
unwrap (t ∷ c ∷ payload) = elim (type_of t) [
  | none ↦ err unknown_type
  | some kind ↦ ok (kind, c ∷ payload)
]

-- `TypesByName[...] != t`, with the zero value of a missing key.
unfoldable pub is_named : Option EnvelopeType → EnvelopeType → Bool
is_named none t = false
is_named (some u) t = type_byte u == type_byte t

module _ (x : Texts) where
  -- EncodeContainer
  unfoldable pub encode_container : ℕ → Bytes → Result FrameError Bytes
  encode_container t payload = do
    kind ← or_fail (type_of t) unregistered
    ok (x.marshal (record { kind = name_of kind; blob = base64 (wrap_envelope kind payload) }))

  -- The frame of a container: its type byte must agree with its name.
  unfoldable pub decode_frame : Bytes → EnvelopeType → Bytes → Result FrameError Decoded
  decode_frame [] t payload = ok (record { kind = t; payload = payload })
  decode_frame (c ∷ name) t payload =
      if is_named (types_by_name (x.to_lower (c ∷ name))) t
      then ok (record { kind = t; payload = payload })
      else err disagrees

  unfoldable pub decode_blob : Bytes → Bytes → Result FrameError Decoded
  decode_blob name [] = err empty_blob
  decode_blob name (t ∷ rest) = elim (type_of t) [
    | some kind ↦ decode_frame name kind rest
    | none ↦ elim (types_by_name (x.to_lower name)) [
      | none ↦ err unknown_name
      | some kind ↦ ok (record { kind = kind; payload = t ∷ rest })
    ]
  ]

  unfoldable pub decode_json : Bytes → Result FrameError Decoded
  decode_json trimmed = do
    c ← or_fail (x.unmarshal trimmed) bad_json
    blob ← or_fail (unbase64 c.blob) bad_base64
    decode_blob c.kind blob

  unfoldable pub decode_raw : Bytes → Result FrameError Decoded
  decode_raw [] = err index_out_of_range
  decode_raw (t ∷ rest) = elim (type_of t) [
    | none ↦ err not_framed
    | some kind ↦ ok (record { kind = kind; payload = rest })
  ]

  unfoldable pub decode_trimmed : Bytes → Result FrameError Decoded
  decode_trimmed [] = decode_raw []
  decode_trimmed (c ∷ s) = if c == b'{' then decode_json (c ∷ s) else decode_raw (c ∷ s)

  -- DecodeContainer
  unfoldable pub decode_container : Bytes → Result FrameError Decoded
  decode_container raw = decode_trimmed (x.trim_space raw)
