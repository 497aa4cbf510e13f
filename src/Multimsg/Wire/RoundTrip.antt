-- ===== src/Multimsg/Wire/RoundTrip.antt =====
-- internal/multimsg/wire.go: wrapPayloadV2 and wrapPlaintext against ParseWrapped.
use nex_talk.Base.{
  ◌%◌, ◌<◌, ◌≤◌, ◌^◌, ◌≡◌, ◌≢◌, refl, subst, Option, none, some, [], ◌∷◌, ◌++◌, arith, Bytes,
  length, ok, err, inl, inr, Option-cases,
}
use nex_talk.Std.Words.{be_fold-put_uint64, length-put_uint64}
use nex_talk.External.{External, Laws}
use nex_talk.Multimsg.Types.{
  MessageContext, field, descriptor_too_large, context_marshal_bin_id, marshal_context,
  unmarshal_context,
}
use nex_talk.Multimsg.Wire.{
  DeliveryMeta, wire_version_v2, verify_context_signature, read_descriptor, parse_v2, parse_v1,
  parse_wrapped, wrap_payload_v2, wrap_plaintext,
}
use nex_talk.Multimsg.Wire.Binding.{
  IsBindable, aad_of, prefixed, read-prefixed, aad_prefixed, parse_aad-build_delivery_aad,
}

module _ (x : External) (laws : Laws x) where
  -- A context is read back from its record.
  pub unmarshal-marshal_context :
      (c : MessageContext) (b : Bytes)
      → c.metadata_version < 2 ^ 64
      → marshal_context x c ≡ some b
      → unmarshal_context x b ≡ some c
  unfolding marshal_context context_marshal_bin_id unmarshal_context
  unmarshal-marshal_context c b fits e = elim (Option-cases (x.uint64_data c.metadata_version)) [
    | inl absent ↦ ground arith
    | inr (v, found) ↦ ground (
      arith,
      laws.uint64_is c.metadata_version v found,
      length-put_uint64 c.metadata_version,
      be_fold-put_uint64 c.metadata_version fits,
      laws.decode-encode
          (field 1 c.context_id
            ∷ field 2 c.display_name
            ∷ field 3 v
            ∷ field 4 c.creator_id
            ∷ field 5 c.signature
            ∷ [])
          b,
    )
  ]

  marshal_context-ne-nil : (c : MessageContext) → marshal_context x c ≢ some []
  unfolding marshal_context
  marshal_context-ne-nil c e = elim (Option-cases (context_marshal_bin_id x c)) [
    | inl absent ↦ ground arith
    | inr (fs, found) ↦ ground (arith, laws.encode-ne-nil fs)
  ]

  read_descriptor-marshal :
      (c : MessageContext) (b : Bytes)
      → c.metadata_version < 2 ^ 64
      → marshal_context x c ≡ some b
      → verify_context_signature x c ≡ ok tt
      → read_descriptor x b ≡ ok (some c)
  unfolding read_descriptor
  read_descriptor-marshal c [] fits e good = absurd (marshal_context-ne-nil c e)
  read_descriptor-marshal c (b ∷ bs) fits e good =
      rw (unmarshal-marshal_context c (b ∷ bs) fits e, good)

  parse_v2-prefixed :
      (m : DeliveryMeta) (c : Option MessageContext) (d text : Bytes)
      → IsBindable m
      → length d ≤ 255
      → read_descriptor x d ≡ ok c
      → parse_wrapped x (wire_version_v2 ∷ aad_of m ++ prefixed d text)
        ≡ ok (record { meta = m; context = c; plaintext = text })
  unfolding parse_wrapped parse_v2
  parse_v2-prefixed m c d text fits small good = rw (
    parse_aad-build_delivery_aad m (prefixed d text) fits,
    parse_v2,
    read-prefixed d text (omega arith),
    good,
  )

  wrap_payload_v2-ok :
      (aad text wrapped : Bytes) (c : MessageContext)
      → wrap_payload_v2 x aad (some c) text ≡ ok wrapped
      → (b : Bytes) × (marshal_context x c ≡ some b)
        × (length b ≤ 255)
        × (wire_version_v2 ∷ aad ++ prefixed b text ≡ wrapped)
  unfolding wrap_payload_v2 prefixed
  wrap_payload_v2-ok aad text wrapped c e = elim (Option-cases (marshal_context x c)) [
    | inl absent ↦ absurd (ground arith)
    | inr (b, found) ↦ (
      b,
      found,
      ground arith,
      let small : length b ≤ 255 = ground arith in
          let same : length b % 256 ≡ length b = omega arith in rw same (ground arith),
    )
  ]

  -- A payload wrapped with a context whose signature verifies, and whose version is a uint64, is
  -- parsed to its binding, that context and the text.
  pub parse_wrapped-wrap_payload_v2 :
      (m : DeliveryMeta) (c : MessageContext) (text wrapped : Bytes)
      → IsBindable m
      → c.metadata_version < 2 ^ 64
      → verify_context_signature x c ≡ ok tt
      → wrap_payload_v2 x (aad_of m) (some c) text ≡ ok wrapped
      → parse_wrapped x wrapped ≡ ok (record { meta = m; context = some c; plaintext = text })
  parse_wrapped-wrap_payload_v2 m c text wrapped fits uint good e =
      let (b, found, small, same) = wrap_payload_v2-ok (aad_of m) text wrapped c e in
      rw (← same) (
        parse_v2-prefixed m (some c) b text fits small
          (read_descriptor-marshal c b uint found good))

  -- A payload wrapped with no context is parsed to its binding and the text.
  pub parse_wrapped-wrap_payload_v2_bare :
      (m : DeliveryMeta) (text wrapped : Bytes)
      → IsBindable m
      → wrap_payload_v2 x (aad_of m) none text ≡ ok wrapped
      → parse_wrapped x wrapped ≡ ok (record { meta = m; context = none; plaintext = text })
  unfolding wrap_payload_v2
  parse_wrapped-wrap_payload_v2_bare m text wrapped fits e =
      let same : wire_version_v2 ∷ aad_of m ++ prefixed [] text ≡ wrapped =
        unfold prefixed in ground arith in
      subst (λ w. parse_wrapped x w ≡ ok (record { meta = m; context = none; plaintext = text }))
        same (parse_v2-prefixed m none [] text fits (omega arith) (unfold read_descriptor in refl))

  -- A payload of the older form is parsed to its binding and the text, unless its message ID has
  -- length 2, which reads as the newer form.
  parse_wrapped-wrap_plaintext :
      (m : DeliveryMeta) (text : Bytes)
      → IsBindable m
      → length m.message_id ≢ 2
      → parse_wrapped x (wrap_plaintext text (aad_of m))
        ≡ ok (record { meta = m; context = none; plaintext = text })
  unfolding wrap_plaintext
  parse_wrapped-wrap_plaintext m text fits other =
      let small : length m.message_id % 256 ≡ length m.message_id =
        omega (arith, fits.message_fits) in
      rw (aad_prefixed m text) (
        unfold parse_wrapped parse_v1 prefixed in
        ground (arith, parse_aad-build_delivery_aad m text fits, aad_prefixed m text))

-- A context whose record is longer than 255 bytes is in no payload.
pub wrap_payload_v2_too_large :
    (x : External) (aad text b : Bytes) (c : MessageContext)
    → marshal_context x c ≡ some b
    → 255 < length b
    → wrap_payload_v2 x aad (some c) text ≡ err descriptor_too_large
unfolding wrap_payload_v2
wrap_payload_v2_too_large x aad text b c e large = ground arith
