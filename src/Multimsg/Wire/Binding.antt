-- ===== src/Multimsg/Wire/Binding.antt =====
-- internal/multimsg/wire.go and fanout.go: parseAAD against buildDeliveryAAD.
use nex_talk.Base.{
  ℕ, ◌%◌, ◌<◌, ◌^◌, ◌≡◌, refl, sym, ap, ◌∙◌, true, some, [], ◌∷◌, ◌++◌, append_assoc, arith, Bytes,
  length, length-append, take, drop, take-length_append, drop-length_append, leb, ok,
}
use nex_talk.Std.Words.{put_uint64, be_fold-put_uint64}
use nex_talk.Multimsg.Types.{MultiResult}
use nex_talk.Multimsg.Wire.{DeliveryMeta, read_length_prefixed, parse_aad, build_delivery_aad}

-- Lengths that a length byte can hold, and a version that is a uint64.
pub record IsBindable (m : DeliveryMeta) : Type 0 where
  pub message_fits : length m.message_id < 256
  pub context_fits : length m.context_id < 256
  pub sender_fits : length m.sender < 256
  pub recipient_fits : length m.recipient < 256
  pub version_fits : m.version < 2 ^ 64

-- The binding of a delivery.
abbrev pub aad_of : DeliveryMeta → Bytes
aad_of m = build_delivery_aad m.message_id m.context_id m.sender m.recipient m.version

unfoldable pub prefixed : Bytes → Bytes → Bytes
prefixed d rest = (length d % 256) ∷ (d ++ rest)

pub read-prefixed :
    (d rest : Bytes) → length d < 256 → read_length_prefixed (prefixed d rest) ≡ some (d, rest)
unfolding read_length_prefixed prefixed
read-prefixed d rest h =
    let small : length d % 256 ≡ length d = omega arith in
    rw small
      (ground (arith, length-append d rest, take-length_append d rest, drop-length_append d rest))

pub aad_prefixed :
    (m : DeliveryMeta) (rest : Bytes)
    → aad_of m ++ rest
      ≡ prefixed m.message_id (
          prefixed m.context_id
            (prefixed m.sender (prefixed m.recipient (put_uint64 m.version ++ rest))))
unfolding build_delivery_aad prefixed
aad_prefixed m rest = simp append_assoc

leb-put_uint64 : (v : ℕ) (rest : Bytes) → leb 8 (length (put_uint64 v ++ rest)) ≡ true
unfolding put_uint64
leb-put_uint64 v rest = ground arith

take-put_uint64 : (v : ℕ) (rest : Bytes) → take 8 (put_uint64 v ++ rest) ≡ put_uint64 v
unfolding put_uint64
take-put_uint64 v rest = refl

drop-put_uint64 : (v : ℕ) (rest : Bytes) → drop 8 (put_uint64 v ++ rest) ≡ rest
unfolding put_uint64
drop-put_uint64 v rest = refl

-- A binding is read back from its bytes, with what follows them, where the lengths fit a byte.
pub parse_aad-build_delivery_aad :
    (m : DeliveryMeta) (rest : Bytes) → IsBindable m → parse_aad (aad_of m ++ rest) ≡ ok (m, rest)
unfolding parse_aad
parse_aad-build_delivery_aad m rest fits =
    rw
      (
        aad_prefixed m rest,
        parse_aad,
        read-prefixed m.message_id _ fits.message_fits,
        read-prefixed m.context_id _ fits.context_fits,
        read-prefixed m.sender _ fits.sender_fits,
        read-prefixed m.recipient _ fits.recipient_fits,
      )
      (rw (
        leb-put_uint64 m.version rest,
        take-put_uint64 m.version rest,
        drop-put_uint64 m.version rest,
        be_fold-put_uint64 m.version fits.version_fits,
      ))

-- Two bindings with the same bytes are the same, where the lengths fit a byte.
pub build_delivery_aad-injective :
    (m n : DeliveryMeta) → IsBindable m → IsBindable n → aad_of m ≡ aad_of n → m ≡ n
build_delivery_aad-injective m n fm fn e =
    let same : ◌≡◌ {A = MultiResult (DeliveryMeta × Bytes)} (ok (m, [])) (ok (n, [])) =
      sym (parse_aad-build_delivery_aad m [] fm)
      ∙ ap (λ b. parse_aad (b ++ [])) e
      ∙ parse_aad-build_delivery_aad n [] fn in
    ground arith
