-- ===== src/Examples/Toy.antt =====
-- Concrete packages for the runs: a record format that escapes each byte, an AEAD that adds a
-- byte, a constant tag, and keys and signatures of the right length.
use nex_talk.Base.{
  ℕ, zero, suc, ◌≡◌, refl, true, Option, none, some, List, [], ◌∷◌, ◌++◌, append-nil, arith, Bytes,
  length, if◌then◌else◌, ◌==◌,
}
use nex_talk.Std.Words.{put_uint64}
use nex_talk.External.{External, Laws, Field}
use nex_talk.External.Suite.{Suite, SuiteLaws}

-- A byte is written 1 b, and a field begins with 0 id.
write_bytes : Bytes → Bytes → Bytes
write_bytes [] rest = rest
write_bytes (b ∷ bs) rest = 1 ∷ b ∷ write_bytes bs rest

write_fields : List Field → Bytes
unfolding write_bytes
write_fields [] = []
write_fields (f ∷ fs) = let rest = write_fields fs in 0 ∷ f.id ∷ write_bytes f.bytes rest

-- The bytes before the first field, and the fields.
read_fields : Bytes → Bytes × List Field
read_fields [] = ([], [])
read_fields (t ∷ []) = ([], [])
read_fields (zero ∷ id ∷ rest) =
    let (b, fs) = read_fields rest in ([], record { id = id; bytes = b } ∷ fs)
read_fields (suc t ∷ b ∷ rest) = let (bs, fs) = read_fields rest in (b ∷ bs, fs)

toy_encode : List Field → Option Bytes
unfolding write_fields
toy_encode fs = some (length fs ∷ write_fields fs)

toy_decode : Bytes → Option (List Field)
unfolding read_fields
toy_decode [] = none
toy_decode (n ∷ rest) = some (read_fields rest).1

toy_open : Bytes → Bytes → Bytes → Bytes → Option Bytes
toy_open k n [] a = none
toy_open k n (c ∷ p) a = some p

unfoldable pub zeros : ℕ → Bytes
zeros zero = []
zeros (suc n) = 0 ∷ zeros n

-- A text that begins with 200 stands for the bytes behind it, any other for 64 zeros.
toy_decode_text : Bytes → Option Bytes
unfolding zeros
toy_decode_text [] = some (zeros 64)
toy_decode_text (c ∷ text) = if c == 200 then some text else some (zeros 64)

unfoldable pub toy : External
unfolding toy_encode toy_decode toy_open toy_decode_text zeros
toy = record {
  encode_id = toy_encode;
  decode_id = toy_decode;
  uint64_data = λ n. some (put_uint64 n);
  ed25519_verify = λ key msg sig. true;
  ed25519_sign = λ key msg. zeros 64;
  x25519 = λ priv public. zeros 32;
  hkdf = λ secret salt info n. zeros n;
  hmac = λ key msg. 7 ∷ [];
  new_x = λ key. true;
  seal = λ k n p a. 9 ∷ p;
  open_sealed = toy_open;
  base58_decode = toy_decode_text;
}

read_fields-write_bytes :
    (bs rest : Bytes)
    → read_fields (write_bytes bs rest) ≡ (bs ++ (read_fields rest).0, (read_fields rest).1)
unfolding write_bytes read_fields
read_fields-write_bytes [] rest = refl
read_fields-write_bytes (b ∷ bs) rest = ground (arith, read_fields-write_bytes bs rest)

read_fields-write_fields : (fs : List Field) → read_fields (write_fields fs) ≡ ([], fs)
unfolding write_fields read_fields
read_fields-write_fields [] = refl
read_fields-write_fields (f ∷ fs) = rw (
  read_fields-write_bytes f.bytes (write_fields fs),
  read_fields-write_fields fs,
  append-nil f.bytes,
)

pub toy-Laws : Laws toy
unfolding toy toy_encode toy_decode toy_open
toy-Laws = record {
  decode-encode = λ fs b e. ground (arith, read_fields-write_fields fs);
  encode-ne-nil = λ fs e. ground arith;
  uint64_is = λ n b e. ground arith;
  open-seal = λ k n p a e. refl;
}

-- Keys that are their own public halves, hashes that only add a byte, and one shared secret.
unfoldable pub toy_suite : Suite
unfolding zeros
toy_suite = record {
  x25519_base = λ priv. priv;
  ed25519_public = λ priv. priv;
  dilithium_public = λ priv. priv;
  kyber_public = λ priv. priv;
  sha256 = λ b. b;
  sha3_256 = λ b. zeros 32;
  sha3_512 = λ b. b;
  dilithium_verify = λ key msg sig. true;
  dilithium_sign = λ priv msg. 8 ∷ [];
  encapsulate = λ key coins. some (5 ∷ [], 6 ∷ []);
  decapsulate = λ priv ct. some (6 ∷ []);
  base58_encode = λ b. 200 ∷ b;
}

pub toy-SuiteLaws : SuiteLaws toy toy_suite
unfolding toy toy_suite toy_encode toy_decode_text
toy-SuiteLaws = record {
  x25519_comm = λ p q. refl;
  ed25519_verify-sign = λ priv msg. refl;
  dilithium_verify-sign = λ priv msg. refl;
  decapsulate-encapsulate = λ priv coins ct secret e. ground arith;
  base58_decode-encode = λ b. refl;
  encode-count = λ fs b e. (write_fields fs, ground arith);
}
