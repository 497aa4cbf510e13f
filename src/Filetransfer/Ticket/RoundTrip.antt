-- ===== src/Filetransfer/Ticket/RoundTrip.antt =====
-- internal/filetransfer/ticket.go and filetransfer.go: tickets and manifests that were written, and
-- their readers.
use nex_talk.Base.{
  ℕ, ◌^◌, ◌<◌, ◌≡◌, refl, ap, true, false, some, [], ◌∷◌, arith, Bytes, beq, length, ok,
  Option-cases, inl, inr, All,
}
use nex_talk.Std.Words.{put_uint64, be_fold, be_fold-put_uint64, length-put_uint64}
use nex_talk.Std.Base64.{IsByte}
use nex_talk.Std.Base64.RoundTrip.{unbase64-base64}
use nex_talk.External.{External, Laws}
use nex_talk.External.Suite.{Suite, SuiteLaws}
use nex_talk.Crypto.SecureMessage.{field}
use nex_talk.Core.Wire.{is_json}
use nex_talk.Filetransfer.Manifests.{
  Manifest, put_uint32, get_uint32, get_uint64, not_positive, manifest_fields, empty_manifest,
  set_number, set_manifest_field, read_manifest, is_complete, parse_manifest,
}
use nex_talk.Filetransfer.Ticket.{
  Ticket, ticket_fields, empty_ticket, set_ticket_field, read_ticket, has_fields, check_manifest,
  marshal_ticket, parse_ticket, encode_ticket_string, decode_ticket_string,
}

-- Sizes that are positive and fit their words, and hashes of 32 bytes.
pub record IsManifest (m : Manifest) : Type 0 where
  pub plain : m.plain_size < 2 ^ 64
  pub some_cipher : 0 < m.cipher_size
  pub cipher : m.cipher_size < 2 ^ 63
  pub some_size : 0 < m.chunk_size
  pub size : m.chunk_size < 2 ^ 32
  pub some_count : 0 < m.chunk_count
  pub count : m.chunk_count < 2 ^ 32
  pub file : length m.file_hash ≡ 32
  pub whole : length m.cipher_hash ≡ 32

get_uint32-put_uint32 : (n : ℕ) → n < 2 ^ 32 → get_uint32 (put_uint32 n) ≡ some n
unfolding get_uint32 put_uint32 be_fold
get_uint32-put_uint32 n h = ap some (omega arith)

get_uint64-put_uint64 : (n : ℕ) → n < 2 ^ 64 → get_uint64 (put_uint64 n) ≡ some n
unfolding get_uint64
get_uint64-put_uint64 n h = rw (length-put_uint64 n, be_fold-put_uint64 n h) refl

-- The fields in their order, by the numbers that are read from them.
read_manifest-numbers :
    (m : Manifest) (plain cipher size count : Bytes)
    → get_uint64 plain ≡ some m.plain_size
    → get_uint64 cipher ≡ some m.cipher_size
    → get_uint32 size ≡ some m.chunk_size
    → get_uint32 count ≡ some m.chunk_count
    → read_manifest empty_manifest (
        field 1 m.file_name
        ∷ field 2 plain
        ∷ field 3 cipher
        ∷ field 4 size
        ∷ field 5 count
        ∷ field 6 m.file_hash
        ∷ field 7 m.cipher_hash
        ∷ [])
      ≡ some m
unfolding read_manifest set_manifest_field set_number
read_manifest-numbers m plain cipher size count a b c d = ground (arith, a, b, c, d)

read_manifest-fields :
    (m : Manifest) → IsManifest m → read_manifest empty_manifest (manifest_fields m) ≡ some m
unfolding manifest_fields
read_manifest-fields m h =
    read_manifest-numbers m (put_uint64 m.plain_size) (put_uint64 m.cipher_size)
      (put_uint32 m.chunk_size) (put_uint32 m.chunk_count)
      (get_uint64-put_uint64 m.plain_size h.plain)
      (get_uint64-put_uint64 m.cipher_size (omega (arith, h.cipher)))
      (get_uint32-put_uint32 m.chunk_size h.size) (get_uint32-put_uint32 m.chunk_count h.count)

is_complete-IsManifest : (m : Manifest) → IsManifest m → is_complete m ≡ true
unfolding is_complete not_positive
is_complete-IsManifest m h =
    ground (arith, h.some_cipher, h.cipher, h.some_size, h.some_count, h.file, h.whole)

read_ticket-fields : (t : Ticket) → read_ticket empty_ticket (ticket_fields t) ≡ some t
unfolding read_ticket ticket_fields set_ticket_field beq
read_ticket-fields t = refl

module _ (x : External) (y : Suite) (laws : Laws x) (suite : SuiteLaws x y) where
  -- A manifest that was written is parsed to itself.
  pub parse_manifest-fields :
      (m : Manifest) (b : Bytes)
      → IsManifest m
      → x.encode_id (manifest_fields m) ≡ some b
      → parse_manifest x b ≡ ok m
  unfolding parse_manifest
  parse_manifest-fields m b h e =
      rw
        (
          parse_manifest,
          laws.decode-encode (manifest_fields m) b e,
          read_manifest-fields m h,
          is_complete-IsManifest m h,
        )
        refl

  ticket_not_json :
      (t : Ticket) (raw : Bytes) → x.encode_id (ticket_fields t) ≡ some raw → is_json raw ≡ false
  unfolding is_json ticket_fields
  ticket_not_json t raw e =
      let (rest, same) = suite.encode-count (ticket_fields t) raw e in rw (same, is_json) refl

  marshal_ticket-ok :
      (t : Ticket) (raw : Bytes)
      → marshal_ticket x t ≡ ok raw
      → (has_fields t ≡ true) × (x.encode_id (ticket_fields t) ≡ some raw)
  unfolding marshal_ticket has_fields
  marshal_ticket-ok t raw e = elim (Option-cases (x.encode_id (ticket_fields t))) [
    | inl bad ↦ absurd (ground arith)
    | inr (b, written) ↦ (ground arith, ground arith)
  ]

  -- A ticket that was marshalled, with a manifest that was written, is parsed to itself, also behind
  -- its copy-paste text if it is made of bytes.
  pub parse_ticket-marshal_ticket :
      (t : Ticket) (raw : Bytes) (m : Manifest)
      → marshal_ticket x t ≡ ok raw
      → IsManifest m
      → x.encode_id (manifest_fields m) ≡ some t.manifest
      → All IsByte raw
      → (parse_ticket x raw ≡ ok t) × (decode_ticket_string (encode_ticket_string raw) ≡ some raw)
  unfolding parse_ticket check_manifest decode_ticket_string encode_ticket_string
  parse_ticket-marshal_ticket t raw m e h written bytes =
      let (whole, encoded) = marshal_ticket-ok t raw e in
      (
        rw
            (
              parse_ticket,
              ticket_not_json t raw encoded,
              laws.decode-encode (ticket_fields t) raw encoded,
              read_ticket-fields t,
              whole,
              parse_manifest-fields m t.manifest h written,
            )
            refl,
        unbase64-base64 raw bytes,
      )
