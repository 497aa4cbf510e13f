-- ===== src/Filetransfer/Manifests.antt =====
-- internal/filetransfer/filetransfer.go: the manifest of a file and its record form.
use nex_talk.Base.{
  ℕ, ◌/◌, ◌%◌, ◌^◌, Bool, not, ◌||◌, Option, none, some, List, [], ◌∷◌, Bytes, leb, ◌==◌,
  if◌then◌else◌, length, Result, ok, ◌>>=◌, ◌>>◌, require, or_fail,
}
use nex_talk.Std.Words.{put_uint64, be_fold}
use nex_talk.External.{External, Field}
use nex_talk.Crypto.SecureMessage.{field}
use nex_talk.Crypto.Ratchet.{or_nil}

pub record Manifest : Type 0 where
  pub file_name : Bytes
  pub plain_size : ℕ
  pub cipher_size : ℕ
  pub chunk_size : ℕ
  pub chunk_count : ℕ
  pub file_hash : Bytes
  pub cipher_hash : Bytes

pub data ManifestError : Type 0 where
  bad_record short_number bad_sizes_or_hashes : ManifestError

-- putU32
unfoldable pub put_uint32 : ℕ → Bytes
put_uint32 n = (n / 2 ^ 24 % 256) ∷ (n / 2 ^ 16 % 256) ∷ (n / 2 ^ 8 % 256) ∷ (n % 256) ∷ []

-- getU32 and getU64
unfoldable pub get_uint32 : Bytes → Option ℕ
get_uint32 b = if length b == 4 then some (be_fold 0 b) else none

unfoldable pub get_uint64 : Bytes → Option ℕ
get_uint64 b = if length b == 8 then some (be_fold 0 b) else none

-- `n <= 0` of an int by its pattern.
unfoldable pub not_positive : ℕ → Bool
not_positive n = n == 0 || leb (2 ^ 63) n

-- The fields that Manifest.Bytes adds; the sizes are cut to 64 and to 32 bits.
unfoldable pub manifest_fields : Manifest → List Field
manifest_fields m =
    field 1 m.file_name
    ∷ field 2 (put_uint64 m.plain_size)
    ∷ field 3 (put_uint64 m.cipher_size)
    ∷ field 4 (put_uint32 m.chunk_size)
    ∷ field 5 (put_uint32 m.chunk_count)
    ∷ field 6 m.file_hash
    ∷ field 7 m.cipher_hash
    ∷ []

abbrev pub empty_manifest : Manifest
empty_manifest = record {
  file_name = [];
  plain_size = 0;
  cipher_size = 0;
  chunk_size = 0;
  chunk_count = 0;
  file_hash = [];
  cipher_hash = [];
}

unfoldable pub set_number : Option ℕ → (ℕ → Manifest) → Option Manifest
set_number none f = none
set_number (some n) f = some (f n)

-- One round of the loop of ParseManifest.
unfoldable pub set_manifest_field : Manifest → Field → Option Manifest
unfolding set_number
set_manifest_field m f =
    if f.id == 1
    then some (record m { file_name = f.bytes })
    else if f.id == 2
    then set_number (get_uint64 f.bytes) (λ n. record m { plain_size = n })
    else if f.id == 3
    then set_number (get_uint64 f.bytes) (λ n. record m { cipher_size = n })
    else if f.id == 4
    then set_number (get_uint32 f.bytes) (λ n. record m { chunk_size = n })
    else if f.id == 5
    then set_number (get_uint32 f.bytes) (λ n. record m { chunk_count = n })
    else if f.id == 6
    then some (record m { file_hash = f.bytes })
    else if f.id == 7
    then some (record m { cipher_hash = f.bytes })
    else some m

unfoldable pub read_manifest : Manifest → List Field → Option Manifest
read_manifest m [] = some m
read_manifest m (f ∷ fs) = elim (set_manifest_field m f) [
  | none ↦ none
  | some n ↦ read_manifest n fs
]

-- Its last test.
unfoldable pub is_complete : Manifest → Bool
is_complete m = not (
    m.chunk_count == 0
    || m.chunk_size == 0
    || not_positive m.cipher_size
    || not (length m.file_hash == 32)
    || not (length m.cipher_hash == 32))

module _ (x : External) where
  -- Manifest.Bytes; an encoding error is dropped.
  unfoldable pub manifest_bytes : Manifest → Bytes
  manifest_bytes m = or_nil (x.encode_id (manifest_fields m))

  -- ParseManifest
  unfoldable pub parse_manifest : Bytes → Result ManifestError Manifest
  parse_manifest raw = do
    fields ← or_fail (x.decode_id raw) bad_record
    m ← or_fail (read_manifest empty_manifest fields) short_number
    require (is_complete m) bad_sizes_or_hashes
    ok m
