-- ===== src/Binstore.antt =====
-- internal/binstore/binstore.go: the file format of the local stores. The envelope of nanopack is an
-- argument. A length is read as a number: on one of 2^63 or more, which an int does not hold, the code
-- panics where this refuses the file.
pub mod RoundTrip
use nex_talk.Base.{
  ℕ, zero, suc, ◌+◌, ◌*◌, ◌/◌, ◌%◌, ◌≡◌, Bool, true, false, not, Option, none, some, List, [], ◌∷◌,
  ◌++◌, arith, Bytes, ltb, ◌==◌, if◌then◌else◌, length, take, drop, Result, ok, err, ◌>>=◌, ◌>>◌,
  require, or_fail,
}

-- What UnwrapPacket returns of a frame.
pub record Packet : Type 0 where
  pub major : ℕ
  pub schema : ℕ
  pub body : Bytes

-- nanopack's WrapPacket of a schema and a body, UnwrapPacket, and the major version of both.
pub record Envelope : Type 0 where
  pub wrap : ℕ → Bytes → Bytes
  pub unwrap : Bytes → Option Packet
  pub version : ℕ

pub record EnvelopeLaws (v : Envelope) : Type 0 where
  pub unwrap-wrap :
      (schema : ℕ) (body : Bytes)
      → v.unwrap (v.wrap schema body)
        ≡ some (record { major = v.version; schema = schema; body = body })

-- A store file: what it holds, and whether it can be written.
pub record File : Type 0 where
  pub content : Option Bytes
  pub writable : Bool

pub data FileError : Type 0 where
  not_exist write_failed bad_packet unsupported_version wrong_schema : FileError
  bad_record_count bad_record : FileError

-- binary.MaxVarintLen64
abbrev pub max_varint_len : ℕ
max_varint_len = 10

-- binary.AppendUvarint, by the bytes that are left to write.
unfoldable pub put_uvarint : ℕ → ℕ → Bytes
put_uvarint zero n = []
put_uvarint (suc left) n =
    let rest = put_uvarint left (n / 128) in if ltb n 128 then n ∷ [] else (n % 128 + 128) ∷ rest

-- binary.Uvarint, by the bytes that it may still read: the number and the rest.
unfoldable pub read_uvarint : ℕ → Bytes → Option (ℕ × Bytes)
read_uvarint left [] = none
read_uvarint zero (b ∷ buf) = none
read_uvarint (suc left) (b ∷ buf) =
    let rest = read_uvarint left buf in
    if ltb b 128
    then (if left == 0 then (if ltb 1 b then none else some (b, buf)) else some (b, buf))
    else elim rest [ none ↦ none | some (n, tail) ↦ some (b % 128 + 128 * n, tail) ]

-- One round of the loop of Save in front of the others, and its body.
unfoldable pub put_record : Bytes → Bytes → Bytes
put_record r rest = put_uvarint max_varint_len (length r) ++ (r ++ rest)

unfoldable pub put_records : List Bytes → Bytes
put_records [] = []
put_records (r ∷ rs) = put_record r (put_records rs)

unfoldable pub put_body : List Bytes → Bytes
put_body rs = put_uvarint max_varint_len (length rs) ++ put_records rs

-- One round of the loop of Load: the record and the rest.
unfoldable pub read_record : Bytes → Option (Bytes × Bytes)
read_record buf = elim (read_uvarint max_varint_len buf) [
  | none ↦ none
  | some (len, rest) ↦ if ltb (length rest) len then none else some (take len rest, drop len rest)
]

-- That loop, by the number of records.
unfoldable pub read_records : ℕ → Bytes → Option (List Bytes)
read_records zero buf = some []
read_records (suc count) buf = elim (read_record buf) [
  | none ↦ none
  | some (r, rest) ↦ elim (read_records count rest) [ none ↦ none | some rs ↦ some (r ∷ rs) ]
]

unfoldable pub read_body : Bytes → Result FileError (List Bytes)
read_body body = do
  (count, rest) ← or_fail (read_uvarint max_varint_len body) bad_record_count
  or_fail (read_records count rest) bad_record

module _ (v : Envelope) where
  -- Save: the temporary file is renamed only when it is written.
  unfoldable pub save : ℕ → List Bytes → File → Result FileError (Unit {0}) × File
  save schema records f =
      if f.writable
      then (ok tt, record f { content = some (v.wrap schema (put_body records)) })
      else (err write_failed, f)

  -- Load
  unfoldable pub load : ℕ → File → Result FileError (List Bytes)
  load schema f = do
    frame ← or_fail f.content not_exist
    packet ← or_fail (v.unwrap frame) bad_packet
    require (packet.major == v.version) unsupported_version
    require (packet.schema == schema) wrong_schema
    read_body packet.body
