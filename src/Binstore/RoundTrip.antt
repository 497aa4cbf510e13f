-- ===== src/Binstore/RoundTrip.antt =====
-- internal/binstore/binstore.go: what Save wrote, read by Load.
use nex_talk.Base.{
  ℕ, zero, suc, ◌*◌, ◌/◌, ◌^◌, ◌<◌, ◌≡◌, refl, sym, subst, All, take-length_append,
  drop-length_append, length-append, some, List, [], ◌∷◌, ◌++◌, arith, Bytes, length, ok,
}
use nex_talk.Binstore.{
  Envelope, EnvelopeLaws, File, max_varint_len, put_uvarint, read_uvarint, put_record, put_records,
  put_body, read_record, read_records, read_body, save, load,
}

-- The numbers that fit the bytes that are left: 2^64 for all ten.
unfoldable pub limit : ℕ → ℕ
limit zero = 0
limit (suc zero) = 2
limit (suc (suc left)) = 128 * limit (suc left)

read_uvarint-put_uvarint :
    (left n : ℕ) (rest : Bytes)
    → n < limit left
    → read_uvarint left (put_uvarint left n ++ rest) ≡ some (n, rest)
unfolding limit read_uvarint put_uvarint
read_uvarint-put_uvarint zero n rest h = absurd (omega arith)
read_uvarint-put_uvarint (suc zero) n rest h = ground (arith)
read_uvarint-put_uvarint (suc (suc left)) n rest h =
    let next = read_uvarint-put_uvarint (suc left) (n / 128) rest (omega arith) in
    ground (arith, next)

limit-ten : limit max_varint_len ≡ 2 ^ 64
unfolding limit
limit-ten = refl

read_whole :
    (n : ℕ) (rest : Bytes)
    → n < 2 ^ 64
    → read_uvarint max_varint_len (put_uvarint max_varint_len n ++ rest) ≡ some (n, rest)
read_whole n rest h =
    read_uvarint-put_uvarint max_varint_len n rest (subst (λ m. n < m) (sym limit-ten) h)

read_record-put_record :
    (r rest : Bytes) → length r < 2 ^ 64 → read_record (put_record r rest) ≡ some (r, rest)
unfolding read_record put_record
read_record-put_record r rest h =
    rw
      (
        read_record,
        read_whole (length r) (r ++ rest) h,
        take-length_append r rest,
        drop-length_append r rest,
      )
      (ground (arith, length-append r rest))

read_records-put_records :
    (rs : List Bytes)
    → All (λ (r : Bytes). length r < 2 ^ 64) rs
    → read_records (length rs) (put_records rs) ≡ some rs
unfolding read_records put_records
read_records-put_records [] h = refl
read_records-put_records (r ∷ rs) (h, hs) =
    rw (read_records, read_record-put_record r (put_records rs) h, read_records-put_records rs hs)
      refl

-- What Save frames in an envelope is what Load reads, as long as the lengths are uint64s.
pub read_body-put_body :
    (rs : List Bytes)
    → length rs < 2 ^ 64
    → All (λ (r : Bytes). length r < 2 ^ 64) rs
    → read_body (put_body rs) ≡ ok rs
unfolding read_body put_body
read_body-put_body rs h hs =
    rw (read_body, read_whole (length rs) (put_records rs) h, read_records-put_records rs hs) refl

module _ (v : Envelope) (laws : EnvelopeLaws v) where
  -- Records that Save has written are what Load returns under the same schema, as long as their number
  -- and lengths are uint64s.
  pub load-save :
      (schema : ℕ) (rs : List Bytes) (f : File)
      → length rs < 2 ^ 64
      → All (λ (r : Bytes). length r < 2 ^ 64) rs
      → (save v schema rs f).0 ≡ ok tt
      → load v schema (save v schema rs f).1 ≡ ok rs
  unfolding save load
  load-save schema rs f h hs written =
      ground (arith, laws.unwrap-wrap schema (put_body rs), read_body-put_body rs h hs)
