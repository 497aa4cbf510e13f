-- ===== src/Crypto/Handshake/Transcript.antt =====
-- crypto/kex_hybrid.go: GetTranscript at both ends of a handshake.
use nex_talk.Base.{
  ◌≡◌, refl, sym, ap, ◌∙◌, true, false, List, [], ◌∷◌, ◌++◌, append-nil, arith, Bytes, bytes_lt,
}
use nex_talk.External.{External}
use nex_talk.External.Suite.{Suite}
use nex_talk.Crypto.Handshake.{
  insert_hash, sort_hashes, hash_all, transcript_items, get_transcript, transcript_label, join,
  Peer,
}

pub bytes_lt_asym : (a b : Bytes) → bytes_lt a b ≡ true → bytes_lt b a ≡ false
unfolding bytes_lt
bytes_lt_asym a [] h = cc
bytes_lt_asym [] (y ∷ ys) h = refl
bytes_lt_asym (x ∷ xs) (y ∷ ys) h = ground (arith, bytes_lt_asym xs ys)

bytes_lt_trans : (a b c : Bytes) → bytes_lt a b ≡ true → bytes_lt b c ≡ true → bytes_lt a c ≡ true
unfolding bytes_lt
bytes_lt_trans a b [] h k = ground (arith, k)
bytes_lt_trans a [] (z ∷ zs) h k = ground (arith, h)
bytes_lt_trans [] (y ∷ ys) (z ∷ zs) h k = refl
bytes_lt_trans (x ∷ xs) (y ∷ ys) (z ∷ zs) h k = ground (arith, bytes_lt_trans xs ys zs)

pub bytes_lt_total : (a b : Bytes) → bytes_lt a b ≡ false → bytes_lt b a ≡ false → a ≡ b
unfolding bytes_lt
bytes_lt_total [] [] h k = refl
bytes_lt_total [] (y ∷ ys) h k = cc
bytes_lt_total (x ∷ xs) [] h k = cc
bytes_lt_total (x ∷ xs) (y ∷ ys) h k = ground (arith, bytes_lt_total xs ys)

insert_hash_comm :
    (a b : Bytes) (l : List Bytes)
    → insert_hash a (insert_hash b l) ≡ insert_hash b (insert_hash a l)
unfolding insert_hash
insert_hash_comm a b [] = ground (arith, bytes_lt_asym a b, bytes_lt_total a b)
insert_hash_comm a b (c ∷ l) = ground (
  arith,
  insert_hash_comm a b l,
  bytes_lt_trans a b c,
  bytes_lt_trans b a c,
  bytes_lt_asym a b,
  bytes_lt_total a b,
)

sort_hashes-middle :
    (x : Bytes) (ys xs : List Bytes)
    → sort_hashes (ys ++ x ∷ xs) ≡ insert_hash x (sort_hashes (ys ++ xs))
unfolding sort_hashes
sort_hashes-middle x [] xs = refl
sort_hashes-middle x (y ∷ ys) xs =
    ap (insert_hash y) (sort_hashes-middle x ys xs) ∙ insert_hash_comm y x (sort_hashes (ys ++ xs))

sort_hashes-append_comm : (xs ys : List Bytes) → sort_hashes (xs ++ ys) ≡ sort_hashes (ys ++ xs)
unfolding sort_hashes
sort_hashes-append_comm [] ys = ap sort_hashes (sym (append-nil ys))
sort_hashes-append_comm (x ∷ xs) ys =
    ap (insert_hash x) (sort_hashes-append_comm xs ys) ∙ sym (sort_hashes-middle x ys xs)

module _ (x : External) (y : Suite) where
  hash_all-append :
      (is js : List Bytes) → hash_all x y (is ++ js) ≡ hash_all x y is ++ hash_all x y js
  unfolding hash_all
  hash_all-append [] js = refl
  hash_all-append (i ∷ is) js = ap (λ hs. y.sha3_256 i ∷ hs) (hash_all-append is js)

  sort_hash_all_comm :
      (is js : List Bytes)
      → sort_hashes (hash_all x y (is ++ js)) ≡ sort_hashes (hash_all x y (js ++ is))
  sort_hash_all_comm is js =
      ap sort_hashes (hash_all-append is js)
      ∙ sort_hashes-append_comm (hash_all x y is) (hash_all x y js)
      ∙ ap sort_hashes (sym (hash_all-append js is))

  -- Both ends build one transcript from what they show each other.
  pub get_transcript_comm :
      (p q : Peer)
      → get_transcript x y p q.keys.identity_public q.keys.public q.session.dh_public
          q.keys.pqc_public_key
        ≡ get_transcript x y q p.keys.identity_public p.keys.public p.session.dh_public
            p.keys.pqc_public_key
  unfolding get_transcript
  get_transcript_comm p q =
      ap (λ hs. y.sha3_512 (transcript_label ++ join hs))
        (sort_hash_all_comm
          (transcript_items x y p.keys.identity_public p.keys.public p.session.dh_public
            p.keys.pqc_public_key)
          (transcript_items x y q.keys.identity_public q.keys.public q.session.dh_public
            q.keys.pqc_public_key))
