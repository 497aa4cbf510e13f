-- ===== src/Examples/Container.antt =====
-- A run of the container of a frame.
use nex_talk.Base.{zero, suc, ◌≡◌, refl, Option, none, some, [], ◌∷◌, arith, Bytes, Result, ok, err}
use nex_talk.Relay.{message}
use nex_talk.Frame.{Container, Decoded, FrameError, Texts, encode_container, decode_container}
use nex_talk.Frame.RoundTrip.{TextsLaws, decode_container-encode_container}

-- A form of containers that begins as an object does, with a mark before each byte of the name.
put_name : Bytes → Bytes → Bytes
put_name [] b = 0 ∷ b
put_name (k ∷ ks) b = 1 ∷ k ∷ put_name ks b

get_name : Bytes → Option Container
get_name [] = none
get_name (zero ∷ b) = some (record { kind = []; blob = b })
get_name (suc n ∷ []) = none
get_name (suc n ∷ k ∷ s) = elim (get_name s) [
  | none ↦ none
  | some c ↦ some (record c { kind = k ∷ c.kind })
]

get_name-put_name :
    (kind blob : Bytes) → get_name (put_name kind blob) ≡ some (record { kind = kind; blob = blob })
unfolding get_name put_name
get_name-put_name [] blob = refl
get_name-put_name (k ∷ kind) blob = rw (get_name-put_name kind blob) refl

behind_brace : Bytes → Option Container
unfolding get_name
behind_brace [] = none
behind_brace (c ∷ s) = get_name s

abbrev toy_texts : Texts
unfolding put_name behind_brace
toy_texts = record {
  marshal = λ c. b'{' ∷ put_name c.kind c.blob;
  unmarshal = behind_brace;
  trim_space = λ s. s;
  to_lower = λ s. s;
}

toy_texts-Laws : TextsLaws toy_texts
unfolding behind_brace put_name
toy_texts-Laws = record {
  unmarshal-marshal = λ c h k. get_name-put_name c.kind c.blob;
  marshal_opens = λ c. (put_name c.kind c.blob, refl);
  trim_space-marshal = λ c. refl;
  to_lower-name_of = λ t. refl;
}

abbrev raw_of : Result FrameError Bytes → Bytes
raw_of (ok raw) = raw
raw_of (err e) = []

abbrev packed : Bytes
packed = raw_of (encode_container toy_texts 3 (125 ∷ 32 ∷ []))

was_packed : encode_container toy_texts 3 (125 ∷ 32 ∷ []) ≡ ok packed
unfolding encode_container nex_talk.Frame.type_of
was_packed = refl

decode_container-encode_container_example :
    decode_container toy_texts packed ≡ ok (record { kind = message; payload = 125 ∷ 32 ∷ [] })
unfolding nex_talk.Frame.type_of
decode_container-encode_container_example =
    decode_container-encode_container toy_texts toy_texts-Laws 3 message (125 ∷ 32 ∷ []) packed refl
      (omega arith, (omega arith, tt)) was_packed
