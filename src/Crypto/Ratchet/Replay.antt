-- ===== src/Crypto/Ratchet/Replay.antt =====
-- crypto/kex_hybrid.go: Decrypt, for a frame that comes twice.
use nex_talk.Base.{
  ℕ, zero, suc, ◌-◌, ◌<◌, ◌≤◌, ◌≡◌, ◌≢◌, refl, ◌∙◌, subst, false, none, some, [], ◌∷◌, ◌++◌, inl,
  inr, arith, Bytes, beq, beq_refl, beq_iff, ok, err, lookup, delete, lookup-insert, lookup-delete,
  ltb, ltb→lt, Option-cases, Bool-cases,
}
use nex_talk.Std.Base64.{base64}
use nex_talk.Std.Decimal.{decimal, decimal-injective}
use nex_talk.External.{External}
use nex_talk.Crypto.SecureMessage.{SecureMessage, replay}
use nex_talk.Crypto.Ratchet.{
  SecurePeer, skip_key, stash, advance, authenticate, open_chain, open_next, is_new_epoch,
  open_message, decrypt, or_nil,
}
use nex_talk.Crypto.Ratchet.Rejects.{advance-recv_nonce, advance-remote, decrypt_replayed}

append-cancel : (xs : Bytes) {ys zs : Bytes} → xs ++ ys ≡ xs ++ zs → ys ≡ zs
append-cancel [] e = e
append-cancel (x ∷ xs) e = append-cancel xs (ground arith)

-- The counter is read back from the key under which a message key is kept.
skip_key-injective : (dh : Bytes) (i j : ℕ) → skip_key dh i ≡ skip_key dh j → i ≡ j
unfolding skip_key
skip_key-injective dh i j e =
    let same : decimal i ≡ decimal j = (let tails = append-cancel (base64 dh) e in ground arith) in
    decimal-injective i j same

-- The keys that a session keeps for its current epoch are of counters behind its chain.
abbrev pub KeepsPast : SecurePeer → Type 0
KeepsPast sp =
    (i : ℕ)
    → sp.recv_nonce ≤ i
    → lookup (skip_key (or_nil sp.remote_dh_public) i) sp.skipped_messages ≡ none

skip_key-apart : (dh : Bytes) (i j : ℕ) → i ≢ j → beq (skip_key dh i) (skip_key dh j) ≡ false
skip_key-apart dh i j apart = elim (Bool-cases (beq (skip_key dh i) (skip_key dh j))) [
  | inl same ↦
      absurd (apart (skip_key-injective dh i j ((beq_iff (skip_key dh i) (skip_key dh j)).0 same)))
  | inr differ ↦ differ
]

not_kept :
    (sp : SecurePeer) (dh : Bytes) (i : ℕ)
    → KeepsPast sp
    → sp.remote_dh_public ≡ some dh
    → sp.recv_nonce ≤ i
    → lookup (skip_key dh i) sp.skipped_messages ≡ none
not_kept sp dh i v same ahead =
    subst (λ r. lookup (skip_key (or_nil r) i) sp.skipped_messages ≡ none) same (v i ahead)

-- What a session has become once it has read a frame of its epoch.
record HasRead (sp sp' : SecurePeer) (msg : SecureMessage) : Type 0 where
  remote : sp'.remote_dh_public ≡ sp.remote_dh_public
  mac : sp'.hmac_key ≡ sp.hmac_key
  past : KeepsPast sp'
  behind : msg.nonce < sp'.recv_nonce
  gone : lookup (skip_key msg.ratchet_key msg.nonce) sp'.skipped_messages ≡ none

module _ (x : External) where
  stash-KeepsPast : (sp : SecurePeer) → KeepsPast sp → KeepsPast (stash x sp)
  unfolding stash
  stash-KeepsPast sp v i behind =
      rw
        (
          lookup-insert,
          skip_key-apart (or_nil sp.remote_dh_public) sp.recv_nonce i (λ same. omega arith),
        )
        (v i (omega arith))

  advance-KeepsPast : (k : ℕ) (sp : SecurePeer) → KeepsPast sp → KeepsPast (advance x k sp)
  unfolding advance
  advance-KeepsPast zero sp v = v
  advance-KeepsPast (suc k) sp v = advance-KeepsPast k (stash x sp) (stash-KeepsPast sp v)

  advance-hmac_key : (k : ℕ) (sp : SecurePeer) → (advance x k sp).hmac_key ≡ sp.hmac_key
  unfolding advance stash
  advance-hmac_key zero sp = refl
  advance-hmac_key (suc k) sp = advance-hmac_key k (stash x sp)

  open_next-HasRead :
      (sp : SecurePeer) (msg : SecureMessage)
      → sp.remote_dh_public ≡ some msg.ratchet_key
      → KeepsPast sp
      → lookup (skip_key msg.ratchet_key msg.nonce) sp.skipped_messages ≡ none
      → HasRead sp (open_next x sp msg).1 msg
  unfolding open_next open_chain
  open_next-HasRead sp msg same v unknown = elim (Bool-cases (ltb msg.nonce sp.recv_nonce)) [
    | inl old ↦
        rw old
          (record { remote = refl; mac = refl; past = v; behind = ltb→lt _ _ old; gone = unknown })
    | inr new ↦
        let k = msg.nonce - sp.recv_nonce in
        let far : (advance x k sp).recv_nonce ≡ msg.nonce =
          ground (arith, advance-recv_nonce x k sp, new) in
        let past = advance-KeepsPast k sp v in
        let remote = (advance-remote x k sp).0 in
        rw new (record {
          remote = remote;
          mac = advance-hmac_key k sp;
          past = λ i h. past i (omega arith);
          behind = omega arith;
          gone =
              not_kept (advance x k sp) msg.ratchet_key msg.nonce past (remote ∙ same)
                (omega arith);
        })
  ]

  kept-HasRead :
      (sp : SecurePeer) (msg : SecureMessage) (mk : Bytes)
      → sp.remote_dh_public ≡ some msg.ratchet_key
      → KeepsPast sp
      → lookup (skip_key msg.ratchet_key msg.nonce) sp.skipped_messages ≡ some mk
      → HasRead sp
          (record sp {
            skipped_messages = delete (skip_key msg.ratchet_key msg.nonce) sp.skipped_messages;
          })
          msg
  kept-HasRead sp msg mk same v known = record {
    remote = refl;
    mac = refl;
    past = λ i h. ground (
      arith,
      lookup-delete (skip_key msg.ratchet_key msg.nonce) (skip_key (or_nil sp.remote_dh_public) i)
          sp.skipped_messages,
      v i h,
    );
    behind = elim (Bool-cases (ltb msg.nonce sp.recv_nonce)) [
      | inl old ↦ ltb→lt _ _ old
      | inr new ↦
          let unknown = not_kept sp msg.ratchet_key msg.nonce v same (ground arith) in
          absurd (ground (arith, unknown, known))
    ];
    gone = rw (lookup-delete, beq_refl);
  }

  is_new_epoch-same :
      (sp : SecurePeer) (msg : SecureMessage)
      → sp.remote_dh_public ≡ some msg.ratchet_key
      → is_new_epoch x sp msg ≡ false
  unfolding is_new_epoch
  is_new_epoch-same sp msg same = ground (arith, same, beq_refl msg.ratchet_key)

  open_message-HasRead :
      (sp : SecurePeer) (msg : SecureMessage)
      → sp.remote_dh_public ≡ some msg.ratchet_key
      → KeepsPast sp
      → HasRead sp (open_message x sp msg).1 msg
  unfolding open_message
  open_message-HasRead sp msg same v =
      elim (Option-cases (lookup (skip_key msg.ratchet_key msg.nonce) sp.skipped_messages)) [
        | inl unknown ↦
            rw (unknown, open_message, is_new_epoch-same sp msg same)
              (open_next-HasRead sp msg same v unknown)
        | inr (mk, known) ↦ rw (known, open_message) (kept-HasRead sp msg mk same v known)
      ]

  authenticate-hmac_key :
      (sp sp' : SecurePeer) (payload : Bytes)
      → sp'.hmac_key ≡ sp.hmac_key
      → authenticate x sp' payload ≡ authenticate x sp payload
  unfolding authenticate
  authenticate-hmac_key sp sp' payload same = rw same

  pub decrypt-authentic :
      (sp : SecurePeer) (payload : Bytes) (msg : SecureMessage)
      → authenticate x sp payload ≡ ok msg
      → decrypt x sp payload ≡ open_message x sp msg
  unfolding decrypt
  decrypt-authentic sp payload msg real = rw (real, decrypt) refl

  -- A session in an epoch whose kept keys are all of counters behind its chain reads an
  -- authenticated frame of that epoch at most once: whatever the first reading gives, the
  -- second is refused as a replay and changes nothing, and the kept keys are still all behind.
  pub decrypt_once :
      (sp : SecurePeer) (payload : Bytes) (msg : SecureMessage)
      → authenticate x sp payload ≡ ok msg
      → sp.remote_dh_public ≡ some msg.ratchet_key
      → KeepsPast sp
      → KeepsPast (decrypt x sp payload).1
        × (decrypt x (decrypt x sp payload).1 payload ≡ (err replay, (decrypt x sp payload).1))
  decrypt_once sp payload msg real same v =
      let read = open_message-HasRead sp msg same v in
      let sp' = (open_message x sp msg).1 in
      rw (decrypt-authentic sp payload msg real) (
        read.past,
        decrypt_replayed x sp' payload msg (authenticate-hmac_key sp sp' payload read.mac ∙ real)
            (read.remote ∙ same) read.gone read.behind,
      )
