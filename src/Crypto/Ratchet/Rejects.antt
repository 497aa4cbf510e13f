-- ===== src/Crypto/Ratchet/Rejects.antt =====
-- crypto/kex_hybrid.go: replays, gaps and other epochs in Decrypt and SkipMessageKeys.
use nex_talk.Base.{
  ℕ, zero, suc, ◌+◌, ◌-◌, ◌<◌, ◌≤◌, ◌≡◌, ◌≢◌, refl, ◌⊎◌, if◌then◌else◌, true, none, some, inl, inr,
  arith, Bytes, beq_refl, beq_iff, ok, err, lookup, ltb, ltb→lt, lt→ltb, Bool-cases, take,
}
use nex_talk.External.{External}
use nex_talk.Crypto.SecureMessage.{SecureMessage, replay, too_many_skipped}
use nex_talk.Crypto.Ratchet.{
  SecurePeer, skip_key, dh_ratchet, stash, advance, skip_message_keys, authenticate, open_chain,
  open_next, is_new_epoch, open_message, decrypt, max_skip, root_info,
}

module _ (x : External) where
  -- An authenticated frame of the current epoch whose counter is behind the chain, and whose key is
  -- not kept, is refused as a replay, and the session is as it was.
  pub decrypt_replayed :
      (sp : SecurePeer) (payload : Bytes) (msg : SecureMessage)
      → authenticate x sp payload ≡ ok msg
      → sp.remote_dh_public ≡ some msg.ratchet_key
      → lookup (skip_key msg.ratchet_key msg.nonce) sp.skipped_messages ≡ none
      → msg.nonce < sp.recv_nonce
      → decrypt x sp payload ≡ (err replay, sp)
  unfolding decrypt open_message open_next is_new_epoch
  decrypt_replayed sp payload msg real same unknown behind = rw (
    real,
    decrypt,
    unknown,
    open_message,
    same,
    is_new_epoch,
    beq_refl,
    lt→ltb msg.nonce sp.recv_nonce behind,
  )

  pub advance-recv_nonce :
      (k : ℕ) (sp : SecurePeer) → (advance x k sp).recv_nonce ≡ sp.recv_nonce + k
  unfolding advance stash
  advance-recv_nonce zero sp = omega arith
  advance-recv_nonce (suc k) sp = omega (arith, advance-recv_nonce k (stash x sp))

  pub advance-remote :
      (k : ℕ) (sp : SecurePeer)
      → ((advance x k sp).remote_dh_public ≡ sp.remote_dh_public)
        × ((advance x k sp).root_key ≡ sp.root_key)
  unfolding advance stash
  advance-remote zero sp = (refl, refl)
  advance-remote (suc k) sp = advance-remote k (stash x sp)

  -- SkipMessageKeys refuses a gap of more than maxSkip messages and changes nothing then; else the
  -- chain stands at the target, or where it was if that is further.
  pub skip_message_keys_bounds :
      (sp : SecurePeer) (until : ℕ)
      → ((sp.recv_nonce + max_skip < until)
          × (skip_message_keys x sp until ≡ (err too_many_skipped, sp)))
        ⊎ ((until ≤ sp.recv_nonce + max_skip)
            × ((skip_message_keys x sp until).0 ≡ ok tt)
            × ((skip_message_keys x sp until).1.recv_nonce
                ≡ (if ltb sp.recv_nonce until then until else sp.recv_nonce)))
  unfolding skip_message_keys
  skip_message_keys_bounds sp until = elim (Bool-cases (ltb (sp.recv_nonce + max_skip) until)) [
    | inl far ↦ inl (ltb→lt _ _ far, rw far)
    | inr near ↦ inr (
        rw near (ground arith, refl, ground (arith, advance-recv_nonce (until - sp.recv_nonce) sp)))
  ]

  -- Decrypt has no such bound: a message of the current chain is opened after a gap of any size.
  open_next_unbounded :
      (sp : SecurePeer) (msg : SecureMessage)
      → sp.recv_nonce ≤ msg.nonce
      → (open_next x sp msg).1.recv_nonce ≡ msg.nonce + 1
  unfolding open_next open_chain
  open_next_unbounded sp msg ahead =
      ground (arith, advance-recv_nonce (msg.nonce - sp.recv_nonce) sp)

  is_new_epoch-other :
      (sp : SecurePeer) (msg : SecureMessage) (dh : Bytes)
      → sp.remote_dh_public ≡ some dh
      → msg.ratchet_key ≢ dh
      → is_new_epoch x sp msg ≡ true
  unfolding is_new_epoch
  is_new_epoch-other sp msg dh current other = ground (arith, beq_iff msg.ratchet_key dh)

  open_next-new_epoch :
      (sp : SecurePeer) (msg : SecureMessage)
      → open_next x (dh_ratchet x sp msg.ratchet_key) msg
        ≡ open_chain x (advance x msg.nonce (dh_ratchet x sp msg.ratchet_key)) msg
  unfolding open_next dh_ratchet
  open_next-new_epoch sp msg = ground arith

  -- An authenticated frame under another ratchet key than the current one, whose key is not kept,
  -- replaces the receiving epoch and root key before it is opened: whether it opens or not, the session is left in
  -- the epoch of that key, with its counter behind the frame's.
  pub decrypt_changes_epoch :
      (sp : SecurePeer) (payload dh : Bytes) (msg : SecureMessage)
      → authenticate x sp payload ≡ ok msg
      → sp.remote_dh_public ≡ some dh
      → msg.ratchet_key ≢ dh
      → lookup (skip_key msg.ratchet_key msg.nonce) sp.skipped_messages ≡ none
      → ((decrypt x sp payload).1.remote_dh_public ≡ some msg.ratchet_key)
        × ((decrypt x sp payload).1.root_key
            ≡ take 32 (x.hkdf (x.x25519 sp.dh_private msg.ratchet_key) sp.root_key root_info 64))
        × ((decrypt x sp payload).1.recv_nonce ≡ msg.nonce + 1)
  unfolding decrypt open_message is_new_epoch
  decrypt_changes_epoch sp payload dh msg real current other unknown =
      let sp' = dh_ratchet x sp msg.ratchet_key in
      let (remote, root) = advance-remote msg.nonce sp' in
      let follows : decrypt x sp payload ≡ open_chain x (advance x msg.nonce sp') msg =
        rw (real, decrypt, unknown, open_message, is_new_epoch-other sp msg dh current other)
          (open_next-new_epoch sp msg) in
      rw follows (
        unfold open_chain dh_ratchet in remote,
        unfold open_chain dh_ratchet in root,
        unfold open_chain dh_ratchet in ground (arith, advance-recv_nonce msg.nonce sp'),
      )
