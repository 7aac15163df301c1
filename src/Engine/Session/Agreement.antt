-- ===== src/Engine/Session/Agreement.antt =====
-- Two honest parties that agree on a channel end a protocol with the same next channel.
use counterfactual.Prelude.{ℕ, String, ◌≡◌, refl, some, [], ◌∷◌, eq_refl}
use counterfactual.Errors.{ok}
use counterfactual.External.{Ethers, AbiCoder}
use counterfactual.Xkeys.{xkey_kth_address}
use counterfactual.AppInstance.{AppInstance}
use counterfactual.StateChannel.{StateChannel}
use counterfactual.Store.{MinimalTransaction, Store, save_state_channel, set_commitment}
use counterfactual.Commitments.{
  Signing, SigningLaws, Commitment, hash_to_sign, get_signed_transaction, NetworkContext,
}
use counterfactual.Protocols.{UpdateParams, TakeActionParams, UninstallParams}
use counterfactual.Engine.{Contracts, assert_is_valid_signature, stored_channel}
use counterfactual.Engine.Runner.{advance}
use counterfactual.Engine.Update.{update_transition, update_initiating, update_responding}
use counterfactual.Engine.TakeAction.{
  take_action_transition, take_action_initiating, take_action_responding,
}
use counterfactual.Engine.Uninstall.{
  Outcomes, uninstall_transition, uninstall_initiating, uninstall_responding,
}
use counterfactual.Engine.Session.{session}
use counterfactual.Engine.Dispatch.{Context}

-- A party's own signature is a valid one of its address.
pub assert_is_valid_signature-sign_digest :
    (e : Ethers) (s : Signing)
    → SigningLaws e s
    → (xkey : String) (k : ℕ) (c : Commitment)
    → assert_is_valid_signature e s
        (xkey_kth_address e xkey k)
        c
        (some (s.sign_digest xkey k (hash_to_sign e s c)))
      ≡ ok tt
unfolding assert_is_valid_signature xkey_kth_address
assert_is_valid_signature-sign_digest e s laws xkey k c =
    rw
      (
        laws.recover_address-sign_digest xkey (hash_to_sign e s c) k,
        laws.get_address-compute_address xkey k,
        eq_refl (e.compute_address xkey k),
      )
      refl

-- The transaction of a commitment that two parties have signed, the signature of `self` first.
abbrev pub both_signed : Ethers → Signing → Commitment → String → String → MinimalTransaction
both_signed e s c self other =
    get_signed_transaction e s c
      (s.sign_digest self 0 (hash_to_sign e s c) ∷ s.sign_digest other 0 (hash_to_sign e s c) ∷ [])

-- What a party computes first depends on its store only by the channel.
module _ {V : Type 0} (e : Ethers) (s : Signing) (abi : AbiCoder V) (network : NetworkContext)
    (first second : Store V) where
  update_transition-same :
      (p : UpdateParams V)
      → stored_channel p.multisig_address second ≡ stored_channel p.multisig_address first
      → update_transition e s abi network second p ≡ update_transition e s abi network first p
  unfolding update_transition
  update_transition-same p same = rw same refl

module _ {V : Type 0} (e : Ethers) (s : Signing) (abi : AbiCoder V) (contracts : Contracts V)
    (network : NetworkContext) (first second : Store V) where
  take_action_transition-same :
      (p : TakeActionParams V)
      → stored_channel p.multisig_address second ≡ stored_channel p.multisig_address first
      → take_action_transition e s abi contracts network second p
        ≡ take_action_transition e s abi contracts network first p
  unfolding take_action_transition
  take_action_transition-same p same = rw same refl

module _ {V : Type 0} (ctx : Context V) (laws : SigningLaws ctx.ethers ctx.signing) where
  -- If both parties store the same channel and the new state can be set in it, the update
  -- protocol ends with both storing the channel with the new state, and changes nothing else in
  -- their stores.
  pub session-update :
      (theirs : Outcomes V) (first second : Store V) (process_id : String) (p : UpdateParams V)
      {post : StateChannel V} {app : AppInstance V} {c : Commitment}
      → stored_channel p.multisig_address second ≡ stored_channel p.multisig_address first
      → update_transition ctx.ethers ctx.signing ctx.abi ctx.network first p ≡ ok (post, app, c)
      → session ctx theirs p.initiator_xpub p.responder_xpub
          (update_initiating ctx.ethers ctx.signing ctx.abi ctx.network first process_id p)
          first
          second
        ≡ ok (save_state_channel ctx.ethers post first, save_state_channel ctx.ethers post second)
  unfolding session update_initiating update_responding advance
  session-update theirs first second process_id p {post} {app} {c} same computed =
      let valid = assert_is_valid_signature-sign_digest ctx.ethers ctx.signing laws in
      rw computed (
        rw
          (
            update_transition-same ctx.ethers ctx.signing ctx.abi ctx.network first second p same,
            computed,
          )
          (rw (valid p.initiator_xpub app.app_seq_no c)
            (rw (valid p.responder_xpub app.app_seq_no c) refl)))

  -- If both parties store the same channel, the action can be taken and its state set, the
  -- protocol ends with both storing the channel with the state that the contract computed, and
  -- changes nothing else in their stores.
  pub session-take_action :
      (theirs : Outcomes V) (first second : Store V) (process_id : String) (p : TakeActionParams V)
      {post : StateChannel V} {app : AppInstance V} {c : Commitment}
      → stored_channel p.multisig_address second ≡ stored_channel p.multisig_address first
      → take_action_transition ctx.ethers ctx.signing ctx.abi ctx.contracts ctx.network first p
        ≡ ok (post, app, c)
      → session ctx theirs p.initiator_xpub p.responder_xpub
          (take_action_initiating ctx.ethers ctx.signing ctx.abi ctx.contracts ctx.network first
            process_id p)
          first
          second
        ≡ ok (save_state_channel ctx.ethers post first, save_state_channel ctx.ethers post second)
  unfolding session take_action_initiating take_action_responding advance
  session-take_action theirs first second process_id p {post} {app} {c} same computed =
      let valid = assert_is_valid_signature-sign_digest ctx.ethers ctx.signing laws in
      rw computed (
        rw
          (
            take_action_transition-same ctx.ethers ctx.signing ctx.abi ctx.contracts ctx.network
                first second p same,
            computed,
          )
          (rw (valid p.initiator_xpub app.app_seq_no c)
            (rw (valid p.responder_xpub app.app_seq_no c) refl)))

  -- The transaction that a party files after an uninstallation: its own signature stands first.
  abbrev pub filed : UninstallParams → Commitment → String → String → Store V → Store V
  filed p c self other store =
      set_commitment ctx.ethers ("uninstall" ∷ p.app_identity_hash ∷ [])
        (both_signed ctx.ethers ctx.signing c self other) store

  -- If both parties, each with the outcome that the chain answers it, can uninstall the app
  -- from the channel that it stores and come to the same channel and the same commitment on its
  -- free balance, the protocol ends with both storing that channel and the transaction that
  -- both have signed.
  pub session-uninstall :
      (theirs : Outcomes V) (first second : Store V) (process_id : String) (p : UninstallParams)
      {post : StateChannel V} {c : Commitment}
      → uninstall_transition ctx.ethers ctx.signing ctx.fb_abi ctx.outcomes ctx.network first p
        ≡ ok (post, c)
      → uninstall_transition ctx.ethers ctx.signing ctx.fb_abi theirs ctx.network second p
        ≡ ok (post, c)
      → session ctx theirs p.initiator_xpub p.responder_xpub
          (uninstall_initiating ctx.ethers ctx.signing ctx.fb_abi ctx.outcomes ctx.network first
            process_id p)
          first
          second
        ≡ ok (
          save_state_channel ctx.ethers post (filed p c p.initiator_xpub p.responder_xpub first),
          save_state_channel ctx.ethers post (filed p c p.responder_xpub p.initiator_xpub second),
        )
  unfolding session uninstall_initiating uninstall_responding advance
  session-uninstall theirs first second process_id p {post} {c} computed computed' =
      let valid = assert_is_valid_signature-sign_digest ctx.ethers ctx.signing laws in
      rw (computed, computed', valid p.initiator_xpub 0 c, valid p.responder_xpub 0 c) refl
