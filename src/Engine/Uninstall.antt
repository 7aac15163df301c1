-- ===== src/Engine/Uninstall.antt =====
-- packages/node/src/engine/uninstall.ts: an app is removed, and its outcome goes to the free balance.
use counterfactual.Prelude.{ℕ, String, Option, none, some, [], ◌∷◌}
use counterfactual.Prelude.Int.{pos}
use counterfactual.Errors.{Result, ok, ◌>>=◌}
use counterfactual.External.{Ethers, AbiCoder}
use counterfactual.AppInstance.{AppInstance}
use counterfactual.FreeBalance.{FreeBalanceStateJson}
use counterfactual.Outcome.{OutcomeDecoder, compute_token_indexed_free_balance_increments}
use counterfactual.Xkeys.{xkey_kth_address}
use counterfactual.StateChannel.{StateChannel, get_app_instance, free_balance}
use counterfactual.StateChannel.Apps.{uninstall_app}
use counterfactual.Store.{Store}
use counterfactual.Commitments.{Signing, Commitment, get_signed_transaction, NetworkContext}
use counterfactual.Protocols.{
  UninstallParams, uninstall_params, uninstall, unassigned_seq_no, signed,
}
use counterfactual.Engine.{
  given, Process, attempt, assert_is_valid_signature, stored_channel, commit_to, op_sign, io_send,
  io_send_and_wait, save_state_channel, set_commitment, done,
}

-- The outcomes of apps: their decoder, what the chain answers for an app, in order, `none` where
-- the call throws, and the token of a state with a `threshold`.
pub record Outcomes (V : Type 0) : Type 0 where
  pub decoder : OutcomeDecoder
  pub chain : AppInstance V → ℕ → Option String
  pub refund_token : V → Option String

module _ {V : Type 0} (e : Ethers) (s : Signing) (fb_abi : AbiCoder FreeBalanceStateJson)
    (outcomes : Outcomes V) where
  unfoldable pub compute_state_transition : Store V → UninstallParams → Result (StateChannel V)
  compute_state_transition store p = do
    sc ← stored_channel p.multisig_address store
    app ← get_app_instance sc p.app_identity_hash
    increments ←
        compute_token_indexed_free_balance_increments e outcomes.decoder outcomes.refund_token app
          (outcomes.chain app) ""
    uninstall_app e fb_abi p.app_identity_hash increments sc

  module _ (network : NetworkContext) where
    -- What both parties compute first: the channel after the protocol, and the commitment.
    unfoldable pub uninstall_transition :
        Store V → UninstallParams → Result (StateChannel V × Commitment)
    unfolding compute_state_transition
    uninstall_transition store p = do
      post ← compute_state_transition store p
      app ← free_balance post
      commitment ← commit_to e fb_abi network app
      ok (post, commitment)

    unfoldable pub uninstall_initiating : Store V → String → UninstallParams → Process V
    uninstall_initiating store process_id p =
        attempt (uninstall_transition store p) λ (post, commitment).
          op_sign commitment none λ signature.
            io_send_and_wait
              (record {
                protocol = uninstall;
                process_id = process_id;
                params = some (uninstall_params p);
                to_xpub = p.responder_xpub;
                custom_data = signed signature;
                seq = pos 1;
              })
              λ reply.
                attempt
                  (assert_is_valid_signature e s (xkey_kth_address e p.responder_xpub 0) commitment
                    reply.custom_data.signature)
                  λ _.
                    set_commitment ("uninstall" ∷ p.app_identity_hash ∷ [])
                      (get_signed_transaction e s commitment
                        (signature ∷ given reply.custom_data.signature ∷ []))
                      (save_state_channel post done)

    -- `initiator_signature` is the one in the message that starts it.
    unfoldable pub uninstall_responding :
        Store V → String → UninstallParams → Option String → Process V
    uninstall_responding store process_id p initiator_signature =
        attempt (uninstall_transition store p) λ (post, commitment).
          attempt
            (assert_is_valid_signature e s (xkey_kth_address e p.initiator_xpub 0) commitment
              initiator_signature)
            λ _. op_sign commitment none λ responder_signature.
              set_commitment ("uninstall" ∷ p.app_identity_hash ∷ [])
                (get_signed_transaction e s commitment
                  (responder_signature ∷ given initiator_signature ∷ []))
                (save_state_channel post (
                  io_send
                    (record {
                      protocol = uninstall;
                      process_id = process_id;
                      params = none;
                      to_xpub = p.initiator_xpub;
                      seq = unassigned_seq_no;
                      custom_data = signed responder_signature;
                    })
                    done))
