-- ===== src/Engine/Update.antt =====
-- packages/node/src/engine/update.ts: a party sets the state of an app, and the other agrees to it.
use counterfactual.Prelude.{String, Option, none, some}
use counterfactual.Prelude.Int.{pos}
use counterfactual.Errors.{Result, ok, ◌>>=◌}
use counterfactual.External.{Ethers, AbiCoder}
use counterfactual.AppInstance.{AppInstance}
use counterfactual.Xkeys.{xkey_kth_address}
use counterfactual.StateChannel.{StateChannel, get_app_instance}
use counterfactual.StateChannel.Apps
use counterfactual.Store.{Store}
use counterfactual.Commitments.{Signing, Commitment, NetworkContext}
use counterfactual.Protocols.{UpdateParams, update_params, update, unassigned_seq_no, signed}
use counterfactual.Engine.{
  Process, attempt, assert_is_valid_signature, stored_channel, commit_to, op_sign, io_send,
  io_send_and_wait, save_state_channel, done,
}

module _ {V : Type 0} (e : Ethers) (s : Signing) (abi : AbiCoder V) (network : NetworkContext) where
  -- What both parties compute first: the channel after the protocol, its app, and the commitment.
  unfoldable pub update_transition :
      Store V → UpdateParams V → Result (StateChannel V × AppInstance V × Commitment)
  update_transition store p = do
    pre ← stored_channel p.multisig_address store
    post ← Apps.set_state e abi p.app_identity_hash p.new_state pre
    app ← get_app_instance post p.app_identity_hash
    commitment ← commit_to e abi network app
    ok (post, app, commitment)

  unfoldable pub update_initiating : Store V → String → UpdateParams V → Process V
  update_initiating store process_id p =
      attempt (update_transition store p) λ (post, app, commitment).
        op_sign commitment (some app.app_seq_no) λ initiator_signature.
          io_send_and_wait
            (record {
              protocol = update;
              process_id = process_id;
              params = some (update_params p);
              seq = pos 1;
              to_xpub = p.responder_xpub;
              custom_data = signed initiator_signature;
            })
            λ reply.
              attempt
                (assert_is_valid_signature e s (xkey_kth_address e p.responder_xpub app.app_seq_no)
                  commitment reply.custom_data.signature)
                λ _. save_state_channel post done

  -- `initiator_signature` is the one in the message that starts it.
  unfoldable pub update_responding : Store V → String → UpdateParams V → Option String → Process V
  update_responding store process_id p initiator_signature =
      attempt (update_transition store p) λ (post, app, commitment).
        attempt
          (assert_is_valid_signature e s (xkey_kth_address e p.initiator_xpub app.app_seq_no)
            commitment initiator_signature)
          λ _. op_sign commitment (some app.app_seq_no) λ responder_signature.
            save_state_channel post (
              io_send
                (record {
                  protocol = update;
                  process_id = process_id;
                  params = none;
                  seq = unassigned_seq_no;
                  to_xpub = p.initiator_xpub;
                  custom_data = signed responder_signature;
                })
                done)
