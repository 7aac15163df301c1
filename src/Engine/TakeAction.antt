-- ===== src/Engine/TakeAction.antt =====
-- packages/node/src/engine/take-action.ts: a party takes an action in an app, whose contract computes
-- the next state; and `computeStateTransition` of models/app-instance.ts.
use counterfactual.Prelude.{String, Option, none, some}
use counterfactual.Prelude.Int.{pos}
use counterfactual.Errors.{Result, ok, ◌>>=◌, or_throw, ethers_error, contract_error}
use counterfactual.External.{Ethers, AbiCoder}
use counterfactual.AppInstance.{AppInstance, encoded_latest_state}
use counterfactual.Xkeys.{xkey_kth_address}
use counterfactual.StateChannel.{StateChannel, get_app_instance}
use counterfactual.StateChannel.Apps
use counterfactual.Store.{Store}
use counterfactual.Commitments.{Signing, Commitment, NetworkContext}
use counterfactual.Protocols.{
  TakeActionParams, take_action_params, take_action, unassigned_seq_no, signed,
}
use counterfactual.Engine.{
  Contracts, Process, attempt, assert_is_valid_signature, stored_channel, commit_to, op_sign,
  io_send, io_send_and_wait, save_state_channel, done,
}

module _ {V : Type 0} (e : Ethers) (s : Signing) (abi : AbiCoder V) (contracts : Contracts V) where
  encode_action : AppInstance V → V → Result String
  encode_action a action = do
    encoding ← or_throw a.app_interface.action_encoding ethers_error
    or_throw (abi.encode encoding action) ethers_error

  -- The answer is kept under the keys that the present state has.
  compute_state_transition : AppInstance V → V → Result V
  unfolding encode_action encoded_latest_state
  compute_state_transition a action = do
    state ← encoded_latest_state e abi a
    encoded ← encode_action a action
    answer ← or_throw (contracts.apply_action a.app_interface.addr state encoded) contract_error
    next ← or_throw (contracts.decode a.app_interface.state_encoding answer) ethers_error
    ok (contracts.keep_keys a.latest_state next)

  module _ (network : NetworkContext) where
    -- What both parties compute first: the channel after the protocol, its app, and the commitment.
    unfoldable pub take_action_transition :
        Store V → TakeActionParams V → Result (StateChannel V × AppInstance V × Commitment)
    unfolding compute_state_transition
    take_action_transition store p = do
      pre ← stored_channel p.multisig_address store
      before ← get_app_instance pre p.app_identity_hash
      new_state ← compute_state_transition before p.action
      post ← Apps.set_state e abi p.app_identity_hash new_state pre
      app ← get_app_instance post p.app_identity_hash
      commitment ← commit_to e abi network app
      ok (post, app, commitment)

    unfoldable pub take_action_initiating : Store V → String → TakeActionParams V → Process V
    take_action_initiating store process_id p =
        attempt (take_action_transition store p) λ (post, app, commitment).
          op_sign commitment (some app.app_seq_no) λ initiator_signature.
            io_send_and_wait
              (record {
                protocol = take_action;
                process_id = process_id;
                params = some (take_action_params p);
                seq = pos 1;
                to_xpub = p.responder_xpub;
                custom_data = signed initiator_signature;
              })
              λ reply.
                attempt
                  (assert_is_valid_signature e s
                    (xkey_kth_address e p.responder_xpub app.app_seq_no) commitment
                    reply.custom_data.signature)
                  λ _. save_state_channel post done

    -- `initiator_signature` is the one in the message that starts it.
    unfoldable pub take_action_responding :
        Store V → String → TakeActionParams V → Option String → Process V
    take_action_responding store process_id p initiator_signature =
        attempt (take_action_transition store p) λ (post, app, commitment).
          attempt
            (assert_is_valid_signature e s (xkey_kth_address e p.initiator_xpub app.app_seq_no)
              commitment initiator_signature)
            λ _. op_sign commitment (some app.app_seq_no) λ responder_signature.
              save_state_channel post (
                io_send
                  (record {
                    protocol = take_action;
                    process_id = process_id;
                    params = none;
                    seq = unassigned_seq_no;
                    to_xpub = p.initiator_xpub;
                    custom_data = signed responder_signature;
                  })
                  done)
