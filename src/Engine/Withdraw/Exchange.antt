-- ===== src/Engine/Withdraw/Exchange.antt =====
-- packages/node/src/engine/withdraw.ts: the two generators, which exchange signatures on the refund
-- app, on the withdrawal and on the removal of the refund app. A generator is cut at its waits.
use counterfactual.Prelude.{String, true, Option, none, some, [], ◌∷◌}
use counterfactual.Prelude.Int.{ℤ, pos}
use counterfactual.External.{Ethers, AbiCoder}
use counterfactual.AppInstance.{identity_hash}
use counterfactual.AppInstance.Interpreter.{InterpreterCoder}
use counterfactual.FreeBalance.{FreeBalanceStateJson}
use counterfactual.Store.{Store}
use counterfactual.Commitments.{NetworkContext, Signing, Commitment, get_signed_transaction}
use counterfactual.StateChannel.{StateChannel}
use counterfactual.Protocols.{
  WithdrawParams, Message, withdraw_params, withdraw, unassigned_seq_no, CustomData, no_data,
  signed, signed_twice,
}
use counterfactual.Engine.{
  Process, attempt, assert_is_valid_signature, free_balance_update, given, op_sign, io_send,
  io_send_and_wait, set_commitment, store_withdrawal_commitment, save_state_channel, done,
}
use counterfactual.Engine.Withdraw.{
  Refund, refund_transition, refund_removal, construct_withdrawal_commitment,
}

-- A message of the protocol after the first one.
unfoldable pub withdraw_message : {V : Type 0} → String → String → CustomData → Message V
withdraw_message process_id to_xpub custom_data = record {
  process_id = process_id;
  protocol = withdraw;
  params = none;
  to_xpub = to_xpub;
  seq = unassigned_seq_no;
  custom_data = custom_data;
}

module _ {V : Type 0} (e : Ethers) (s : Signing) (fb_abi : AbiCoder FreeBalanceStateJson)
    (network : NetworkContext) where
  -- Once the responder has signed the withdrawal: `mine` is the initiator's signature on it, the
  -- reply has the responder's, and that on the removal of the refund app.
  unfoldable pub finish_initiating :
      String → WithdrawParams → Refund V → Commitment → String → Message V → Process V
  unfolding withdraw_message
  finish_initiating process_id p r withdrawal mine reply =
      let theirs = reply.custom_data.signature in
      let theirs_on_removal = reply.custom_data.signature2 in
      attempt (assert_is_valid_signature e s r.counterparty withdrawal theirs) λ _.
        attempt (refund_removal e fb_abi network r.channel r.app) λ (post, hash, removal).
          attempt (assert_is_valid_signature e s r.counterparty removal theirs_on_removal) λ _.
            save_state_channel post (
              op_sign removal none λ mine_on_removal.
                io_send_and_wait
                  (withdraw_message process_id p.responder_xpub (signed mine_on_removal))
                  λ _.
                    store_withdrawal_commitment p.multisig_address
                      (get_signed_transaction e s withdrawal (mine ∷ given theirs ∷ []))
                      (set_commitment ("update" ∷ hash ∷ [])
                        (get_signed_transaction e s removal
                          (mine_on_removal ∷ given theirs_on_removal ∷ []))
                        done))

  -- Once the responder has signed the refund app: `mine` is the initiator's signature on its
  -- conditional transaction.
  unfoldable pub continue_initiating :
      String → WithdrawParams → Refund V → String → Message V → Process V
  unfolding finish_initiating withdraw_message
  continue_initiating process_id p r mine reply =
      let theirs = reply.custom_data.signature in
      let theirs_on_update = reply.custom_data.signature2 in
      let withdrawal = construct_withdrawal_commitment e r.channel p in
      attempt (assert_is_valid_signature e s r.counterparty r.conditional theirs) λ _.
        set_commitment ("install" ∷ identity_hash e r.app ∷ [])
          (get_signed_transaction e s r.conditional (mine ∷ given theirs ∷ []))
          (attempt (free_balance_update e fb_abi network r.channel) λ (hash, update).
            attempt (assert_is_valid_signature e s r.counterparty update theirs_on_update) λ _.
              op_sign update none λ mine_on_update.
                set_commitment ("update" ∷ hash ∷ [])
                  (get_signed_transaction e s update (mine_on_update ∷ given theirs_on_update ∷ []))
                  (op_sign withdrawal none λ mine_on_withdrawal.
                    io_send_and_wait
                      (withdraw_message process_id p.responder_xpub
                        (signed_twice mine_on_update mine_on_withdrawal))
                      (finish_initiating process_id p r withdrawal mine_on_withdrawal)))

  -- Once the initiator has signed the removal of the refund app.
  unfoldable pub finish_responding :
      String
      → WithdrawParams
      → Refund V
      → StateChannel V
      → String
      → Commitment
      → String
      → Message V
      → Process V
  unfolding withdraw_message
  finish_responding process_id p r post hash removal mine reply =
      let theirs = reply.custom_data.signature in
      attempt (assert_is_valid_signature e s r.counterparty removal theirs) λ _.
        save_state_channel post (
          set_commitment ("update" ∷ hash ∷ [])
            (get_signed_transaction e s removal (mine ∷ given theirs ∷ []))
            (io_send
              (withdraw_message process_id p.initiator_xpub
                (record no_data { data_persisted = some true }))
              done))

  -- Once the initiator has signed the free balance and the withdrawal: `mine` is the responder's
  -- signature on the free balance.
  unfoldable pub continue_responding :
      String → WithdrawParams → Refund V → String → Commitment → String → Message V → Process V
  unfolding finish_responding withdraw_message
  continue_responding process_id p r hash update mine reply =
      let theirs = reply.custom_data.signature in
      let theirs_on_withdrawal = reply.custom_data.signature2 in
      let withdrawal = construct_withdrawal_commitment e r.channel p in
      attempt (assert_is_valid_signature e s r.counterparty update theirs) λ _.
        set_commitment ("update" ∷ hash ∷ [])
          (get_signed_transaction e s update (mine ∷ given theirs ∷ []))
          (attempt (assert_is_valid_signature e s r.counterparty withdrawal theirs_on_withdrawal)
            λ _. op_sign withdrawal none λ mine_on_withdrawal.
              store_withdrawal_commitment p.multisig_address
                (get_signed_transaction e s withdrawal
                  (mine_on_withdrawal ∷ given theirs_on_withdrawal ∷ []))
                (attempt (refund_removal e fb_abi network r.channel r.app)
                  λ (post, removal_hash, removal). op_sign removal none λ mine_on_removal.
                    io_send_and_wait
                      (withdraw_message process_id p.initiator_xpub
                        (signed_twice mine_on_withdrawal mine_on_removal))
                      (finish_responding process_id p r post removal_hash removal mine_on_removal)))

module _ {V : Type 0} (e : Ethers) (s : Signing) (fb_abi : AbiCoder FreeBalanceStateJson)
    (coder : InterpreterCoder) (max_uint256 : String) (network : NetworkContext)
    (refund_state : String → String → ℤ → V) where
  unfoldable pub withdraw_initiating : Store V → String → WithdrawParams → Process V
  unfolding continue_initiating
  withdraw_initiating store process_id p =
      attempt
        (refund_transition e fb_abi coder max_uint256 network refund_state store p p.responder_xpub)
        λ r. op_sign r.conditional none λ mine.
          io_send_and_wait
            (record {
              process_id = process_id;
              params = some (withdraw_params p);
              protocol = withdraw;
              to_xpub = p.responder_xpub;
              custom_data = signed mine;
              seq = pos 1;
            })
            (continue_initiating e s fb_abi network process_id p r mine)

  -- `theirs` is the signature in the message that starts it.
  unfoldable pub withdraw_responding : Store V → String → WithdrawParams → Option String → Process V
  unfolding continue_responding withdraw_message
  withdraw_responding store process_id p theirs =
      attempt
        (refund_transition e fb_abi coder max_uint256 network refund_state store p p.initiator_xpub)
        λ r. attempt (assert_is_valid_signature e s r.counterparty r.conditional theirs) λ _.
          op_sign r.conditional none λ mine.
            set_commitment ("install" ∷ identity_hash e r.app ∷ [])
              (get_signed_transaction e s r.conditional (mine ∷ given theirs ∷ []))
              (attempt (free_balance_update e fb_abi network r.channel) λ (hash, update).
                op_sign update none λ mine_on_update.
                  io_send_and_wait
                    (withdraw_message process_id p.initiator_xpub
                      (signed_twice mine mine_on_update))
                    (continue_responding e s fb_abi network process_id p r hash update
                      mine_on_update))
