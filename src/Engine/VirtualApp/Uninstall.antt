-- ===== src/Engine/VirtualApp/Uninstall.antt =====
-- packages/node/src/engine/uninstall-virtual-app.ts: the generators of the three parties, each cut at
-- its waits. The messages are numbered as in the source.
use counterfactual.Prelude.{String, ◌==◌, true, Option, none, some, [], ◌∷◌}
use counterfactual.Prelude.Int.{pos}
use counterfactual.Errors.{Result}
use counterfactual.External.{Ethers, AbiCoder}
use counterfactual.AppInstance.{identity_hash}
use counterfactual.FreeBalance.{FreeBalanceStateJson}
use counterfactual.Store.{Store}
use counterfactual.Xkeys.{xkey_kth_address}
use counterfactual.Commitments.{NetworkContext, Signing, Commitment, get_signed_transaction}
use counterfactual.Protocols.{
  UninstallVirtualAppParams, Message, CustomData, uninstall_virtual_params, uninstall_virtual_app,
  unassigned_seq_no, no_data, signed,
}
use counterfactual.Engine.{
  Process, attempt, assert_is_valid_signature, free_balance_update, given, op_sign, io_send,
  io_send_and_wait, set_commitment, save_state_channel, done,
}
use counterfactual.Engine.Uninstall.{Outcomes}
use counterfactual.Engine.VirtualApp.Settling.{
  Settlement, SettledUser, SettledMediator, settle_user, settle_mediator, pass_through_commitment,
}

-- A message without parameters.
unfoldable pub settling_message : {V : Type 0} → String → String → CustomData → Message V
settling_message process_id to_xpub custom_data = record {
  process_id = process_id;
  protocol = uninstall_virtual_app;
  params = none;
  to_xpub = to_xpub;
  seq = unassigned_seq_no;
  custom_data = custom_data;
}

-- `assertIsValidSignature(xkeyKthAddress(xpub, 0), ...)`
unfoldable pub assert_key_signed :
    Ethers → Signing → String → Commitment → Option String → Result (Unit {0})
assert_key_signed e s xpub c signature =
    assert_is_valid_signature e s (xkey_kth_address e xpub 0) c signature

module _ {V : Type 0} (e : Ethers) (s : Signing) where
  -- On m8: `mine` is the initiator's signature on the free balance.
  unfoldable pub finish_settling_initiating :
      UninstallVirtualAppParams
      → SettledUser V
      → String
      → Commitment
      → String
      → Message V
      → Process V
  unfolding assert_key_signed
  finish_settling_initiating p t hash balance mine m8 =
      let theirs = m8.custom_data.signature in
      attempt (assert_key_signed e s p.intermediary_xpub balance theirs) λ _.
        set_commitment ("update" ∷ hash ∷ [])
          (get_signed_transaction e s balance (mine ∷ given theirs ∷ []))
          (save_state_channel t.mediated
            (save_state_channel t.wide (save_state_channel t.direct done)))

  -- On m7: `mine` is the intermediary's signature on the free balance of the channel with the
  -- responder, `mine_on_first` the one on that of the channel with the initiator.
  unfoldable pub finish_settling_mediating :
      String
      → UninstallVirtualAppParams
      → SettledMediator V
      → String
      → Commitment
      → String
      → String
      → Message V
      → Process V
  unfolding settling_message assert_key_signed
  finish_settling_mediating process_id p t hash balance mine mine_on_first m7 =
      let theirs = m7.custom_data.signature in
      attempt (assert_key_signed e s p.responder_xpub balance theirs) λ _.
        set_commitment ("update" ∷ hash ∷ [])
          (get_signed_transaction e s balance (given theirs ∷ mine ∷ []))
          (save_state_channel t.with_initiating (
            save_state_channel t.wide (
              save_state_channel t.with_responding (
                io_send (settling_message process_id p.initiator_xpub (signed mine_on_first))
                  done))))

  module _ (fb_abi : AbiCoder FreeBalanceStateJson) (network : NetworkContext) where
    -- On m4: `mine` is the initiator's signature on the pass-through app.
    unfoldable pub continue_settling_initiating :
        String
        → UninstallVirtualAppParams
        → SettledUser V
        → Commitment
        → String
        → Message V
        → Process V
    unfolding settling_message finish_settling_initiating assert_key_signed
    continue_settling_initiating process_id p t pass mine m4 =
        let responder = m4.custom_data.signature in
        let intermediary = m4.custom_data.signature2 in
        attempt (assert_key_signed e s p.responder_xpub pass responder) λ _.
          attempt (assert_key_signed e s p.intermediary_xpub pass intermediary) λ _.
            set_commitment ("update" ∷ identity_hash e t.pass_through ∷ [])
              (get_signed_transaction e s pass (mine ∷ given intermediary ∷ given responder ∷ []))
              (attempt (free_balance_update e fb_abi network t.mediated) λ (hash, balance).
                op_sign balance none λ mine_on_balance.
                  io_send_and_wait
                    (settling_message process_id p.intermediary_xpub (signed mine_on_balance))
                    (finish_settling_initiating p t hash balance mine_on_balance))

    -- On m5.
    unfoldable pub settle_channels :
        String → UninstallVirtualAppParams → SettledMediator V → Message V → Process V
    unfolding settling_message finish_settling_mediating assert_key_signed
    settle_channels process_id p t m5 =
        let initiator = m5.custom_data.signature in
        attempt (free_balance_update e fb_abi network t.with_initiating) λ (hash, balance).
          attempt (assert_key_signed e s p.initiator_xpub balance initiator) λ _.
            op_sign balance none λ mine.
              set_commitment ("update" ∷ hash ∷ [])
                (get_signed_transaction e s balance (given initiator ∷ mine ∷ []))
                (attempt (free_balance_update e fb_abi network t.with_responding)
                  λ (second_hash, second). op_sign second none λ mine_on_second.
                    io_send_and_wait
                      (settling_message process_id p.responder_xpub (signed mine_on_second))
                      (finish_settling_mediating process_id p t second_hash second mine_on_second
                        mine))

    -- On m3: `initiator` and `mine` are the signatures on the pass-through app.
    unfoldable pub continue_settling_mediating :
        String
        → UninstallVirtualAppParams
        → SettledMediator V
        → Commitment
        → Option String
        → String
        → Message V
        → Process V
    unfolding settling_message settle_channels assert_key_signed
    continue_settling_mediating process_id p t pass initiator mine m3 =
        let responder = m3.custom_data.signature in
        attempt (assert_key_signed e s p.responder_xpub pass responder) λ _.
          set_commitment ("update" ∷ identity_hash e t.pass_through ∷ [])
            (get_signed_transaction e s pass (given initiator ∷ mine ∷ given responder ∷ []))
            (io_send_and_wait
              (settling_message process_id p.initiator_xpub
                (record no_data { signature = responder; signature2 = some mine }))
              (settle_channels process_id p t))

    -- On m6.
    unfoldable pub finish_settling_responding :
        String → UninstallVirtualAppParams → SettledUser V → Message V → Process V
    unfolding settling_message assert_key_signed
    finish_settling_responding process_id p t m6 =
        let theirs = m6.custom_data.signature in
        attempt (free_balance_update e fb_abi network t.mediated) λ (hash, balance).
          attempt (assert_key_signed e s p.intermediary_xpub balance theirs) λ _.
            op_sign balance none λ mine.
              set_commitment ("update" ∷ hash ∷ [])
                (get_signed_transaction e s balance (given theirs ∷ mine ∷ []))
                (save_state_channel t.mediated (
                  save_state_channel t.wide (
                    save_state_channel t.direct (
                      io_send (settling_message process_id p.intermediary_xpub (signed mine))
                        done))))

module _ {V : Type 0} (e : Ethers) (s : Signing) (abi : AbiCoder V)
    (fb_abi : AbiCoder FreeBalanceStateJson) (outcomes : Outcomes V) (network : NetworkContext)
    (parts : Settlement V) where
  -- Sends m1.
  unfoldable pub settling_initiating : Store V → String → UninstallVirtualAppParams → Process V
  unfolding continue_settling_initiating
  settling_initiating store process_id p =
      attempt
        (settle_user e abi fb_abi outcomes network parts store p p.initiator_xpub p.responder_xpub
          λ app. true)
        λ t. attempt (pass_through_commitment e abi network t.pass_through) λ pass.
          op_sign pass none λ mine.
            io_send_and_wait
              (record {
                params = some (uninstall_virtual_params p);
                process_id = process_id;
                protocol = uninstall_virtual_app;
                seq = pos 1;
                to_xpub = p.intermediary_xpub;
                custom_data = signed mine;
              })
              (continue_settling_initiating e s fb_abi network process_id p t pass mine)

  -- `initiator` is the signature in m1.
  unfoldable pub settling_mediating :
      Store V → String → UninstallVirtualAppParams → Option String → Process V
  unfolding continue_settling_mediating assert_key_signed
  settling_mediating store process_id p initiator =
      attempt (settle_mediator e abi fb_abi outcomes network parts store p) λ t.
        attempt (pass_through_commitment e abi network t.pass_through) λ pass.
          attempt (assert_key_signed e s p.initiator_xpub pass initiator) λ _.
            op_sign pass none λ mine.
              io_send_and_wait
                (record {
                  params = some (uninstall_virtual_params p);
                  process_id = process_id;
                  protocol = uninstall_virtual_app;
                  seq = pos 2;
                  to_xpub = p.responder_xpub;
                  custom_data = record no_data { signature = initiator; signature2 = some mine };
                })
                (continue_settling_mediating e s fb_abi network process_id p t pass initiator mine)

  -- `m2` is what the message has that starts it: the signatures of the other two.
  unfoldable pub settling_responding :
      Store V → String → UninstallVirtualAppParams → CustomData → Process V
  unfolding settling_message finish_settling_responding assert_key_signed
  settling_responding store process_id p m2 =
      attempt
        (settle_user e abi fb_abi outcomes network parts store p p.responder_xpub p.initiator_xpub
          λ app. parts.outcome app == p.target_outcome)
        λ t. attempt (pass_through_commitment e abi network t.pass_through) λ pass.
          attempt (assert_key_signed e s p.initiator_xpub pass m2.signature) λ _.
            attempt (assert_key_signed e s p.intermediary_xpub pass m2.signature2) λ _.
              op_sign pass none λ mine.
                set_commitment ("update" ∷ identity_hash e t.pass_through ∷ [])
                  (get_signed_transaction e s pass
                    (mine ∷ given m2.signature ∷ given m2.signature2 ∷ []))
                  (io_send_and_wait (settling_message process_id p.intermediary_xpub (signed mine))
                    (finish_settling_responding e s fb_abi network process_id p t))
