-- ===== src/Engine/VirtualApp/Mediator.antt =====
-- packages/node/src/engine/install-virtual-app.ts: the generator of the intermediary, cut at its
-- waits. The messages are numbered as in the source.
use counterfactual.Prelude.{String, Option, none, some, [], ◌∷◌}
use counterfactual.Prelude.Int.{pos}
use counterfactual.External.{Ethers, AbiCoder}
use counterfactual.AppInstance.{identity_hash}
use counterfactual.FreeBalance.{FreeBalanceStateJson}
use counterfactual.Store.{Store}
use counterfactual.Commitments.{NetworkContext, Signing, Commitment, get_signed_transaction}
use counterfactual.Protocols.{
  InstallVirtualAppParams, Message, CustomData, install_virtual_params, install_virtual_app,
  no_data, signed, signed_twice,
}
use counterfactual.Engine.{
  Process, attempt, assert_is_valid_signature, free_balance_update, given, op_sign, io_send,
  io_send_and_wait, set_commitment, save_state_channel, done,
}
use counterfactual.Engine.VirtualApp.{Mediation, commit_to_app, agreement_transaction}
use counterfactual.Engine.VirtualApp.Terms.{MediatorTerms, mediator_terms}
use counterfactual.Engine.VirtualApp.Install.{virtual_message}

-- What the intermediary has by the time of m3: the hash of the free balance in the channel with the
-- responder, the commitment to its next state, and the responder's signature on it.
pub record Activation : Type 0 where
  pub hash : String
  pub commitment : Commitment
  pub responder_signature : Option String

module _ {V : Type 0} (e : Ethers) (s : Signing) where
  -- On m7: `initiator` and `mine` are the signatures on the pass-through app.
  unfoldable pub finish_mediating :
      String
      → InstallVirtualAppParams V
      → MediatorTerms V
      → Commitment
      → Option String
      → String
      → Message V
      → Process V
  unfolding virtual_message
  finish_mediating process_id p t pass initiator mine m7 =
      let responder = m7.custom_data.signature in
      attempt (assert_is_valid_signature e s t.responder pass responder) λ _.
        set_commitment ("update" ∷ identity_hash e t.pass_through ∷ [])
          (get_signed_transaction e s pass (given initiator ∷ given responder ∷ mine ∷ []))
          (io_send
            (virtual_message process_id p.initiator_xpub (record no_data {
              signature = some mine;
              signature2 = responder;
              signature3 = m7.custom_data.signature2;
            }))
            (save_state_channel t.wide
              (save_state_channel t.with_responding (save_state_channel t.with_initiating done))))

  module _ (abi : AbiCoder V) (network : NetworkContext) where
    -- On m5: `activation` is the commitment to the free balance in the channel with the initiator, and
    -- `mine` the intermediary's signature on it. The first transaction that is filed has signatures on
    -- this commitment and the data of the other one.
    unfoldable pub activate_responding :
        String
        → InstallVirtualAppParams V
        → MediatorTerms V
        → Activation
        → Commitment
        → String
        → Message V
        → Process V
    unfolding virtual_message finish_mediating
    activate_responding process_id p t other activation mine m5 =
        let initiator = m5.custom_data.signature in
        let initiator_on_pass = m5.custom_data.signature2 in
        attempt (assert_is_valid_signature e s t.initiator activation initiator) λ _.
          set_commitment ("update" ∷ other.hash ∷ [])
            (get_signed_transaction e s other.commitment (given initiator ∷ mine ∷ []))
            (attempt (commit_to_app e abi network t.pass_through) λ pass.
              attempt (assert_is_valid_signature e s t.initiator pass initiator_on_pass) λ _.
                op_sign other.commitment none λ mine_on_other.
                  set_commitment ("update" ∷ other.hash ∷ [])
                    (get_signed_transaction e s other.commitment
                      (given other.responder_signature ∷ mine_on_other ∷ []))
                    (op_sign pass none λ mine_on_pass.
                      io_send_and_wait
                        (virtual_message process_id p.responder_xpub (record no_data {
                          signature = some mine_on_other;
                          signature2 = some mine_on_pass;
                          signature3 = initiator_on_pass;
                          signature4 = m5.custom_data.signature3;
                        }))
                        (finish_mediating process_id p t pass initiator_on_pass mine_on_pass)))

    -- On m3: `initiator` is the signature on the agreement with the initiator.
    unfoldable pub activate_initiating :
        AbiCoder FreeBalanceStateJson
        → String
        → InstallVirtualAppParams V
        → MediatorTerms V
        → Commitment
        → Option String
        → Message V
        → Process V
    unfolding virtual_message activate_responding
    activate_initiating fb_abi process_id p t to_responding initiator m3 =
        let responder = m3.custom_data.signature in
        let responder_on_activation = m3.custom_data.signature2 in
        attempt (assert_is_valid_signature e s t.responder to_responding responder) λ _.
          attempt (free_balance_update e fb_abi network t.with_responding) λ (hash, other).
            attempt (assert_is_valid_signature e s t.responder other responder_on_activation) λ _.
              attempt (free_balance_update e fb_abi network t.with_initiating) λ (_, activation).
                op_sign activation none λ mine_on_activation. op_sign t.agreement none λ mine.
                  set_commitment ("install-virtual-app" ∷ identity_hash e t.pass_through ∷ [])
                    (get_signed_transaction e s t.agreement (given initiator ∷ mine ∷ []))
                    (io_send_and_wait
                      (virtual_message process_id p.initiator_xpub
                        (signed_twice mine mine_on_activation))
                      (activate_responding process_id p t
                        (record {
                          hash = hash;
                          commitment = other;
                          responder_signature = responder_on_activation;
                        })
                        activation mine_on_activation))

module _ {V : Type 0} (e : Ethers) (s : Signing) (abi : AbiCoder V)
    (fb_abi : AbiCoder FreeBalanceStateJson) (network : NetworkContext) (parts : Mediation V) where
  -- `m1` is what the first message has: a signature, and the virtual app's hash and outcome.
  unfoldable pub virtual_mediating :
      Store V → String → InstallVirtualAppParams V → CustomData → Process V
  unfolding activate_initiating
  virtual_mediating store process_id p m1 =
      attempt
        (mediator_terms e fb_abi network parts store p (given m1.signature2) (given m1.signature3))
        λ t. attempt (assert_is_valid_signature e s t.initiator t.agreement m1.signature) λ _.
          attempt
            (agreement_transaction e network parts t.with_responding t.pass_through
              (given m1.signature2))
            λ to_responding. op_sign to_responding none λ mine.
              io_send_and_wait
                (record {
                  params = some (install_virtual_params p);
                  protocol = install_virtual_app;
                  process_id = process_id;
                  seq = pos 2;
                  to_xpub = p.responder_xpub;
                  custom_data = signed mine;
                })
                (activate_initiating e s abi network fb_abi process_id p t to_responding
                  m1.signature)
