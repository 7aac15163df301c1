-- ===== src/Engine/VirtualApp/Install.antt =====
-- packages/node/src/engine/install-virtual-app.ts: the generators of the two users, each cut at its
-- waits. The messages are numbered as in the source.
use counterfactual.Prelude.{String, Option, none, some, [], ◌∷◌}
use counterfactual.Prelude.Int.{pos}
use counterfactual.External.{Ethers, AbiCoder}
use counterfactual.AppInstance.{identity_hash}
use counterfactual.FreeBalance.{FreeBalanceStateJson}
use counterfactual.Store.{Store}
use counterfactual.Commitments.{NetworkContext, Signing, Commitment, get_signed_transaction}
use counterfactual.Protocols.{
  InstallVirtualAppParams, Message, CustomData, install_virtual_params, install_virtual_app,
  unassigned_seq_no, no_data, signed_twice,
}
use counterfactual.Engine.{
  Process, attempt, assert_is_valid_signature, free_balance_update, given, op_sign, io_send,
  io_send_and_wait, set_commitment, save_state_channel, done,
}
use counterfactual.Engine.VirtualApp.{
  Mediation, commit_to_app, initiating_decrements, responding_decrements,
}
use counterfactual.Engine.VirtualApp.Terms.{UserTerms, user_terms}

-- A message without parameters.
unfoldable pub virtual_message : {V : Type 0} → String → String → CustomData → Message V
virtual_message process_id to_xpub custom_data = record {
  process_id = process_id;
  protocol = install_virtual_app;
  params = none;
  to_xpub = to_xpub;
  seq = unassigned_seq_no;
  custom_data = custom_data;
}

module _ {V : Type 0} (e : Ethers) (s : Signing) where
  -- On m8: the initiator's signatures on the first states of the pass-through app and of the virtual
  -- app are `mine` and `mine_on_app`.
  unfoldable pub finish_virtual_initiating :
      UserTerms V → Commitment → Commitment → String → String → Message V → Process V
  finish_virtual_initiating t pass app mine mine_on_app m8 =
      let intermediary = m8.custom_data.signature in
      let responder = m8.custom_data.signature2 in
      let responder_on_app = m8.custom_data.signature3 in
      attempt (assert_is_valid_signature e s t.intermediary pass intermediary) λ _.
        attempt (assert_is_valid_signature e s t.other pass responder) λ _.
          attempt (assert_is_valid_signature e s t.other app responder_on_app) λ _.
            set_commitment ("update" ∷ identity_hash e t.pass_through ∷ [])
              (get_signed_transaction e s pass (mine ∷ given responder ∷ given intermediary ∷ []))
              (set_commitment ("update" ∷ identity_hash e t.virtual_app ∷ [])
                (get_signed_transaction e s app (mine_on_app ∷ given responder_on_app ∷ []))
                (save_state_channel t.mediated
                  (save_state_channel t.direct (save_state_channel t.wide done))))

  module _ (abi : AbiCoder V) (fb_abi : AbiCoder FreeBalanceStateJson)
      (network : NetworkContext) where
    -- On m4: `mine` is the initiator's signature on the agreement.
    unfoldable pub continue_virtual_initiating :
        String → InstallVirtualAppParams V → UserTerms V → String → Message V → Process V
    unfolding virtual_message finish_virtual_initiating
    continue_virtual_initiating process_id p t mine m4 =
        let theirs = m4.custom_data.signature in
        let theirs_on_activation = m4.custom_data.signature2 in
        attempt (assert_is_valid_signature e s t.intermediary t.agreement theirs) λ _.
          set_commitment ("install-virtual-app" ∷ identity_hash e t.virtual_app ∷ [])
            (get_signed_transaction e s t.agreement (mine ∷ given theirs ∷ []))
            (attempt (free_balance_update e fb_abi network t.mediated) λ (hash, activation).
              attempt (assert_is_valid_signature e s t.intermediary activation theirs_on_activation)
                λ _. op_sign activation none λ mine_on_activation.
                  set_commitment ("update" ∷ hash ∷ [])
                    (get_signed_transaction e s activation
                      (mine_on_activation ∷ given theirs_on_activation ∷ []))
                    (attempt (commit_to_app e abi network t.virtual_app) λ app.
                      attempt (commit_to_app e abi network t.pass_through) λ pass.
                        op_sign pass none λ mine_on_pass. op_sign app none λ mine_on_app.
                          io_send_and_wait
                            (virtual_message process_id p.intermediary_xpub (record no_data {
                              signature = some mine_on_activation;
                              signature2 = some mine_on_pass;
                              signature3 = some mine_on_app;
                            }))
                            (finish_virtual_initiating t pass app mine_on_pass mine_on_app)))

  -- On m6: `mine` is the responder's signature on the free balance.
  module _ (abi : AbiCoder V) (network : NetworkContext) where
    unfoldable pub finish_virtual_responding :
        String
        → InstallVirtualAppParams V
        → UserTerms V
        → String
        → Commitment
        → String
        → Message V
        → Process V
    unfolding virtual_message
    finish_virtual_responding process_id p t hash activation mine m6 =
        let on_activation = m6.custom_data.signature in
        let intermediary = m6.custom_data.signature2 in
        let initiator = m6.custom_data.signature3 in
        let initiator_on_app = m6.custom_data.signature4 in
        attempt (assert_is_valid_signature e s t.intermediary activation on_activation) λ _.
          set_commitment ("update" ∷ hash ∷ [])
            (get_signed_transaction e s activation (given on_activation ∷ mine ∷ []))
            (attempt (commit_to_app e abi network t.virtual_app) λ app.
              attempt (commit_to_app e abi network t.pass_through) λ pass.
                attempt (assert_is_valid_signature e s t.intermediary pass intermediary) λ _.
                  attempt (assert_is_valid_signature e s t.other pass initiator) λ _.
                    attempt (assert_is_valid_signature e s t.other app initiator_on_app) λ _.
                      op_sign pass none λ mine_on_pass. op_sign app none λ mine_on_app.
                        set_commitment ("update" ∷ identity_hash e t.pass_through ∷ [])
                          (get_signed_transaction e s pass
                            (given initiator ∷ mine_on_pass ∷ given intermediary ∷ []))
                          (set_commitment ("update" ∷ identity_hash e t.virtual_app ∷ [])
                            (get_signed_transaction e s app
                              (given initiator_on_app ∷ mine_on_app ∷ []))
                            (io_send
                              (virtual_message process_id p.intermediary_xpub
                                (signed_twice mine_on_pass mine_on_app))
                              (save_state_channel t.mediated
                                (save_state_channel t.wide (save_state_channel t.direct done))))))

module _ {V : Type 0} (e : Ethers) (s : Signing) (abi : AbiCoder V)
    (fb_abi : AbiCoder FreeBalanceStateJson) (network : NetworkContext) (parts : Mediation V) where
  -- Sends m1, with the virtual app's hash and its outcome in the place of signatures.
  unfoldable pub virtual_initiating : Store V → String → InstallVirtualAppParams V → Process V
  unfolding continue_virtual_initiating
  virtual_initiating store process_id p =
      attempt
        (user_terms e fb_abi network parts store p p.initiator_xpub p.responder_xpub
          (initiating_decrements e p))
        λ t. op_sign t.agreement none λ mine.
          io_send_and_wait
            (record {
              params = some (install_virtual_params p);
              protocol = install_virtual_app;
              process_id = process_id;
              to_xpub = p.intermediary_xpub;
              seq = pos 1;
              custom_data = record no_data {
                signature = some mine;
                signature2 = some (identity_hash e t.virtual_app);
                signature3 = some (parts.outcome t.virtual_app);
              };
            })
            (continue_virtual_initiating e s abi fb_abi network process_id p t mine)

  -- `theirs` is the intermediary's signature in m2.
  unfoldable pub virtual_responding :
      Store V → String → InstallVirtualAppParams V → Option String → Process V
  unfolding virtual_message finish_virtual_responding
  virtual_responding store process_id p theirs =
      attempt
        (user_terms e fb_abi network parts store p p.responder_xpub p.initiator_xpub
          (responding_decrements e p))
        λ t. attempt (assert_is_valid_signature e s t.intermediary t.agreement theirs) λ _.
          op_sign t.agreement none λ mine.
            set_commitment ("install-virtual-app" ∷ identity_hash e t.virtual_app ∷ [])
              (get_signed_transaction e s t.agreement (mine ∷ given theirs ∷ []))
              (attempt (free_balance_update e fb_abi network t.mediated) λ (hash, activation).
                op_sign activation none λ mine_on_activation.
                  io_send_and_wait
                    (virtual_message process_id p.intermediary_xpub
                      (signed_twice mine mine_on_activation))
                    (finish_virtual_responding e s abi network process_id p t hash activation
                      mine_on_activation))
