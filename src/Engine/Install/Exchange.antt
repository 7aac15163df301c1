-- ===== src/Engine/Install/Exchange.antt =====
-- packages/node/src/engine/install.ts: the conditional transaction that pays out the new app, and the
-- two generators, which exchange signatures on it and on the free balance that the app is paid from.
use counterfactual.Prelude.{String, true, Option, none, some, [], ◌∷◌}
use counterfactual.Prelude.Int.{pos}
use counterfactual.Errors.{Result, ok, ◌>>=◌}
use counterfactual.External.{Ethers, AbiCoder}
use counterfactual.AppInstance.{
  AppInstance, OutcomeType, identity_hash, two_party_fixed_outcome,
  multi_asset_multi_party_coin_transfer, single_asset_two_party_coin_transfer,
}
use counterfactual.AppInstance.Interpreter.{InterpreterCoder, encoded_interpreter_params}
use counterfactual.FreeBalance.{FreeBalanceStateJson}
use counterfactual.StateChannel.{
  StateChannel, multisig_owners, free_balance, most_recently_installed_app_instance,
  get_free_balance_addr_of,
}
use counterfactual.Store.{Store}
use counterfactual.Commitments.{
  NetworkContext, Signing, Commitment, multisig_commitment, conditional_action,
  get_signed_transaction,
}
use counterfactual.Protocols.{
  InstallParams, install_params, install, unassigned_seq_no, no_data, signed, signed_twice,
}
use counterfactual.Engine.{
  Process, attempt, assert_is_valid_signature, stored_channel, free_balance_update, given, op_sign,
  io_send, io_send_and_wait, set_commitment, save_state_channel, done,
}
use counterfactual.Engine.Install.{compute_state_channel_transition}

unfoldable pub get_interpreter_address_from_outcome_type : OutcomeType → NetworkContext → String
get_interpreter_address_from_outcome_type outcome_type network = elim outcome_type [
  | multi_asset_multi_party_coin_transfer ↦
      network.multi_asset_multi_party_coin_transfer_interpreter
  | single_asset_two_party_coin_transfer ↦ network.single_asset_two_party_coin_transfer_interpreter
  | two_party_fixed_outcome ↦ network.two_party_fixed_outcome_interpreter
]

module _ {V : Type 0} (e : Ethers) where
  -- A signature of the party that an account of the free balance belongs to.
  unfoldable pub assert_signed_by :
      Signing → StateChannel V → String → Commitment → Option String → Result (Unit {0})
  assert_signed_by s sc xpub c signature = do
    address ← get_free_balance_addr_of e sc xpub
    assert_is_valid_signature e s address c signature

  module _ (coder : InterpreterCoder) (network : NetworkContext) where
    unfoldable pub construct_conditional_transaction_data : StateChannel V → Result Commitment
    construct_conditional_transaction_data sc = do
      app ← most_recently_installed_app_instance sc
      fb ← free_balance sc
      params ← encoded_interpreter_params coder app
      ok (
          multisig_commitment (record {
            multisig = sc.multisig_address;
            multisig_owners = multisig_owners e sc;
            action =
                conditional_action network (identity_hash e app) (identity_hash e fb)
                  (get_interpreter_address_from_outcome_type app.outcome_type network) params;
          }))

module _ {V : Type 0} (e : Ethers) (s : Signing) (fb_abi : AbiCoder FreeBalanceStateJson)
    (coder : InterpreterCoder) (max_uint256 : String) (network : NetworkContext) where
  -- What both parties compute first: the channels before and after, the app that is taken for the
  -- new one, and the conditional transaction.
  unfoldable pub install_transition :
      Store V
      → InstallParams V
      → Result (StateChannel V × StateChannel V × AppInstance V × Commitment)
  install_transition store p = do
    pre ← stored_channel p.multisig_address store
    post ← compute_state_channel_transition e fb_abi max_uint256 pre p
    app ← most_recently_installed_app_instance post
    conditional ← construct_conditional_transaction_data e coder network post
    ok (pre, post, app, conditional)

  unfoldable pub install_initiating : Store V → String → InstallParams V → Process V
  install_initiating store process_id p =
      attempt (install_transition store p) λ (pre, post, app, conditional).
        op_sign conditional none λ mine.
          io_send_and_wait
            (record {
              process_id = process_id;
              params = some (install_params p);
              protocol = install;
              to_xpub = p.responder_xpub;
              custom_data = signed mine;
              seq = pos 1;
            })
            λ reply.
              attempt
                (assert_signed_by e s pre p.responder_xpub conditional reply.custom_data.signature)
                λ _.
                  set_commitment ("install" ∷ identity_hash e app ∷ [])
                    (get_signed_transaction e s conditional
                      (mine ∷ given reply.custom_data.signature ∷ []))
                    (attempt (free_balance_update e fb_abi network post) λ (hash, update).
                      attempt
                        (assert_signed_by e s pre p.responder_xpub update
                          reply.custom_data.signature2)
                        λ _. op_sign update none λ mine_on_update.
                          set_commitment ("update" ∷ hash ∷ [])
                            (get_signed_transaction e s update
                              (mine_on_update ∷ given reply.custom_data.signature2 ∷ []))
                            (save_state_channel post (
                              io_send_and_wait
                                (record {
                                  process_id = process_id;
                                  params = none;
                                  protocol = install;
                                  to_xpub = p.responder_xpub;
                                  custom_data = signed mine_on_update;
                                  seq = unassigned_seq_no;
                                })
                                λ _. done)))

  -- `theirs` is the signature in the message that starts it.
  unfoldable pub install_responding : Store V → String → InstallParams V → Option String → Process V
  install_responding store process_id p theirs =
      attempt (install_transition store p) λ (pre, post, app, conditional).
        attempt (assert_signed_by e s pre p.initiator_xpub conditional theirs) λ _.
          op_sign conditional none λ mine.
            set_commitment ("install" ∷ identity_hash e app ∷ [])
              (get_signed_transaction e s conditional (mine ∷ given theirs ∷ []))
              (attempt (free_balance_update e fb_abi network post) λ (hash, update).
                op_sign update none λ mine_on_update.
                  io_send_and_wait
                    (record {
                      process_id = process_id;
                      params = none;
                      protocol = install;
                      to_xpub = p.initiator_xpub;
                      custom_data = signed_twice mine mine_on_update;
                      seq = unassigned_seq_no;
                    })
                    λ reply.
                      attempt
                        (assert_signed_by e s pre p.initiator_xpub update
                          reply.custom_data.signature)
                        λ _.
                          set_commitment ("update" ∷ hash ∷ [])
                            (get_signed_transaction e s update
                              (mine_on_update ∷ given reply.custom_data.signature ∷ []))
                            (save_state_channel post (
                              io_send
                                (record {
                                  process_id = process_id;
                                  params = none;
                                  protocol = install;
                                  to_xpub = p.initiator_xpub;
                                  custom_data = record no_data { data_persisted = some true };
                                  seq = unassigned_seq_no;
                                })
                                done)))
