-- ===== src/Engine/Setup.antt =====
-- packages/node/src/engine/setup.ts: two parties open a channel, and sign that its multisig pays out
-- what its free balance says.
use counterfactual.Prelude.{String, Option, none, some, [], ◌∷◌}
use counterfactual.Prelude.Int.{pos}
use counterfactual.Errors.{Result, ok, ◌>>=◌}
use counterfactual.External.{Ethers}
use counterfactual.AppInstance.{identity}
use counterfactual.Xkeys.{xkey_kth_address}
use counterfactual.StateChannel.{StateChannel, multisig_owners, free_balance}
use counterfactual.StateChannel.Funds.{setup_channel}
use counterfactual.Commitments.{
  NetworkContext, Signing, Commitment, multisig_commitment, setup_action,
}
use counterfactual.Protocols.{SetupParams, setup_params, setup, unassigned_seq_no, signed}
use counterfactual.Engine.{
  Process, attempt, assert_is_valid_signature, op_sign, io_send, io_send_and_wait,
  save_state_channel, done,
}

module _ {V : Type 0} (e : Ethers) (network : NetworkContext) where
  -- What both parties compute first: the new channel, and the commitment to its free balance.
  unfoldable pub setup_transition : SetupParams → Result (StateChannel V × Commitment)
  setup_transition p = do
    sc ←
        setup_channel e network.identity_app p.multisig_address
          (p.initiator_xpub ∷ p.responder_xpub ∷ []) none
    app ← free_balance sc
    ok (
      sc,
      multisig_commitment (record {
        multisig = sc.multisig_address;
        multisig_owners = multisig_owners e sc;
        action = setup_action network (identity app);
      }),
    )

  module _ (s : Signing) where
    unfoldable pub setup_initiating : String → SetupParams → Process V
    setup_initiating process_id p = attempt (setup_transition p) λ (sc, commitment).
        op_sign commitment none λ initiator_signature.
          io_send_and_wait
            (record {
              protocol = setup;
              process_id = process_id;
              params = some (setup_params p);
              seq = pos 1;
              to_xpub = p.responder_xpub;
              custom_data = signed initiator_signature;
            })
            λ reply.
              attempt
                (assert_is_valid_signature e s (xkey_kth_address e p.responder_xpub 0) commitment
                  reply.custom_data.signature)
                λ _. save_state_channel sc done

    -- `initiator_signature` is the one in the message that starts it.
    unfoldable pub setup_responding : String → SetupParams → Option String → Process V
    setup_responding process_id p initiator_signature =
        attempt (setup_transition p) λ (sc, commitment).
          attempt
            (assert_is_valid_signature e s (xkey_kth_address e p.initiator_xpub 0) commitment
              initiator_signature)
            λ _. op_sign commitment none λ responder_signature. save_state_channel sc (
              io_send
                (record {
                  protocol = setup;
                  process_id = process_id;
                  params = none;
                  to_xpub = p.initiator_xpub;
                  seq = unassigned_seq_no;
                  custom_data = signed responder_signature;
                })
                done)
