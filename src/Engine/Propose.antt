-- ===== src/Engine/Propose.antt =====
-- packages/node/src/engine/propose.ts: a party proposes an app, and both sign its initial state.
use counterfactual.Prelude.{ℕ, ◌+◌, String, Option, none, some, [], ◌∷◌}
use counterfactual.Prelude.Int.{ℤ, pos}
use counterfactual.Errors.{Result, ok, ◌>>=◌, or_throw, ethers_error}
use counterfactual.External.{Ethers, AbiCoder}
use counterfactual.Dict.{lookup}
use counterfactual.AppInstance.{AppIdentity, app_identity_to_hash}
use counterfactual.FreeBalance.{eth_token_address}
use counterfactual.Xkeys.{xkey_kth_address}
use counterfactual.StateChannel.{
  StateChannel, AppInstanceProposal, text_or, num_proposed_apps, get_signing_keys_for,
}
use counterfactual.StateChannel.Apps.{add_proposal}
use counterfactual.StateChannel.Funds.{create_empty_channel}
use counterfactual.StateChannel.Json.{from_json}
use counterfactual.Store.{Store}
use counterfactual.Commitments.{set_state_commitment, Signing, Commitment, NetworkContext}
use counterfactual.Protocols.{
  ProposeInstallParams, propose_params, propose, unassigned_seq_no, signed,
}
use counterfactual.Engine.{
  Process, attempt, assert_is_valid_signature, op_sign, io_send, io_send_and_wait,
  save_state_channel, done,
}

module _ {V : Type 0} where
  -- The stored channel, or a new one between the two parties.
  unfoldable pub pre_protocol_channel : Store V → ProposeInstallParams V → Result (StateChannel V)
  pre_protocol_channel store p =
      elim (lookup p.multisig_address store.shared_data.state_channels_map) [
        | some json ↦ from_json json
        | none ↦ create_empty_channel p.multisig_address (p.initiator_xpub ∷ p.responder_xpub ∷ [])
      ]

module _ {V : Type 0} (e : Ethers) where
  -- The identity of the next app of the channel.
  unfoldable pub proposed_identity : StateChannel V → ProposeInstallParams V → ℕ → AppIdentity
  proposed_identity pre p timeout = record {
    app_definition = p.app_definition;
    channel_nonce = num_proposed_apps pre + 1;
    participants = get_signing_keys_for e pre (num_proposed_apps pre + 1);
    default_timeout = timeout;
  }

  -- The proposal with these deposits of the party that keeps it and of the other one.
  unfoldable pub proposal_with :
      StateChannel V
      → ProposeInstallParams V
      → ℕ
      → ℤ
      → ℤ
      → Option String
      → Option String
      → AppInstanceProposal V
  proposal_with pre p timeout first second first_token second_token = record {
    identity_hash = app_identity_to_hash e (proposed_identity pre p timeout);
    app_definition = p.app_definition;
    abi_encodings = p.abi_encodings;
    initiator_deposit = e.to_hex_string first;
    initiator_deposit_token_address = text_or first_token eth_token_address;
    responder_deposit = e.to_hex_string second;
    responder_deposit_token_address = text_or second_token eth_token_address;
    timeout = e.to_hex_string p.timeout;
    initial_state = p.initial_state;
    app_seq_no = num_proposed_apps pre + 1;
    proposed_by_identifier = p.initiator_xpub;
    proposed_to_identifier = p.responder_xpub;
    intermediary_identifier = none;
    outcome_type = p.outcome_type;
  }

  -- What the initiator keeps, and what the responder keeps: the deposits change places.
  unfoldable pub initiator_proposal :
      StateChannel V → ProposeInstallParams V → ℕ → AppInstanceProposal V
  initiator_proposal pre p timeout =
      proposal_with pre p timeout p.initiator_deposit p.responder_deposit
        p.initiator_deposit_token_address p.responder_deposit_token_address

  unfoldable pub responder_proposal :
      StateChannel V → ProposeInstallParams V → ℕ → AppInstanceProposal V
  responder_proposal pre p timeout =
      proposal_with pre p timeout p.responder_deposit p.initiator_deposit
        p.responder_deposit_token_address p.initiator_deposit_token_address

module _ {V : Type 0} (e : Ethers) (s : Signing) (abi : AbiCoder V) (network : NetworkContext) where
  -- The commitment to the initial state.
  unfoldable pub initial_commitment :
      StateChannel V → ProposeInstallParams V → ℕ → Result Commitment
  initial_commitment pre p timeout = do
    bytes ← or_throw (abi.encode p.abi_encodings.state_encoding p.initial_state) ethers_error
    ok (
        set_state_commitment (record {
          network_context = network;
          app_identity = proposed_identity e pre p timeout;
          hashed_app_state = e.keccak256 bytes;
          app_version_number = 0;
          timeout = timeout;
        }))

  unfoldable pub propose_initiating : Store V → String → ProposeInstallParams V → Process V
  propose_initiating store process_id p = attempt (pre_protocol_channel store p) λ pre.
      attempt (or_throw (e.to_number p.timeout) ethers_error) λ timeout.
        attempt (add_proposal (initiator_proposal e pre p timeout) pre) λ post.
          attempt (initial_commitment pre p timeout) λ commitment.
            op_sign commitment none λ initiator_signature.
              io_send_and_wait
                (record {
                  protocol = propose;
                  process_id = process_id;
                  params = some (propose_params p);
                  seq = pos 1;
                  to_xpub = p.responder_xpub;
                  custom_data = signed initiator_signature;
                })
                λ reply.
                  attempt
                    (assert_is_valid_signature e s (xkey_kth_address e p.responder_xpub 0)
                      commitment reply.custom_data.signature)
                    λ _. save_state_channel post done

  -- `initiator_signature` is the one in the message that starts it.
  unfoldable pub propose_responding :
      Store V → String → ProposeInstallParams V → Option String → Process V
  propose_responding store process_id p initiator_signature =
      attempt (pre_protocol_channel store p) λ pre.
        attempt (or_throw (e.to_number p.timeout) ethers_error) λ timeout.
          attempt (initial_commitment pre p timeout) λ commitment.
            attempt
              (assert_is_valid_signature e s (xkey_kth_address e p.initiator_xpub 0) commitment
                initiator_signature)
              λ _. attempt (add_proposal (responder_proposal e pre p timeout) pre) λ post.
                op_sign commitment none λ responder_signature. save_state_channel post (
                  io_send
                    (record {
                      protocol = propose;
                      process_id = process_id;
                      params = none;
                      seq = unassigned_seq_no;
                      to_xpub = p.initiator_xpub;
                      custom_data = signed responder_signature;
                    })
                    done)
