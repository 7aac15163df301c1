-- ===== src/Installation.antt =====
-- packages/node/src/methods/app-instance/install/operation.ts: a proposal becomes the parameters with
-- which its receiver starts the install protocol.
use Prim.Native.Char.{code}
use counterfactual.Prelude.{
  ℕ, String, ◌≡◌, refl, false, true, some, Bool, not, leb, eqb, ◌&&◌, ◌||◌,
}
use counterfactual.Prelude.Int.{ℤ}
use counterfactual.Errors.{
  Result, ok, ◌>>=◌, or_throw, ◌>>◌, guard, ethers_error, no_app_instance_id_to_install,
}
use counterfactual.External.{Ethers, EthersLaws}
use counterfactual.AppInstance.{identity_hash, identity, app_identity_to_hash}
use counterfactual.StateChannel.{StateChannel, AppInstanceProposal, get_signing_keys_for}
use counterfactual.StateChannel.Apps.{remove_proposal}
use counterfactual.Store.{
  Store, get_app_instance_proposal, get_channel_from_app_instance_id, save_state_channel,
}
use counterfactual.Protocols.{InstallParams, ProposeInstallParams}
use counterfactual.Engine.Propose.{responder_proposal, proposal_with, proposed_identity}
use counterfactual.Engine.Install.{app_to_be_installed, InterpreterParams}
use counterfactual.FreeBalance.{FreeBalanceStateJson}
use counterfactual.External.{AbiCoder}

-- What `trim` takes off.
abbrev is_white_space : ℕ → Bool
is_white_space n =
    (leb 9 n && leb n 13)
    || eqb n 32
    || eqb n 160
    || eqb n 5760
    || (leb 8192 n && leb n 8202)
    || eqb n 8232
    || eqb n 8233
    || eqb n 8239
    || eqb n 8287
    || eqb n 12288
    || eqb n 65279

-- `!id || !id.trim()`
unfoldable pub is_blank : String → Bool
is_blank String.[] = true
is_blank (String.◌∷◌ c s) = is_white_space (code c) && is_blank s

module _ {V : Type 0} (e : Ethers) where
  -- The parameters with these decrements and this timeout.
  unfoldable pub params_with : StateChannel V → AppInstanceProposal V → ℤ → ℤ → ℕ → InstallParams V
  params_with sc proposal initiator_decrement responder_decrement timeout = record {
    initiator_xpub = proposal.proposed_to_identifier;
    responder_xpub = proposal.proposed_by_identifier;
    initiator_balance_decrement = initiator_decrement;
    responder_balance_decrement = responder_decrement;
    multisig_address = sc.multisig_address;
    participants = get_signing_keys_for e sc proposal.app_seq_no;
    initial_state = proposal.initial_state;
    app_interface = record {
      addr = proposal.app_definition;
      state_encoding = proposal.abi_encodings.state_encoding;
      action_encoding = proposal.abi_encodings.action_encoding;
    };
    app_seq_no = proposal.app_seq_no;
    default_timeout = timeout;
    outcome_type = proposal.outcome_type;
    initiator_deposit_token_address = proposal.initiator_deposit_token_address;
    responder_deposit_token_address = proposal.responder_deposit_token_address;
    disable_limit = false;
  }

  unfoldable pub installation_params :
      StateChannel V → AppInstanceProposal V → Result (InstallParams V)
  unfolding params_with
  installation_params sc proposal = do
    initiator_decrement ← or_throw (e.big_numberify proposal.initiator_deposit) ethers_error
    responder_decrement ← or_throw (e.big_numberify proposal.responder_deposit) ethers_error
    timeout ← or_throw (e.big_numberify proposal.timeout) ethers_error
    default_timeout ← or_throw (e.to_number timeout) ethers_error
    ok (params_with sc proposal initiator_decrement responder_decrement default_timeout)

  -- `run` runs the install protocol with the other party, to its end.
  unfoldable pub install_proposed :
      (InstallParams V → Store V → Result (Store V))
      → String
      → Store V
      → Result (AppInstanceProposal V × Store V)
  unfolding installation_params is_blank
  install_proposed run id store = do
    guard (not (is_blank id)) no_app_instance_id_to_install
    proposal ← get_app_instance_proposal e id store
    sc ← get_channel_from_app_instance_id e id store
    params ← installation_params sc proposal
    ran ← run params store
    after ← get_channel_from_app_instance_id e id ran
    without ← remove_proposal id after
    ok (proposal, save_state_channel e without ran)

  -- The party to which an app was proposed, in a channel of the same users, starts the installation
  -- with itself as the initiator. For a timeout that is a number of the language, each party is
  -- charged the deposit that the proposal names for it, and whatever the interpreter parameters, the
  -- app that the install protocol makes has the identity under which it was proposed.
  pub installation_params-responder_proposal :
      (laws : EthersLaws e) (fb_abi : AbiCoder FreeBalanceStateJson) (max_uint256 : String)
      (pre sc : StateChannel V) (p : ProposeInstallParams V) (timeout : ℕ)
      → e.to_number p.timeout ≡ some timeout
      → sc.user_neutered_extended_keys ≡ pre.user_neutered_extended_keys
      → (params : InstallParams V) × (installation_params sc (responder_proposal e pre p timeout)
          ≡ ok params)
        × (params.initiator_xpub ≡ p.responder_xpub)
        × (params.responder_xpub ≡ p.initiator_xpub)
        × (params.initiator_balance_decrement ≡ p.responder_deposit)
        × (params.responder_balance_decrement ≡ p.initiator_deposit)
        × ((interpreter : InterpreterParams)
            → identity_hash e (app_to_be_installed e fb_abi max_uint256 params interpreter)
              ≡ (responder_proposal e pre p timeout).identity_hash)
  unfolding installation_params params_with responder_proposal proposal_with proposed_identity
      identity_hash identity app_identity_to_hash app_to_be_installed get_signing_keys_for
  installation_params-responder_proposal laws fb_abi max_uint256 pre sc p timeout numbered users = (
    params_with sc (responder_proposal e pre p timeout) p.responder_deposit p.initiator_deposit
        timeout,
    rw
        (
          laws.big_numberify-to_hex_string p.responder_deposit,
          laws.big_numberify-to_hex_string p.initiator_deposit,
          laws.big_numberify-to_hex_string p.timeout,
          numbered,
        )
        refl,
    refl,
    refl,
    refl,
    refl,
    λ interpreter. rw (users) refl,
  )
