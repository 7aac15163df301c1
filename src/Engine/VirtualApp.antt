-- ===== src/Engine/VirtualApp.antt =====
-- packages/node/src/engine/install-virtual-app.ts: what the parties compute before they sign. Two
-- users play a virtual app over an intermediary, who has a channel with each of them. Each of these
-- channels keeps an agreement, which pays out what a third app passes through: the outcome of the
-- virtual app, with a time lock.
pub mod Terms
pub mod Install
pub mod Mediator
pub mod Settling
pub mod Payouts
pub mod Uninstall
use counterfactual.Prelude.{ℕ, String, true, Option, none, some, List, [], ◌∷◌}
use counterfactual.Prelude.Int.{ℤ, ◌+ℤ◌}
use counterfactual.Errors.{Result, ok, err, ◌>>=◌, or_throw, ethers_error, unsupported_outcome}
use counterfactual.External.{Ethers, AbiCoder}
use counterfactual.Dict.{lookup, insert}
use counterfactual.AppInstance.{
  AppInstance, OutcomeType, two_party_fixed_outcome, multi_asset_multi_party_coin_transfer,
  single_asset_two_party_coin_transfer, identity, identity_hash, hash_of_latest_state,
}
use counterfactual.FreeBalance.{FreeBalanceStateJson}
use counterfactual.FreeBalanceApp.{CoinTransferMap}
use counterfactual.Xkeys.{xkey_kth_address, sort_addresses}
use counterfactual.StateChannel.{
  StateChannel, Agreement, num_proposed_apps, multisig_owners, free_balance,
  get_agreement_from_virtual_app, get_multisig_owner_addr_of,
}
use counterfactual.StateChannel.Apps.{add_app_instance, add_agreement}
use counterfactual.StateChannel.Funds.{create_empty_channel}
use counterfactual.StateChannel.Json.{StateChannelJson, from_json}
use counterfactual.Store.{Store}
use counterfactual.Create2.{Create2, get_create2_multisig_address}
use counterfactual.Commitments.{
  NetworkContext, Commitment, set_state_commitment, multisig_commitment, conditional_action,
}
use counterfactual.Protocols.{InstallVirtualAppParams}
use counterfactual.Engine.{stored_channel}
use counterfactual.Engine.Install.{InterpreterParams, no_params}

-- What the protocol uses of libraries and contracts besides the usual.
pub record Mediation (V : Type 0) : Type 0 where
  pub create2 : Create2
  -- `encodeSingleAssetTwoPartyIntermediaryAgreementParams`
  pub encode_agreement : Agreement → Option String
  -- the object of a registry, a target app and a default outcome; it switches at `MaxUint256`
  pub pass_through_state : String → String → String → V
  -- `computeOutcomeWithCurrentState`
  pub outcome : AppInstance V → String

-- `computeInterpreterParameters`
unfoldable pub virtual_interpreter_parameters :
    Ethers → OutcomeType → String → String → ℤ → ℤ → String → Result InterpreterParams
virtual_interpreter_parameters e outcome_type initiating responding initiating_decrement
      responding_decrement token_address =
    let total = e.to_hex_string (initiating_decrement +ℤ responding_decrement) in
    elim outcome_type [
      | two_party_fixed_outcome ↦ ok (record no_params {
        two_party = some (record {
          token_address = token_address;
          player_addrs = (initiating, responding);
          amount = total;
        });
      })
      | single_asset_two_party_coin_transfer ↦ ok (record no_params {
        single_asset = some (record { token_address = token_address; limit = total });
      })
      | multi_asset_multi_party_coin_transfer ↦ err unsupported_outcome
    ]

abbrev challenge_timeout : ℕ
challenge_timeout = 100

abbrev pub pass_through_encoding : String
pass_through_encoding =
    "\n        tuple(\n          address challengeRegistryAddress,\n          bytes32 targetAppIdentityHash,\n          uint256 switchesOutcomeAt,\n          bytes defaultOutcome\n        )\n      "

-- What an object has under an address is read, or a new channel is made.
unfoldable pub stored_or_new :
    {V : Type 0} → String → List String → Option (StateChannelJson V) → Result (StateChannel V)
stored_or_new address users (some json) = from_json json
stored_or_new address users none = create_empty_channel address users

module _ {V : Type 0} (e : Ethers) where
  unfoldable pub construct_virtual_app_instance : InstallVirtualAppParams V → Result (AppInstance V)
  construct_virtual_app_instance p = do
    let initiator = xkey_kth_address e p.initiator_xpub p.app_seq_no
    let responder = xkey_kth_address e p.responder_xpub p.app_seq_no
    params ←
        virtual_interpreter_parameters e p.outcome_type initiator responder
          p.initiator_balance_decrement p.responder_balance_decrement p.token_address
    ok (record {
      participants = sort_addresses (initiator ∷ responder ∷ []);
      default_timeout = p.default_timeout;
      app_interface = p.app_interface;
      is_virtual_app = true;
      app_seq_no = p.app_seq_no;
      latest_state = p.initial_state;
      latest_version_number = 0;
      latest_timeout = p.default_timeout;
      outcome_type = p.outcome_type;
      two_party_internal = params.two_party;
      multi_asset_internal = params.multi_asset;
      single_asset_internal = params.single_asset;
    })

  module _ (network : NetworkContext) (parts : Mediation V) where
    -- `constructTimeLockedPassThroughAppInstance`, of the channel of all three, the virtual app's
    -- hash and its outcome.
    unfoldable pub construct_pass_through_app_instance :
        StateChannel V → String → String → InstallVirtualAppParams V → Result (AppInstance V)
    construct_pass_through_app_instance wide target outcome p = do
      let seq_no = num_proposed_apps wide
      let intermediary = xkey_kth_address e p.intermediary_xpub seq_no
      let initiator = xkey_kth_address e p.initiator_xpub seq_no
      let responder = xkey_kth_address e p.responder_xpub seq_no
      params ←
          virtual_interpreter_parameters e p.outcome_type initiator responder
            p.initiator_balance_decrement p.responder_balance_decrement p.token_address
      ok (record {
        participants = sort_addresses (initiator ∷ responder ∷ intermediary ∷ []);
        default_timeout = challenge_timeout;
        app_interface = record {
          addr = network.time_locked_pass_through;
          state_encoding = pass_through_encoding;
          action_encoding = none;
        };
        is_virtual_app = true;
        app_seq_no = seq_no;
        latest_state = parts.pass_through_state network.challenge_registry target outcome;
        latest_version_number = 0;
        latest_timeout = challenge_timeout;
        outcome_type = p.outcome_type;
        two_party_internal = params.two_party;
        multi_asset_internal = params.multi_asset;
        single_asset_internal = params.single_asset;
      })

    -- The channel of these users: a stored one, or a new one without a free balance.
    unfoldable pub get_or_create_state_channel_with_users :
        Store V → List String → Result (StateChannel V)
    get_or_create_state_channel_with_users store users = do
      address ←
          get_create2_multisig_address e parts.create2 users network.proxy_factory
            network.minimum_viable_multisig
      stored_or_new address users (lookup address store.shared_data.state_channels_map)

    -- The stored channel of a user with the intermediary.
    unfoldable pub mediation_channel :
        Store V → InstallVirtualAppParams V → String → Result (StateChannel V)
    mediation_channel store p user = do
      address ←
          get_create2_multisig_address e parts.create2 (user ∷ p.intermediary_xpub ∷ [])
            network.proxy_factory network.minimum_viable_multisig
      stored_channel address store

    -- The conditional transaction that pays out the agreement on an app.
    unfoldable pub agreement_transaction :
        StateChannel V → AppInstance V → String → Result Commitment
    agreement_transaction sc pass_through target = do
      fb ← free_balance sc
      agreement ← get_agreement_from_virtual_app sc target
      params ← or_throw (parts.encode_agreement agreement) ethers_error
      ok (
          multisig_commitment (record {
            multisig = sc.multisig_address;
            multisig_owners = multisig_owners e sc;
            action =
                conditional_action network (identity_hash e pass_through) (identity_hash e fb)
                  network.two_party_fixed_outcome_from_virtual_app_interpreter params;
          }))

  -- The agreement of a user with the intermediary, of whom `first` and `second` are charged.
  unfoldable pub agree_on :
      AbiCoder FreeBalanceStateJson
      → InstallVirtualAppParams V
      → String
      → String
      → String
      → CoinTransferMap
      → StateChannel V
      → Result (StateChannel V)
  agree_on fb_abi p user target pass_through decrements sc =
      add_agreement e fb_abi target
        (record {
          time_locked_pass_through_identity_hash = pass_through;
          capital_provided =
              e.to_hex_string (p.initiator_balance_decrement +ℤ p.responder_balance_decrement);
          capital_provider = xkey_kth_address e p.intermediary_xpub 0;
          virtual_app_user = xkey_kth_address e user 0;
          token_address = p.token_address;
        })
        decrements p.token_address sc

  -- The intermediary stands in for the responder in the channel with the initiator, and for the
  -- initiator in the one with the responder.
  unfoldable pub initiating_decrements : InstallVirtualAppParams V → CoinTransferMap
  initiating_decrements p =
      insert (xkey_kth_address e p.intermediary_xpub 0) p.responder_balance_decrement
        ((xkey_kth_address e p.initiator_xpub 0, p.initiator_balance_decrement) ∷ [])

  unfoldable pub responding_decrements : InstallVirtualAppParams V → CoinTransferMap
  responding_decrements p =
      insert (xkey_kth_address e p.responder_xpub 0) p.responder_balance_decrement
        ((xkey_kth_address e p.intermediary_xpub 0, p.initiator_balance_decrement) ∷ [])

  -- The commitment to the first state of an app, with its default timeout.
  unfoldable pub commit_to_app : AbiCoder V → NetworkContext → AppInstance V → Result Commitment
  commit_to_app abi network app = do
    hashed ← hash_of_latest_state e abi app
    ok (
        set_state_commitment (record {
          network_context = network;
          app_identity = identity app;
          hashed_app_state = hashed;
          app_version_number = app.latest_version_number;
          timeout = app.default_timeout;
        }))
