-- ===== src/Engine/VirtualApp/Settling.antt =====
-- packages/node/src/engine/uninstall-virtual-app.ts: the objects that each of the three parties
-- computes before it signs. The virtual app ends with an outcome, and its money goes to the free
-- balances of the two channels with the intermediary.
use counterfactual.Prelude.{String, Bool, Option, none, List, [], ◌∷◌, if◌then◌else◌, not}
use counterfactual.Prelude.Int.{ℤ, ltb_ℤ}
use counterfactual.Errors.{Result, ok, ◌>>=◌, ◌>>◌, guard, or_throw, type_error, unexpected_outcome}
use counterfactual.External.{Ethers, AbiCoder}
use counterfactual.Dict.{lookup, insert}
use counterfactual.AppInstance
use counterfactual.AppInstance.{AppInstance, identity, identity_hash, hash_of_latest_state}
use counterfactual.FreeBalance.{FreeBalanceStateJson}
use counterfactual.FreeBalanceApp.{CoinTransferMap, TokenIndexedCoinTransferMap, amount_at}
use counterfactual.Outcome.{compute_token_indexed_free_balance_increments}
use counterfactual.Xkeys.{xkey_kth_address}
use counterfactual.StateChannel.{StateChannel, get_app_instance, get_agreement_from_virtual_app}
use counterfactual.StateChannel.Apps.{remove_app_instance, remove_agreement}
use counterfactual.Store.{Store}
use counterfactual.Create2.{Create2, get_create2_multisig_address}
use counterfactual.Commitments.{NetworkContext, Commitment, set_state_commitment}
use counterfactual.Protocols.{UninstallVirtualAppParams}
use counterfactual.Engine.{stored_channel}
use counterfactual.Engine.Uninstall.{Outcomes}

-- What the protocol uses of libraries, of the chain and of the pass-through app's state.
pub record Settlement (V : Type 0) : Type 0 where
  pub create2 : Create2
  -- `computeOutcomeWithCurrentState`
  pub outcome : AppInstance V → String
  pub block_number : ℤ
  -- the fields of the state
  pub target_app : V → String
  pub switches_outcome_at : V → Option ℤ
  pub default_outcome : V → String
  -- the state that switches at 0 to an outcome
  pub settled_on : V → String → V

-- What a user computes: the channels of all three, with the intermediary and with the other user, and
-- the pass-through app that is settled.
pub record SettledUser (V : Type 0) : Type 0 where
  pub wide : StateChannel V
  pub mediated : StateChannel V
  pub direct : StateChannel V
  pub pass_through : AppInstance V

-- What the intermediary computes.
pub record SettledMediator (V : Type 0) : Type 0 where
  pub wide : StateChannel V
  pub with_initiating : StateChannel V
  pub with_responding : StateChannel V
  pub pass_through : AppInstance V

-- The object of two addresses with the increments of two. A missing increment is `undefined`, which
-- `merge` takes for zero.
unfoldable pub shares :
    TokenIndexedCoinTransferMap
    → String
    → String × String
    → String × String
    → Result CoinTransferMap
shares increments token (first, first_of) (second, second_of) = do
  of_token ← or_throw (lookup token increments) type_error
  ok (insert second (amount_at of_token second_of) ((first, amount_at of_token first_of) ∷ []))

module _ {V : Type 0} (e : Ethers) where
  -- The commitment to the state of the pass-through app, with the number of the app as its version.
  unfoldable pub pass_through_commitment :
      AbiCoder V → NetworkContext → AppInstance V → Result Commitment
  pass_through_commitment abi network app = do
    hashed ← hash_of_latest_state e abi app
    ok (
        set_state_commitment (record {
          network_context = network;
          app_identity = identity app;
          hashed_app_state = hashed;
          app_version_number = app.app_seq_no;
          timeout = app.default_timeout;
        }))

module _ {V : Type 0} (e : Ethers) (abi : AbiCoder V) (fb_abi : AbiCoder FreeBalanceStateJson)
    (outcomes : Outcomes V) (network : NetworkContext) (parts : Settlement V) where
  unfoldable pub get_state_channel_from_map_with_owners :
      Store V → List String → Result (StateChannel V)
  get_state_channel_from_map_with_owners store users = do
    address ←
        get_create2_multisig_address e parts.create2 users network.proxy_factory
          network.minimum_viable_multisig
    stored_channel address store

  -- `switchesOutcomeAt.lte(blockNumber)`
  unfoldable pub has_expired : AppInstance V → Result Bool
  has_expired pass = do
    switches ← or_throw (parts.switches_outcome_at pass.latest_state) type_error
    ok (not (ltb_ℤ parts.block_number switches))

  unfoldable pub increments_of : AppInstance V → String → Result TokenIndexedCoinTransferMap
  increments_of app override =
      compute_token_indexed_free_balance_increments e outcomes.decoder outcomes.refund_token app
        (outcomes.chain app) override

  unfoldable pub settle_pass_through : AppInstance V → String → Result (AppInstance V)
  settle_pass_through pass outcome =
      AppInstance.set_state e abi pass (parts.settled_on pass.latest_state outcome) none

  -- `getUpdatedStateChannelAndAppInstanceObjectsForInitiating` and its twin for the responder, who
  -- first compares the outcome with its own: `user` computes, `other` is the other user.
  unfoldable pub settle_user :
      Store V
      → UninstallVirtualAppParams
      → String
      → String
      → (AppInstance V → Bool)
      → Result (SettledUser V)
  settle_user store p user other expects = do
    wide ←
        get_state_channel_from_map_with_owners store
          (p.initiator_xpub ∷ p.responder_xpub ∷ p.intermediary_xpub ∷ [])
    mediated ← get_state_channel_from_map_with_owners store (user ∷ p.intermediary_xpub ∷ [])
    direct ← get_state_channel_from_map_with_owners store (p.initiator_xpub ∷ p.responder_xpub ∷ [])
    agreement ← get_agreement_from_virtual_app mediated p.target_app_identity_hash
    pass ← get_app_instance wide agreement.time_locked_pass_through_identity_hash
    app ← get_app_instance direct (parts.target_app pass.latest_state)
    guard (expects app) unexpected_outcome
    expired ← has_expired pass
    increments ← increments_of (if expired then pass else app) ""
    wide' ← remove_app_instance (identity_hash e pass) wide
    distribution ←
        shares increments agreement.token_address
          (xkey_kth_address e p.intermediary_xpub 0, xkey_kth_address e other 0)
          (xkey_kth_address e user 0, xkey_kth_address e user 0)
    mediated' ←
        remove_agreement e fb_abi (identity_hash e app) distribution agreement.token_address
          mediated
    direct' ← remove_app_instance (identity_hash e app) direct
    settled ← settle_pass_through pass p.target_outcome
    ok (record { wide = wide'; mediated = mediated'; direct = direct'; pass_through = settled })

  -- `getUpdatedStateChannelAndAppInstanceObjectsForIntermediary`
  unfoldable pub settle_mediator : Store V → UninstallVirtualAppParams → Result (SettledMediator V)
  settle_mediator store p = do
    wide ←
        get_state_channel_from_map_with_owners store
          (p.initiator_xpub ∷ p.responder_xpub ∷ p.intermediary_xpub ∷ [])
    initiating ←
        get_state_channel_from_map_with_owners store (p.initiator_xpub ∷ p.intermediary_xpub ∷ [])
    responding ←
        get_state_channel_from_map_with_owners store (p.intermediary_xpub ∷ p.responder_xpub ∷ [])
    agreement ← get_agreement_from_virtual_app initiating p.target_app_identity_hash
    pass ← get_app_instance wide agreement.time_locked_pass_through_identity_hash
    expired ← has_expired pass
    increments ←
        increments_of pass
          (if expired then parts.default_outcome pass.latest_state else p.target_outcome)
    wide' ← remove_app_instance (identity_hash e pass) wide
    let target = parts.target_app pass.latest_state
    let initiator = xkey_kth_address e p.initiator_xpub 0
    let responder = xkey_kth_address e p.responder_xpub 0
    let intermediary = xkey_kth_address e p.intermediary_xpub 0
    to_initiating ←
        shares increments agreement.token_address (intermediary, responder) (initiator, initiator)
    with_initiating ←
        remove_agreement e fb_abi target to_initiating agreement.token_address initiating
    to_responding ←
        shares increments agreement.token_address (intermediary, initiator) (responder, responder)
    with_responding ←
        remove_agreement e fb_abi target to_responding agreement.token_address responding
    settled ← settle_pass_through pass p.target_outcome
    ok (record {
      wide = wide';
      with_initiating = with_initiating;
      with_responding = with_responding;
      pass_through = settled;
    })
