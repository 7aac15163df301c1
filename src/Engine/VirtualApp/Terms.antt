-- ===== src/Engine/VirtualApp/Terms.antt =====
-- packages/node/src/engine/install-virtual-app.ts: the objects that each of the three parties computes
-- before it signs.
use counterfactual.Prelude.{String, [], ◌∷◌}
use counterfactual.Errors.{Result, ok, ◌>>=◌}
use counterfactual.External.{Ethers, AbiCoder}
use counterfactual.AppInstance.{AppInstance, identity_hash}
use counterfactual.FreeBalance.{FreeBalanceStateJson}
use counterfactual.FreeBalanceApp.{CoinTransferMap}
use counterfactual.StateChannel.{StateChannel, get_multisig_owner_addr_of}
use counterfactual.StateChannel.Apps.{add_app_instance}
use counterfactual.Store.{Store}
use counterfactual.Commitments.{NetworkContext, Commitment}
use counterfactual.Protocols.{InstallVirtualAppParams}
use counterfactual.Engine.VirtualApp.{
  Mediation, get_or_create_state_channel_with_users, construct_virtual_app_instance,
  construct_pass_through_app_instance, mediation_channel, agree_on, agreement_transaction,
  initiating_decrements, responding_decrements,
}

-- What a user computes first: the channel of all three with the pass-through app, the one of the two
-- users with the virtual app, the user's own with the agreement, the addresses of the intermediary and
-- of the other user, and the conditional transaction.
pub record UserTerms (V : Type 0) : Type 0 where
  pub wide : StateChannel V
  pub direct : StateChannel V
  pub mediated : StateChannel V
  pub virtual_app : AppInstance V
  pub pass_through : AppInstance V
  pub intermediary : String
  pub other : String
  pub agreement : Commitment

-- What the intermediary computes first: the channel of all three, those with the two users, their
-- addresses, and the conditional transaction for the initiator.
pub record MediatorTerms (V : Type 0) : Type 0 where
  pub wide : StateChannel V
  pub with_initiating : StateChannel V
  pub with_responding : StateChannel V
  pub pass_through : AppInstance V
  pub initiator : String
  pub responder : String
  pub agreement : Commitment

module _ {V : Type 0} (e : Ethers) (fb_abi : AbiCoder FreeBalanceStateJson)
    (network : NetworkContext) (parts : Mediation V) where
  -- `getUpdatedStateChannelAndVirtualAppObjectsForInitiating` and its twin for the responder: `user`
  -- computes, `other` is the other user.
  unfoldable pub user_terms :
      Store V → InstallVirtualAppParams V → String → String → CoinTransferMap → Result (UserTerms V)
  user_terms store p user other decrements = do
    wide ←
        get_or_create_state_channel_with_users e network parts store
          (p.initiator_xpub ∷ p.responder_xpub ∷ p.intermediary_xpub ∷ [])
    direct ←
        get_or_create_state_channel_with_users e network parts store
          (p.initiator_xpub ∷ p.responder_xpub ∷ [])
    app ← construct_virtual_app_instance e p
    pass ←
        construct_pass_through_app_instance e network parts wide (identity_hash e app)
          (parts.outcome app) p
    sc ← mediation_channel e network parts store p user
    mediated ← agree_on e fb_abi p user (identity_hash e app) (identity_hash e pass) decrements sc
    wide' ← add_app_instance e pass wide
    direct' ← add_app_instance e app direct
    intermediary ← get_multisig_owner_addr_of e mediated p.intermediary_xpub
    other_address ← get_multisig_owner_addr_of e direct' other
    agreement ← agreement_transaction e network parts mediated pass (identity_hash e app)
    ok (record {
      wide = wide';
      direct = direct';
      mediated = mediated;
      virtual_app = app;
      pass_through = pass;
      intermediary = intermediary;
      other = other_address;
      agreement = agreement;
    })

  -- `getUpdatedStateChannelAndVirtualAppObjectsForIntermediary`, with the virtual app's hash and
  -- outcome from the initiator's message.
  unfoldable pub mediator_terms :
      Store V → InstallVirtualAppParams V → String → String → Result (MediatorTerms V)
  mediator_terms store p target outcome = do
    wide ←
        get_or_create_state_channel_with_users e network parts store
          (p.initiator_xpub ∷ p.responder_xpub ∷ p.intermediary_xpub ∷ [])
    pass ← construct_pass_through_app_instance e network parts wide target outcome p
    initiating ← mediation_channel e network parts store p p.initiator_xpub
    responding ← mediation_channel e network parts store p p.responder_xpub
    wide' ← add_app_instance e pass wide
    with_initiating ←
        agree_on e fb_abi p p.initiator_xpub target (identity_hash e pass)
          (initiating_decrements e p) initiating
    with_responding ←
        agree_on e fb_abi p p.responder_xpub target (identity_hash e pass)
          (responding_decrements e p) responding
    initiator ← get_multisig_owner_addr_of e with_initiating p.initiator_xpub
    responder ← get_multisig_owner_addr_of e with_responding p.responder_xpub
    agreement ← agreement_transaction e network parts with_initiating pass target
    ok (record {
      wide = wide';
      with_initiating = with_initiating;
      with_responding = with_responding;
      pass_through = pass;
      initiator = initiator;
      responder = responder;
      agreement = agreement;
    })
