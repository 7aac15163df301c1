-- ===== src/Handling.antt =====
-- packages/node/src/message-handling/handle-protocol-message.ts: what a node does with a message of
-- another node beside running the protocol. The names of the queues, which nothing asks for there,
-- are left out.
pub mod Events
pub mod Proposals
use counterfactual.Prelude.{
  String, ◌==◌, Bool, true, false, List, Option, none, some, [], ◌∷◌, eqb, if◌then◌else◌,
}
use counterfactual.Prelude.Int.{ℤ, pos, negsuc}
use counterfactual.Errors.{Result, ok, err, ◌>>=◌, or_throw, type_error, no_proposed_app_instance}
use counterfactual.External.{Ethers}
use counterfactual.Dict.{Dict, lookup, has}
use counterfactual.AppInstance.{identity_hash}
use counterfactual.StateChannel.{
  StateChannel, AppInstanceProposal, most_recently_installed_app_instance,
  most_recently_proposed_app_instance, multisig_owners, get_app_instance,
}
use counterfactual.StateChannel.Apps.{remove_proposal}
use counterfactual.Store.{
  Store, get_state_channels_map, get_app_instance_proposal, get_channel_from_app_instance_id,
  save_state_channel,
}
use counterfactual.Commitments.{NetworkContext}
use counterfactual.Create2.{Create2, get_create2_multisig_address}
use counterfactual.Protocols.{
  Message, Protocol, ProtocolParams, install, install_virtual_app, setup, propose, take_action,
  uninstall, uninstall_virtual_app, update, withdraw,
}
use counterfactual.Engine.Dispatch.{
  as_install, as_install_virtual, as_propose, as_setup, as_take_action, as_uninstall,
  as_uninstall_virtual, as_update, as_withdraw,
}

-- The type and the data of an event that a node emits.
pub data EventData (V : Type 0) : Type 0 where
  propose_install : Option (ProtocolParams V) → String → EventData V
  installed : String → EventData V
  uninstalled : String → EventData V
  create_channel : String → List String → String → EventData V
  withdrawal_confirmed : ℤ → EventData V
  update_state : V → String → EventData V
  install_virtual : String → EventData V
  uninstall_virtual : String → String → EventData V

-- `from` is the node that emits it.
pub record Event (V : Type 0) : Type 0 where
  pub from : String
  pub content : EventData V

-- `data.seq === UNASSIGNED_SEQ_NO`
unfoldable pub is_unassigned : ℤ → Bool
is_unassigned (pos n) = false
is_unassigned (negsuc n) = eqb n 0

module _ {V : Type 0} where
  -- `stateChannelsMap.get(multisigAddress)!`
  unfoldable pub channel_at : String → Dict (StateChannel V) → Result (StateChannel V)
  channel_at multisig_address channels = or_throw (lookup multisig_address channels) type_error

  -- `{ ...baseEvent, type, data }`
  unfoldable pub emitted_by : String → Option (EventData V) → Option (Event V)
  emitted_by sender none = none
  emitted_by sender (some c) = some (record { from = sender; content = c })

  -- `data["appInstanceId"] || data.params["appInstanceId"]` of the event of an installation
  unfoldable pub app_installed : EventData V → Option String
  app_installed (installed id) = some id
  app_installed (install_virtual id) = some id
  app_installed _ = none

  -- `getAppInstanceProposal` in its try block: only a missing proposal is no error.
  unfoldable pub proposal_if_any :
      Result (AppInstanceProposal V) → Result (Option (AppInstanceProposal V))
  proposal_if_any (ok proposal) = ok (some proposal)
  proposal_if_any (err no_proposed_app_instance) = ok none
  proposal_if_any (err other) = err other

module _ {V : Type 0} (e : Ethers) where
  -- The app of an event that a virtual app is installed, if the node is one of its users.
  unfoldable pub virtual_installation :
      String → Dict (StateChannel V) → Result (Option (EventData V))
  unfolding channel_at
  virtual_installation virtual_channel channels =
      let event = do
        sc ← channel_at virtual_channel channels
        app ← most_recently_installed_app_instance sc
        ok (some (EventData.install_virtual (identity_hash e app)))
      in if has virtual_channel channels then event else ok none

  -- The proposal of an app that is installed is removed.
  unfoldable pub discard_proposal : String → Store V → Result (Store V)
  unfolding proposal_if_any
  discard_proposal id store = do
    proposal ← proposal_if_any (get_app_instance_proposal e id store)
    elim proposal [
      | none ↦ ok store
      | some found ↦ do
        sc ← get_channel_from_app_instance_id e id store
        sc' ← remove_proposal id sc
        ok (save_state_channel e sc' store)
    ]

  -- What follows an event: the store, and the event itself.
  unfoldable pub settle_event : Option (Event V) → Store V → Result (Store V × Option (Event V))
  unfolding discard_proposal app_installed
  settle_event none store = ok (store, none)
  settle_event (some event) store = elim (app_installed event.content) [
    | none ↦ ok (store, some event)
    | some id ↦
        let rest = (do store' ← discard_proposal id store; ok (store', some event)) in
        if id == "" then ok (store, some event) else rest
  ]

module _ {V : Type 0} (e : Ethers) (create2 : Create2) (network : NetworkContext) where
  unfoldable pub event_data :
      Protocol → Option (ProtocolParams V) → Dict (StateChannel V) → Result (Option (EventData V))
  unfolding channel_at virtual_installation as_install as_install_virtual as_propose as_setup
      as_take_action as_uninstall as_uninstall_virtual as_update as_withdraw
  event_data propose params channels = do
    p ← as_propose params
    sc ← channel_at p.multisig_address channels
    proposal ← most_recently_proposed_app_instance sc
    ok (some (EventData.propose_install params proposal.identity_hash))
  event_data install params channels = do
    p ← as_install params
    sc ← channel_at p.multisig_address channels
    app ← most_recently_installed_app_instance sc
    ok (some (EventData.installed (identity_hash e app)))
  event_data uninstall params channels = do
    p ← as_uninstall params
    ok (some (EventData.uninstalled p.app_identity_hash))
  event_data setup params channels = do
    p ← as_setup params
    sc ← channel_at p.multisig_address channels
    ok (some (EventData.create_channel p.multisig_address (multisig_owners e sc) p.initiator_xpub))
  event_data withdraw params channels = do
    p ← as_withdraw params
    ok (some (EventData.withdrawal_confirmed p.amount))
  event_data take_action params channels = do
    p ← as_take_action params
    sc ← channel_at p.multisig_address channels
    app ← get_app_instance sc p.app_identity_hash
    ok (some (EventData.update_state app.latest_state p.app_identity_hash))
  event_data update params channels = do
    p ← as_update params
    sc ← channel_at p.multisig_address channels
    app ← get_app_instance sc p.app_identity_hash
    ok (some (EventData.update_state app.latest_state p.app_identity_hash))
  event_data install_virtual_app params channels = do
    p ← as_install_virtual params
    virtual_channel ←
        get_create2_multisig_address e create2 (p.responder_xpub ∷ p.initiator_xpub ∷ [])
          network.proxy_factory network.minimum_viable_multisig
    virtual_installation e virtual_channel channels
  event_data uninstall_virtual_app params channels = do
    p ← as_uninstall_virtual params
    ok (some (EventData.uninstall_virtual p.target_app_identity_hash p.intermediary_xpub))

module _ {V : Type 0} (e : Ethers) (create2 : Create2) (network : NetworkContext)
    (public_identifier : String) where
  unfoldable pub get_outgoing_event_data_from_protocol :
      Protocol → Option (ProtocolParams V) → Dict (StateChannel V) → Result (Option (Event V))
  unfolding event_data emitted_by
  get_outgoing_event_data_from_protocol protocol params channels = do
    content ← event_data e create2 network protocol params channels
    ok (emitted_by public_identifier content)

  -- `handleReceivedProtocolMessage`: `run` runs the protocol on the message, to its end.
  unfoldable pub handle_received_protocol_message :
      (Message V → Store V → Result (Store V))
      → Message V
      → Store V
      → Result (Store V × Option (Event V))
  unfolding is_unassigned settle_event get_outgoing_event_data_from_protocol
  handle_received_protocol_message run m store =
      let rest = do
        ran ← run m store
        channels ← get_state_channels_map ran
        event ← get_outgoing_event_data_from_protocol m.protocol m.params channels
        settle_event e event ran
      in if is_unassigned m.seq then ok (store, none) else rest
