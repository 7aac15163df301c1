-- ===== src/Handling/Events.antt =====
-- What a node does after it has run a protocol on a message.
use counterfactual.Prelude.{
  String, ◌≡◌, ◌↔◌, refl, false, Option, none, some, [], ◌∷◌, Bool-cases, inl, inr,
}
use counterfactual.Errors.{ok, ok-injective, >>=-eq-ok}
use counterfactual.External.{Ethers}
use counterfactual.Dict.{Dict, has}
use counterfactual.StateChannel.{
  StateChannel, most_recently_installed_app_instance, most_recently_proposed_app_instance,
  get_app_instance,
}
use counterfactual.Commitments.{NetworkContext}
use counterfactual.Create2.{Create2, get_create2_multisig_address}
use counterfactual.Protocols.{
  InstallVirtualAppParams, Protocol, ProtocolParams, install, install_virtual_app, setup, propose,
  take_action, uninstall, uninstall_virtual_app, update, withdraw,
}
use counterfactual.Engine.Dispatch.{
  as_install, as_install_virtual, as_propose, as_setup, as_take_action, as_uninstall,
  as_uninstall_virtual, as_update, as_withdraw,
}
use counterfactual.Handling.{
  EventData, channel_at, virtual_installation, event_data, emitted_by,
  get_outgoing_event_data_from_protocol,
}

module _ {V : Type 0} (e : Ethers) (create2 : Create2) (network : NetworkContext) where
  -- The parameters of a virtual app between whose users no channel is among these.
  pub record IsMediated (params : Option (ProtocolParams V)) (channels : Dict (StateChannel V))
      : Type 0 where
    pub of_app : InstallVirtualAppParams V
    pub channel : String
    pub read : as_install_virtual params ≡ ok of_app
    pub computed :
        get_create2_multisig_address e create2
          (of_app.responder_xpub ∷ of_app.initiator_xpub ∷ [])
          network.proxy_factory
          network.minimum_viable_multisig
        ≡ ok channel
    pub missing : has channel channels ≡ false

  virtual_installation-none :
      (a : String) (channels : Dict (StateChannel V))
      → virtual_installation e a channels ≡ ok none
      → has a channels ≡ false
  unfolding virtual_installation
  virtual_installation-none a channels h = elim (Bool-cases (has a channels)) [
    | inl there ↦
        let (sc, _, h1) = >>=-eq-ok (channel_at a channels) _ (rw there at h) in
        let (app, _, h2) = >>=-eq-ok (most_recently_installed_app_instance sc) _ h1 in cc h2
    | inr missing ↦ missing
  ]

  event_data-quiet :
      (protocol : Protocol) (params : Option (ProtocolParams V)) (channels : Dict (StateChannel V))
      → event_data e create2 network protocol params channels ≡ ok none
      → (protocol ≡ install_virtual_app) × IsMediated params channels
  unfolding event_data
  event_data-quiet propose params channels h =
      let (p, _, h1) = >>=-eq-ok (as_propose params) _ h in
      let (sc, _, h2) = >>=-eq-ok (channel_at p.multisig_address channels) _ h1 in
      let (proposal, _, h3) = >>=-eq-ok (most_recently_proposed_app_instance sc) _ h2 in cc h3
  event_data-quiet install params channels h =
      let (p, _, h1) = >>=-eq-ok (as_install params) _ h in
      let (sc, _, h2) = >>=-eq-ok (channel_at p.multisig_address channels) _ h1 in
      let (app, _, h3) = >>=-eq-ok (most_recently_installed_app_instance sc) _ h2 in cc h3
  event_data-quiet uninstall params channels h =
      let (p, _, h1) = >>=-eq-ok (as_uninstall params) _ h in cc h1
  event_data-quiet setup params channels h =
      let (p, _, h1) = >>=-eq-ok (as_setup params) _ h in
      let (sc, _, h2) = >>=-eq-ok (channel_at p.multisig_address channels) _ h1 in cc h2
  event_data-quiet withdraw params channels h =
      let (p, _, h1) = >>=-eq-ok (as_withdraw params) _ h in cc h1
  event_data-quiet take_action params channels h =
      let (p, _, h1) = >>=-eq-ok (as_take_action params) _ h in
      let (sc, _, h2) = >>=-eq-ok (channel_at p.multisig_address channels) _ h1 in
      let (app, _, h3) = >>=-eq-ok (get_app_instance sc p.app_identity_hash) _ h2 in cc h3
  event_data-quiet update params channels h =
      let (p, _, h1) = >>=-eq-ok (as_update params) _ h in
      let (sc, _, h2) = >>=-eq-ok (channel_at p.multisig_address channels) _ h1 in
      let (app, _, h3) = >>=-eq-ok (get_app_instance sc p.app_identity_hash) _ h2 in cc h3
  event_data-quiet uninstall_virtual_app params channels h =
      let (p, _, h1) = >>=-eq-ok (as_uninstall_virtual params) _ h in cc h1
  event_data-quiet install_virtual_app params channels h =
      let (p, read, h1) = >>=-eq-ok (as_install_virtual params) _ h in
      let (a, computed, h2) =
        >>=-eq-ok
          (get_create2_multisig_address e create2 (p.responder_xpub ∷ p.initiator_xpub ∷ [])
            network.proxy_factory network.minimum_viable_multisig)
          _ h1 in
      (
        refl,
        record {
          of_app = p;
          channel = a;
          read = read;
          computed = computed;
          missing = virtual_installation-none a channels h2;
        },
      )

  emitted_by-none :
      (self : String) (content : Option (EventData V))
      → emitted_by self content ≡ none
      → content ≡ none
  unfolding emitted_by
  emitted_by-none self none h = refl
  emitted_by-none self (some c) h = cc h

  -- A protocol that has run leads to no event exactly where it was the installation of a virtual app
  -- and the node has no channel between the users: at the intermediary.
  pub get_outgoing_event_data_from_protocol-none_iff :
      (self : String) (protocol : Protocol) (params : Option (ProtocolParams V))
      (channels : Dict (StateChannel V))
      → (get_outgoing_event_data_from_protocol e create2 network self protocol params channels
          ≡ ok none)
        ↔ ((protocol ≡ install_virtual_app) × IsMediated params channels)
  unfolding get_outgoing_event_data_from_protocol event_data virtual_installation emitted_by
  get_outgoing_event_data_from_protocol-none_iff self protocol params channels = (quiet, mediated)
    where
      quiet :
          get_outgoing_event_data_from_protocol e create2 network self protocol params channels
            ≡ ok none
          → (protocol ≡ install_virtual_app) × IsMediated params channels
      quiet h =
          let (content, made, h1) =
            >>=-eq-ok (event_data e create2 network protocol params channels) _ h in
          let nothing = emitted_by-none self content (ok-injective h1) in
          event_data-quiet protocol params channels (cc (made, nothing))

      mediated :
          (protocol ≡ install_virtual_app) × IsMediated params channels
          → get_outgoing_event_data_from_protocol e create2 network self protocol params channels
            ≡ ok none
      mediated (same, m) = rw (same, m.read, m.computed, m.missing) refl
