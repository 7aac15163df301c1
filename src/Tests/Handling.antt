-- ===== src/Tests/Handling.antt =====
-- The theorems on the messages that a node handles, at a store with an app that is installed and
-- still has a proposal.
use counterfactual.Prelude.{ℕ, String, ◌≡◌, ◌↔◌, none, some, [], ◌∷◌}
use counterfactual.Prelude.Int.{pos}
use counterfactual.Errors.{ok}
use counterfactual.AppInstance
use counterfactual.AppInstance.{identity_hash}
use counterfactual.StateChannel.{StateChannel}
use counterfactual.StateChannel.Json.{to_json}
use counterfactual.Store.{Store, empty_data, save_state_channel}
use counterfactual.Protocols.{
  Message, no_data, install, install_virtual_app, install_virtual_params,
}
use counterfactual.Handling.{Event, installed, get_outgoing_event_data_from_protocol}
use counterfactual.Handling.Events.{get_outgoing_event_data_from_protocol-none_iff, IsMediated}
use counterfactual.Protocols
use counterfactual.Tests.Installs
use counterfactual.Tests.{toy, playing}
use counterfactual.Tests.Channels.{proposal}
use counterfactual.Tests.Parties.{toy_create2, toy_network}
use counterfactual.Tests.Players.{install_virtual}

get_outgoing_event_data_from_protocol-none_iff_example :
    (get_outgoing_event_data_from_protocol {V = ℕ} toy toy_create2 toy_network "xpubI"
        install_virtual_app
        (some (install_virtual_params install_virtual))
        []
      ≡ ok none)
    ↔ ((install_virtual_app ≡ install_virtual_app)
        × IsMediated {V = ℕ} toy toy_create2 toy_network
            (some (install_virtual_params install_virtual))
            [])
get_outgoing_event_data_from_protocol-none_iff_example =
    get_outgoing_event_data_from_protocol-none_iff toy toy_create2 toy_network "xpubI"
      install_virtual_app (some (install_virtual_params install_virtual)) []

abbrev game_id : String
game_id = "1"

abbrev proposed : StateChannel ℕ
proposed = record playing {
  proposed_app_instances = (game_id, record proposal { identity_hash = game_id }) ∷ [];
}

abbrev has_proposed : Store ℕ
has_proposed = record {
  shared_data = record (empty_data {V = ℕ}) {
    state_channels_map = ("0xmultisig", to_json toy proposed) ∷ [];
  };
  persisted = none;
}

abbrev install_message : Message ℕ
install_message = record {
  process_id = "process";
  protocol = install;
  params = some (Protocols.install_params Installs.install_params);
  to_xpub = "xpubB";
  seq = pos 1;
  custom_data = no_data;
}

abbrev game_installed : Event ℕ
game_installed = record { from = "xpubB"; content = installed game_id }

abbrev without_proposal : Store ℕ
without_proposal =
    save_state_channel toy (record proposed { proposed_app_instances = [] }) has_proposed
