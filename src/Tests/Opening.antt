-- ===== src/Tests/Opening.antt =====
-- The theorems on setup and install at two parties.
use counterfactual.Prelude.{ℕ, ◌≡◌, refl, none, some, [], ◌∷◌}
use counterfactual.Errors.{ok}
use counterfactual.Dict.{lookup, insert, of_entries}
use counterfactual.AppInstance
use counterfactual.AppInstance.{AppInstance, identity, set_state}
use counterfactual.FreeBalance.{eth_token_address, serialize}
use counterfactual.StateChannel.{StateChannel, all_start_with_xpub, construct, multisig_owners}
use counterfactual.StateChannel.Json.{to_json, from_json}
use counterfactual.Store.{Store, empty_data, save_state_channel}
use counterfactual.Commitments.{
  Commitment, set_state_commitment, multisig_commitment, conditional_action,
}
use counterfactual.Protocols.{SetupParams}
use counterfactual.Engine.{stored_channel}
use counterfactual.Engine.Setup.{setup_initiating}
use counterfactual.Engine.Session.{session}
use counterfactual.Engine.Session.Opening.{session-setup, IsOpened}
use counterfactual.Tests.{toy, toy_laws, alice, bob, channel, funds_app, game}
use counterfactual.Tests.Parties.{toy_signing, toy_signing_laws, context, toy_network}

abbrev nothing_stored : Store ℕ
nothing_stored = record { shared_data = empty_data; persisted = none }

abbrev open_channel : SetupParams
open_channel = record {
  initiator_xpub = "xpubA";
  responder_xpub = "xpubB";
  multisig_address = "0xmultisig";
}

session-setup_example :
    (sc : StateChannel ℕ) × IsOpened context toy_signing_laws open_channel sc
    × (session context context.outcomes "xpubA" "xpubB"
          (setup_initiating toy toy_network toy_signing "process" open_channel)
          nothing_stored
          nothing_stored
        ≡ ok (save_state_channel toy sc nothing_stored, save_state_channel toy sc nothing_stored))
session-setup_example =
    session-setup context toy_signing_laws context.outcomes nothing_stored nothing_stored "process"
      open_channel toy_laws refl (unfold all_start_with_xpub in refl)

-- The store of a party before an app is installed.
abbrev pub idle : Store ℕ
idle = record {
  shared_data = record (empty_data {V = ℕ}) {
    state_channels_map = ("0xmultisig", to_json toy channel) ∷ [];
  };
  persisted = none;
}

pub stored_idle : stored_channel "0xmultisig" idle ≡ ok channel
unfolding stored_channel lookup from_json to_json construct all_start_with_xpub of_entries insert
    AppInstance.from_json AppInstance.to_json serialize
stored_idle = refl

abbrev funded_game : AppInstance ℕ
funded_game = record game {
  two_party_internal = some (record {
    player_addrs = (alice, bob);
    amount = "p11111";
    token_address = eth_token_address;
  });
}

abbrev pay_game : Commitment
pay_game = multisig_commitment (record {
  multisig = "0xmultisig";
  multisig_owners = alice ∷ bob ∷ [];
  action = conditional_action toy_network "1" "" "0xtwo" "two";
})

abbrev next_balance : Commitment
next_balance = set_state_commitment (record {
  network_context = toy_network;
  app_identity = identity funds_app;
  hashed_app_state = "bytes";
  app_version_number = 2;
  timeout = 100;
})
