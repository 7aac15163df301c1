-- ===== src/Tests/Players.antt =====
-- Alice, Bob and Ingrid, before and after they install a virtual app.
use counterfactual.Prelude.{ℕ, String, List, none, some, true, [], ◌∷◌}
use counterfactual.Prelude.Int.{ℤ, pos}
use counterfactual.AppInstance.{AppInstance, identity, two_party_fixed_outcome}
use counterfactual.FreeBalance.{FreeBalance, FreeBalanceApp, eth_token_address, serialize}
use counterfactual.StateChannel.{StateChannel}
use counterfactual.StateChannel.Json.{to_json}
use counterfactual.Store.{Store, empty_data}
use counterfactual.Commitments.{
  Commitment, set_state_commitment, multisig_commitment, conditional_action,
}
use counterfactual.Protocols.{InstallVirtualAppParams}
use counterfactual.Engine.VirtualApp.{pass_through_encoding}
use counterfactual.Engine.Session.Playing.{Channels, Objects}
use counterfactual.Tests.{toy, alice, bob, any_interface, app_of, funds_app}
use counterfactual.Tests.Parties.{toy_network}

abbrev pub ingrid : String
ingrid = "0x0c"

abbrev pub balances : String → String → ℤ → ℤ → FreeBalance
balances a b m n = record {
  active_apps_map = [];
  balances_indexed_by_token =
      (eth_token_address, record { to = a; amount = m } ∷ record { to = b; amount = n } ∷ []) ∷ [];
}

-- The free balance of a user and Ingrid.
abbrev pub funds_of : String → FreeBalance → ℕ → FreeBalanceApp
funds_of user fb version = record funds_app {
  participants = user ∷ ingrid ∷ [];
  latest_state = serialize toy fb;
  latest_version_number = version;
}

abbrev pub with_ingrid : String → String → String → StateChannel ℕ
with_ingrid address xpub user = record {
  multisig_address = address;
  user_neutered_extended_keys = xpub ∷ "xpubI" ∷ [];
  proposed_app_instances = [];
  app_instances = [];
  agreements = [];
  free_balance_app_instance = some (funds_of user (balances user ingrid (pos 10) (pos 5)) 0);
  monotonic_num_proposed_apps = 1;
}

abbrev pub empty_of : String → List String → StateChannel ℕ
empty_of address users = record {
  multisig_address = address;
  user_neutered_extended_keys = users;
  proposed_app_instances = [];
  app_instances = [];
  agreements = [];
  free_balance_app_instance = none;
  monotonic_num_proposed_apps = 1;
}

abbrev pub before : Channels ℕ
before = record {
  wide = empty_of "0xwide" ("xpubA" ∷ "xpubB" ∷ "xpubI" ∷ []);
  direct = empty_of "0xusers" ("xpubA" ∷ "xpubB" ∷ []);
  initiating = with_ingrid "0xfirst" "xpubA" alice;
  responding = with_ingrid "0xsecond" "xpubB" bob;
}

abbrev pub install_virtual : InstallVirtualAppParams ℕ
install_virtual = record {
  initiator_xpub = "xpubA";
  responder_xpub = "xpubB";
  intermediary_xpub = "xpubI";
  default_timeout = 100;
  app_interface = any_interface;
  initial_state = 7;
  initiator_balance_decrement = pos 3;
  responder_balance_decrement = pos 2;
  token_address = eth_token_address;
  app_seq_no = 2;
  outcome_type = two_party_fixed_outcome;
}

abbrev pub stored_with : List (String × StateChannel ℕ) → Store ℕ
stored_with [] = record { shared_data = empty_data; persisted = none }
stored_with ((address, sc) ∷ rest) =
    let store = stored_with rest in
    record store {
      shared_data = record store.shared_data {
        state_channels_map = (address, to_json toy sc) ∷ store.shared_data.state_channels_map;
      };
    }

abbrev pub alice_store : Store ℕ
alice_store = stored_with (("0xfirst", before.initiating) ∷ [])

abbrev pub ingrid_store : Store ℕ
ingrid_store = stored_with (("0xfirst", before.initiating) ∷ ("0xsecond", before.responding) ∷ [])

abbrev pub bob_store : Store ℕ
bob_store = stored_with (("0xsecond", before.responding) ∷ [])

abbrev pub played_app : AppInstance ℕ
played_app = record (app_of 2 7) {
  is_virtual_app = true;
  two_party_internal = some (record {
    player_addrs = (alice, bob);
    amount = "p11111";
    token_address = eth_token_address;
  });
}

abbrev pub pass_app : AppInstance ℕ
pass_app = record played_app {
  participants = alice ∷ bob ∷ ingrid ∷ [];
  app_interface = record {
    addr = "0xpass";
    state_encoding = pass_through_encoding;
    action_encoding = none;
  };
  app_seq_no = 1;
  latest_state = 0;
}

abbrev pub agreed : String → StateChannel ℕ → FreeBalance → StateChannel ℕ
agreed user sc fb = record sc {
  agreements =
      (
        "11",
        record {
          time_locked_pass_through_identity_hash = "1";
          capital_provided = "p11111";
          capital_provider = ingrid;
          virtual_app_user = user;
          token_address = eth_token_address;
        },
      )
      ∷ [];
  free_balance_app_instance =
      some (funds_of user (record fb { active_apps_map = ("11", tt) ∷ [] }) 2);
}

abbrev pub pays : String → String → Commitment
pays address user = multisig_commitment (record {
  multisig = address;
  multisig_owners = user ∷ ingrid ∷ [];
  action = conditional_action toy_network "1" "" "0xvirtual" "agreement";
})

abbrev pub state_of : {S : Type 0} → AppInstance S → Commitment
state_of app = set_state_commitment (record {
  network_context = toy_network;
  app_identity = identity app;
  hashed_app_state = "bytes";
  app_version_number = app.latest_version_number;
  timeout = 100;
})

abbrev pub after : Objects ℕ
after = record {
  app = played_app;
  pass = pass_app;
  next = record {
    wide = record before.wide {
      app_instances = ("1", pass_app) ∷ [];
      monotonic_num_proposed_apps = 2;
    };
    direct = record before.direct {
      app_instances = ("11", played_app) ∷ [];
      monotonic_num_proposed_apps = 2;
    };
    initiating = agreed alice before.initiating (balances alice ingrid (pos 7) (pos 3));
    responding = agreed bob before.responding (balances bob ingrid (pos 8) (pos 2));
  };
  initiating_agreement = pays "0xfirst" alice;
  responding_agreement = pays "0xsecond" bob;
  initiating_hash = "";
  initiating_balance = state_of (funds_of alice (balances alice ingrid (pos 7) (pos 3)) 2);
  responding_hash = "";
  responding_balance = state_of (funds_of bob (balances bob ingrid (pos 8) (pos 2)) 2);
  app_commitment = state_of played_app;
  pass_commitment = state_of pass_app;
}
