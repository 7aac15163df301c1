-- ===== src/Tests/Withdrawing.antt =====
-- The theorem on withdrawal at two parties.
use counterfactual.Prelude.{ℕ, String, false, none, some, [], ◌∷◌}
use counterfactual.Prelude.Int.{pos}
use counterfactual.AppInstance
use counterfactual.AppInstance.{AppInstance, single_asset_two_party_coin_transfer, identity}
use counterfactual.FreeBalance.{FreeBalance, FreeBalanceApp, eth_token_address, serialize}
use counterfactual.StateChannel.{StateChannel, multisig_owners}
use counterfactual.Store.{Store, set_commitment}
use counterfactual.Commitments.{
  Commitment, set_state_commitment, multisig_commitment, conditional_action,
}
use counterfactual.Protocols.{WithdrawParams}
use counterfactual.Engine.Withdraw.{coin_balance_refund_state_encoding, Refund}
use counterfactual.Engine.Session.Agreement.{both_signed}
use counterfactual.Tests.{toy, alice, bob, channel, funds_app}
use counterfactual.Tests.Parties.{toy_signing, toy_network}

-- Alice takes out 3 of the chain's coin.
abbrev take_out : WithdrawParams
take_out = record {
  initiator_xpub = "xpubA";
  responder_xpub = "xpubB";
  multisig_address = "0xmultisig";
  recipient = "0xalice";
  amount = pos 3;
  token_address = eth_token_address;
}

abbrev refund_app : AppInstance ℕ
refund_app = record {
  participants = alice ∷ bob ∷ [];
  default_timeout = 1008;
  app_interface = record {
    addr = "0xrefund";
    state_encoding = coin_balance_refund_state_encoding;
    action_encoding = none;
  };
  is_virtual_app = false;
  app_seq_no = 1;
  latest_state = 0;
  latest_version_number = 0;
  latest_timeout = 1008;
  outcome_type = single_asset_two_party_coin_transfer;
  two_party_internal = none;
  multi_asset_internal = none;
  single_asset_internal = some (record { limit = "max"; token_address = eth_token_address });
}

-- Alice has 7 of her 10 left, first with the refund app and then without it.
abbrev reduced_funds : FreeBalance
reduced_funds = record {
  active_apps_map = [];
  balances_indexed_by_token =
      (
        eth_token_address,
        record { to = alice; amount = pos 7 } ∷ record { to = bob; amount = pos 5 } ∷ [],
      )
      ∷ [];
}

abbrev guarded_app : FreeBalanceApp
guarded_app = record funds_app {
  latest_state = serialize toy (record reduced_funds { active_apps_map = ("1", tt) ∷ [] });
  latest_version_number = 2;
}

abbrev reduced_app : FreeBalanceApp
reduced_app = record funds_app {
  latest_state = serialize toy reduced_funds;
  latest_version_number = 4;
}

abbrev guarded : StateChannel ℕ
guarded = record channel {
  app_instances = ("1", refund_app) ∷ [];
  free_balance_app_instance = some guarded_app;
}

abbrev reduced : StateChannel ℕ
reduced = record channel { free_balance_app_instance = some reduced_app }

abbrev refund : Refund ℕ
refund = record {
  counterparty = bob;
  channel = guarded;
  app = refund_app;
  conditional = multisig_commitment (record {
    multisig = "0xmultisig";
    multisig_owners = alice ∷ bob ∷ [];
    action = conditional_action toy_network "1" "" "0xsingle" "single";
  });
}

abbrev balance_at_version : ℕ → Commitment
balance_at_version n = set_state_commitment (record {
  network_context = toy_network;
  app_identity = identity funds_app;
  hashed_app_state = "bytes";
  app_version_number = n;
  timeout = 100;
})

abbrev removal_of : String → String → Store ℕ → Store ℕ
removal_of self other store =
    set_commitment toy ("update" ∷ "" ∷ [])
      (both_signed toy toy_signing (balance_at_version 4) self other) store
