-- ===== src/Tests/Installs.antt =====
-- The theorem on the transition of the install protocol at the concrete channel.
use counterfactual.Prelude.{ℕ, eq_iff, ◌≡◌, ◌≢◌, refl, arith, false, some, [], ◌∷◌}
use counterfactual.Prelude.Int.{pos, ◌+ℤ◌, ◌-ℤ◌}
use counterfactual.Errors.{ok}
use counterfactual.Dict.{lookup, insert, set_of}
use counterfactual.AppInstance.{set_state, identity_hash, two_party_fixed_outcome}
use counterfactual.FreeBalance.{
  FreeBalance, eth_token_address, serialize, deserialize, from_app_instance, increment,
  increment_tokens, increment_token, some_negative, add_active_app, convert_coin_transfers_to_map,
  convert_map_to_coin_transfers, to_app_instance,
}
use counterfactual.FreeBalance.Conversion.{balance_at}
use counterfactual.FreeBalance.Increment.{IsSolvent}
use counterfactual.FreeBalanceApp.{merge, flip, flip_token_indexed_balances}
use counterfactual.StateChannel.{
  StateChannel, all_start_with_xpub, build, free_balance, get_free_balance_class,
  get_free_balance_addr_of, get_signing_keys_for,
}
use counterfactual.StateChannel.Apps.{install_app, every_at}
use counterfactual.StateChannel.Funds.{add_active_app_and_increment_free_balance}
use counterfactual.StateChannel.Holding.{Holds}
use counterfactual.Xkeys.{xkey_kth_address, sort_addresses, precedes, parse_int}
use counterfactual.Protocols.{InstallParams}
use counterfactual.Engine.Install.{
  compute_state_channel_transition, compute_interpreter_parameters, app_to_be_installed,
  token_indexed_balance_decrement,
}
use counterfactual.Engine.Install.Decrements.{compute_state_channel_transition-charges}
use counterfactual.Tests.{
  toy, toy_laws, accept_all, alice, bob, any_interface, channel, channel-Holds, funds,
  funds-IsSolvent, game, playing, read_number, write_number, stroke_count, strokes,
}

abbrev pub install_params : InstallParams ℕ
install_params = record {
  initiator_xpub = "xpubA";
  initiator_deposit_token_address = eth_token_address;
  responder_xpub = "xpubB";
  responder_deposit_token_address = eth_token_address;
  multisig_address = "0xmultisig";
  initiator_balance_decrement = pos 3;
  responder_balance_decrement = pos 2;
  participants = alice ∷ bob ∷ [];
  initial_state = 7;
  app_interface = any_interface;
  default_timeout = 100;
  app_seq_no = 1;
  outcome_type = two_party_fixed_outcome;
  disable_limit = false;
}

-- The game with what it pays out.
abbrev pub funded : StateChannel ℕ
funded = record playing {
  app_instances =
      (
        "1",
        record game {
          two_party_internal = some (record {
            player_addrs = (alice, bob);
            amount = "p11111";
            token_address = eth_token_address;
          });
        },
      )
      ∷ [];
}

pub computed_install :
    compute_state_channel_transition toy accept_all "max" channel install_params ≡ ok funded
unfolding compute_state_channel_transition compute_interpreter_parameters get_free_balance_addr_of
    app_to_be_installed token_indexed_balance_decrement install_app build get_signing_keys_for
    sort_addresses every_at identity_hash add_active_app_and_increment_free_balance
    get_free_balance_class from_app_instance deserialize increment increment_tokens increment_token
    some_negative merge flip_token_indexed_balances flip add_active_app to_app_instance set_state
    lookup insert convert_coin_transfers_to_map convert_map_to_coin_transfers serialize set_of
    read_number write_number xkey_kth_address precedes parse_int all_start_with_xpub ◌+ℤ◌ ◌-ℤ◌
    free_balance strokes stroke_count
computed_install = refl

compute_state_channel_transition-charges_example :
    (fb' : FreeBalance) × Holds toy funded fb'
    × IsSolvent fb'
    × (balance_at fb' eth_token_address (xkey_kth_address toy "xpubA" 0)
        ≡ balance_at funds eth_token_address (xkey_kth_address toy "xpubA" 0) -ℤ pos 3)
    × (balance_at fb' eth_token_address (xkey_kth_address toy "xpubB" 0)
        ≡ balance_at funds eth_token_address (xkey_kth_address toy "xpubB" 0) -ℤ pos 2)
compute_state_channel_transition-charges_example =
    compute_state_channel_transition-charges toy toy_laws accept_all "max" channel funds
      channel-Holds install_params refl refl apart funds-IsSolvent computed_install
  where
    apart : xkey_kth_address toy "xpubA" 0 ≢ xkey_kth_address toy "xpubB" 0
    apart same = unfold xkey_kth_address in ground (arith, eq_iff alice bob, same)
