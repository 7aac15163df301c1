-- ===== src/Tests/Payouts.antt =====
-- The theorem on what a virtual app pays, where the users' keys differ with their number.
use counterfactual.Prelude.{
  ℕ, ◌==◌, ◌≡◌, refl, some, true, [], ◌∷◌, String, eqb, eq_iff, ◌≢◌, arith, false, none,
  if◌then◌else◌,
}
use counterfactual.Prelude.Int.{pos, ◌+ℤ◌}
use counterfactual.Errors.{ok}
use counterfactual.Dict.{lookup, insert, erase, of_entries, set_of}
use counterfactual.AppInstance
use counterfactual.AppInstance.{
  AppInstance, identity, identity_hash, set_state, hash_of_latest_state, encoded_latest_state,
  two_party_params,
}
use counterfactual.FreeBalance.{
  FreeBalance, serialize, deserialize, from_app_instance, increment, increment_tokens,
  increment_token, some_negative, remove_active_app, convert_coin_transfers_to_map,
  convert_map_to_coin_transfers, to_app_instance, eth_token_address,
}
use counterfactual.FreeBalanceApp.{merge}
use counterfactual.Outcome.{
  compute_token_indexed_free_balance_increments, OutcomeDecoder, handle_two_party_fixed_outcome,
}
use counterfactual.StateChannel.{
  StateChannel, all_start_with_xpub, build, construct, free_balance, get_free_balance_class,
  get_app_instance, get_agreement_from_virtual_app,
}
use counterfactual.StateChannel.Apps.{remove_agreement, remove_app_instance}
use counterfactual.StateChannel.Funds.{remove_active_app_and_increment_free_balance}
use counterfactual.StateChannel.Json.{to_json, from_json}
use counterfactual.Store.{Store}
use counterfactual.Create2.{get_create2_multisig_address}
use counterfactual.Xkeys.{
  xkey_kth_address, xkeys_to_sorted_kth_addresses, sort_addresses, precedes, parse_int,
}
use counterfactual.Engine.{stored_channel}
use counterfactual.Engine.VirtualApp.Settling.{
  SettledUser, settle_user, shares, has_expired, increments_of, settle_pass_through,
  get_state_channel_from_map_with_owners,
}
use counterfactual.Tests.{
  toy, accept_all, alice, bob, read_number, write_number, stroke_count, strokes, toy_laws,
}
use counterfactual.Tests.Parties.{context, toy_network, setup_of}
use counterfactual.Tests.Players.{
  ingrid, balances, funds_of, stored_with, pass_app, after, install_virtual, played_app,
}
use counterfactual.External.{Ethers, EthersLaws}
use counterfactual.Engine.VirtualApp.{
  construct_virtual_app_instance, virtual_interpreter_parameters,
}
use counterfactual.Engine.VirtualApp.Payouts.{settle_user-unpaid, stored}
use counterfactual.Tests.Settling.{uninstall_virtual}
use counterfactual.Engine.Uninstall.{Outcomes}
use counterfactual.StateChannel.Holding.{Holds}
use counterfactual.FreeBalance.Conversion.{balance_at}

abbrev numbered : Ethers
numbered = record toy {
  compute_address = λ xkey k.
      if eqb k 0 then toy.compute_address xkey 0 else if xkey == "xpubA" then "0x1a" else "0x1b";
}

numbered_laws : EthersLaws numbered
numbered_laws = record { big_numberify-to_hex_string = toy_laws.big_numberify-to_hex_string }

-- The first player wins.
abbrev first_wins : OutcomeDecoder
first_wins = record {
  two_transfers = λ outcome. none;
  number = λ outcome. some 0;
  transfer_lists = λ outcome. none;
}

abbrev numbered_app : AppInstance ℕ
numbered_app = record played_app {
  participants = "0x1a" ∷ "0x1b" ∷ [];
  two_party_internal = some (record {
    player_addrs = ("0x1a", "0x1b");
    amount = "p11111";
    token_address = eth_token_address;
  });
}

made : construct_virtual_app_instance numbered install_virtual ≡ ok numbered_app
unfolding construct_virtual_app_instance virtual_interpreter_parameters sort_addresses precedes
    parse_int xkey_kth_address ◌+ℤ◌ write_number strokes
made = refl

-- The channels of Alice with the app, and her store.
abbrev wide_channel : StateChannel ℕ
wide_channel = after.next.wide

abbrev alice_channel : StateChannel ℕ
alice_channel = after.next.initiating

abbrev users_channel : StateChannel ℕ
users_channel = record after.next.direct { app_instances = ("11", numbered_app) ∷ [] }

abbrev alice_numbered : Store ℕ
alice_numbered =
    stored_with
      (("0xwide", wide_channel) ∷ ("0xusers", users_channel) ∷ ("0xfirst", alice_channel) ∷ [])

abbrev outcomes : Outcomes ℕ
outcomes = record {
  decoder = first_wins;
  chain = λ app n. some "outcome";
  refund_token = λ state. none;
}

abbrev alice_funds : FreeBalance
alice_funds = record (balances alice ingrid (pos 7) (pos 3)) { active_apps_map = ("11", tt) ∷ [] }

alice_channel-Holds : Holds numbered alice_channel alice_funds
unfolding serialize lookup all_start_with_xpub
alice_channel-Holds = record {
  app = funds_of alice alice_funds 2;
  here = refl;
  state = refl;
  formed = record { active = (refl, tt); distinct = (refl, tt); checksummed = (refl, tt) };
  xpubs = refl;
}

-- Alice's channel with Ingrid, without the app and with the same 7 and 3.
abbrev alice_unpaid : SettledUser ℕ
alice_unpaid = record {
  wide = record wide_channel { app_instances = [] };
  mediated = record alice_channel {
    agreements = [];
    free_balance_app_instance = some (funds_of alice (balances alice ingrid (pos 7) (pos 3)) 4);
  };
  direct = record users_channel { app_instances = [] };
  pass_through = record pass_app { latest_state = 1; latest_version_number = 1 };
}

stored_wide :
    stored numbered numbered_laws accept_all accept_all outcomes toy_network context.settlement
      alice_numbered
      ("xpubA" ∷ "xpubB" ∷ "xpubI" ∷ [])
    ≡ ok wide_channel
unfolding get_state_channel_from_map_with_owners get_create2_multisig_address setup_of
    xkeys_to_sorted_kth_addresses sort_addresses precedes parse_int xkey_kth_address stored_channel
    from_json to_json construct all_start_with_xpub of_entries insert AppInstance.from_json
    AppInstance.to_json serialize lookup strokes
stored_wide = refl

stored_mediated :
    stored numbered numbered_laws accept_all accept_all outcomes toy_network context.settlement
      alice_numbered
      ("xpubA" ∷ "xpubI" ∷ [])
    ≡ ok alice_channel
unfolding get_state_channel_from_map_with_owners get_create2_multisig_address setup_of
    xkeys_to_sorted_kth_addresses sort_addresses precedes parse_int xkey_kth_address stored_channel
    from_json to_json construct all_start_with_xpub of_entries insert AppInstance.from_json
    AppInstance.to_json serialize lookup strokes
stored_mediated = refl

stored_users :
    stored numbered numbered_laws accept_all accept_all outcomes toy_network context.settlement
      alice_numbered
      ("xpubA" ∷ "xpubB" ∷ [])
    ≡ ok users_channel
unfolding get_state_channel_from_map_with_owners get_create2_multisig_address setup_of
    xkeys_to_sorted_kth_addresses sort_addresses precedes parse_int xkey_kth_address stored_channel
    from_json to_json construct all_start_with_xpub of_entries insert AppInstance.from_json
    AppInstance.to_json serialize lookup strokes
stored_users = refl

computed_unpaid :
    settle_user numbered accept_all accept_all outcomes toy_network context.settlement
      alice_numbered uninstall_virtual "xpubA" "xpubB"
      (λ app. true)
    ≡ ok alice_unpaid
unfolding settle_user get_state_channel_from_map_with_owners get_create2_multisig_address setup_of
    xkeys_to_sorted_kth_addresses sort_addresses precedes parse_int xkey_kth_address stored_channel
    from_json to_json construct all_start_with_xpub of_entries insert AppInstance.from_json
    AppInstance.to_json serialize lookup get_agreement_from_virtual_app get_app_instance has_expired
    increments_of compute_token_indexed_free_balance_increments handle_two_party_fixed_outcome
    two_party_params remove_app_instance identity_hash erase build shares remove_agreement
    remove_active_app_and_increment_free_balance get_free_balance_class from_app_instance
    deserialize increment increment_tokens increment_token some_negative merge remove_active_app
    to_app_instance set_state convert_coin_transfers_to_map convert_map_to_coin_transfers set_of
    read_number write_number ◌+ℤ◌ free_balance strokes stroke_count settle_pass_through
computed_unpaid = refl

settle_user-unpaid_example :
    (fb' : FreeBalance) × Holds numbered alice_unpaid.mediated fb'
    × ((token who : String) → balance_at fb' token who ≡ balance_at alice_funds token who)
unfolding xkey_kth_address get_agreement_from_virtual_app get_app_instance lookup has_expired
settle_user-unpaid_example =
    settle_user-unpaid numbered numbered_laws accept_all accept_all outcomes toy_network
      context.settlement alice_numbered install_virtual uninstall_virtual "xpubA" "xpubB"
      (λ app. true) stored_wide stored_mediated stored_users refl refl refl refl refl refl
      alice_channel-Holds refl made refl refl refl (apart alice "0x1a" refl)
      (apart alice "0x1b" refl) (apart bob "0x1a" refl) (apart bob "0x1b" refl) computed_unpaid
  where
    apart : (a b : String) → (a == b) ≡ false → a ≢ b
    apart a b test same = ground (arith, eq_iff a b, test, same)
