-- ===== src/Tests/Latest.antt =====
-- An app installed beside one with a greater sequence number.
use counterfactual.Prelude.{ℕ, ◌<◌, eq_iff, ◌≡◌, ◌≢◌, refl, arith, [], ◌∷◌}
use counterfactual.Prelude.Int.{◌+ℤ◌, ◌-ℤ◌}
use counterfactual.Errors.{ok}
use counterfactual.Dict.{lookup, insert, set_of}
use counterfactual.AppInstance.{AppInstance, set_state, identity_hash}
use counterfactual.FreeBalance.{
  serialize, deserialize, from_app_instance, increment, increment_tokens, increment_token,
  some_negative, add_active_app, convert_coin_transfers_to_map, convert_map_to_coin_transfers,
  to_app_instance,
}
use counterfactual.FreeBalanceApp.{merge, flip, flip_token_indexed_balances}
use counterfactual.StateChannel.{
  StateChannel, all_start_with_xpub, build, free_balance, get_free_balance_class,
  get_signing_keys_for, most_recently_installed_app_instance, later_app,
}
use counterfactual.StateChannel.Apps.{install_app, every_at}
use counterfactual.StateChannel.Funds.{add_active_app_and_increment_free_balance}
use counterfactual.StateChannel.Holding.{Holds}
use counterfactual.StateChannel.Latest.{install_app-most_recent}
use counterfactual.Xkeys.{xkey_kth_address, sort_addresses, precedes, parse_int}
use counterfactual.Tests.{
  toy, toy_laws, accept_all, channel, funds, funds_app, funds-IsSolvent, funds-IsWellFormed, game,
  app_of, stakes, stakes-AreAmounts, playing, read_number, write_number, stroke_count, strokes,
}

abbrev later_game : AppInstance ℕ
later_game = app_of 2 9

abbrev busy : StateChannel ℕ
busy = record channel { app_instances = ("11", later_game) ∷ [] }

busy-Holds : Holds toy busy funds
unfolding all_start_with_xpub
busy-Holds = record {
  app = funds_app;
  here = refl;
  state = refl;
  formed = funds-IsWellFormed;
  xpubs = refl;
}

abbrev busier : StateChannel ℕ
busier = record playing { app_instances = ("11", later_game) ∷ ("1", game) ∷ [] }

install_second : install_app toy accept_all game stakes busy ≡ ok busier
unfolding install_app build get_signing_keys_for sort_addresses every_at identity_hash
    add_active_app_and_increment_free_balance get_free_balance_class from_app_instance deserialize
    increment increment_tokens increment_token some_negative merge flip_token_indexed_balances flip
    add_active_app to_app_instance set_state lookup insert convert_coin_transfers_to_map
    convert_map_to_coin_transfers serialize set_of read_number write_number xkey_kth_address
    precedes parse_int all_start_with_xpub ◌+ℤ◌ ◌-ℤ◌ free_balance strokes stroke_count
install_second = refl

install_app-most_recent_example : game.app_seq_no < later_game.app_seq_no
unfolding most_recently_installed_app_instance later_app lookup identity_hash strokes
install_app-most_recent_example =
    install_app-most_recent toy toy_laws accept_all busy funds busy-Holds game stakes
      {recent = later_game} "11" stakes-AreAmounts funds-IsSolvent install_second refl apart
      (omega arith) refl
  where
    apart : identity_hash toy game ≢ "11"
    apart same = unfold identity_hash strokes in ground (arith, eq_iff "1" "11", same)
