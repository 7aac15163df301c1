-- ===== src/Tests/Channels.antt =====
-- The theorems on channels at the concrete channel.
use counterfactual.Prelude.{ℕ, String, ◌≡◌, refl, true, none, some, [], ◌∷◌, arith}
use counterfactual.Prelude.Int.{pos, ◌-ℤ◌, ◌≤ℤ◌}
use counterfactual.Errors.{ok}
use counterfactual.Dict.{lookup, insert, erase}
use counterfactual.AppInstance.{identity_hash, two_party_fixed_outcome, AppInstance}
use counterfactual.FreeBalance.{FreeBalance, serialize, convert_coin_transfers_to_map}
use counterfactual.FreeBalance.Conversion.{balance_at}
use counterfactual.Xkeys.{sort_addresses, precedes, parse_int, xkey_kth_address}
use counterfactual.FreeBalance.Loop.{amount_for}
use counterfactual.FreeBalance.Increment.{IsSolvent, RaisedBy}
use counterfactual.FreeBalance.WellFormed.{IsWellFormed}
use counterfactual.StateChannel.{
  StateChannel, AppInstanceProposal, get_signing_keys_for, num_proposed_apps,
  most_recently_proposed_app_instance, all_start_with_xpub,
}
use counterfactual.StateChannel.Apps.{install_app, uninstall_app, every_at, add_proposal}
use counterfactual.StateChannel.Holding.{Holds}
use counterfactual.StateChannel.Installing.{LoweredBy, installed, install_app_lem}
use counterfactual.StateChannel.Uninstalling.{
  uninstalled, uninstall_app_lem, uninstall_app-install_app,
}
use counterfactual.StateChannel.Success.{install_app_returns, uninstall_app_returns}
use counterfactual.StateChannel.Json.{to_json, from_json}
use counterfactual.StateChannel.RoundTrip.{IsStorable, from_json-to_json_channel}
use counterfactual.StateChannel.Proposals.{IsNumbered, add_proposal-most_recent}
use counterfactual.Tests.{
  strokes, toy, toy_laws, accept_all, alice, bob, funds, funds_app, funds-IsSolvent, channel,
  channel-Holds, game, stakes, stakes-AreAmounts, left_funds, playing, settled, install_game,
  uninstall_game,
}

install_app_lem_example :
    (every_at (get_signing_keys_for toy channel 1) (alice ∷ bob ∷ []) ≡ true)
    × (fb' : FreeBalance) × (playing
        ≡ installed toy toy_laws accept_all channel funds channel-Holds game stakes fb')
    × Holds toy playing fb'
    × LoweredBy stakes funds fb'
    × IsSolvent fb'
    × (fb'.active_apps_map ≡ insert (identity_hash toy game) tt [])
install_app_lem_example =
    install_app_lem toy toy_laws accept_all channel funds channel-Holds game stakes
      stakes-AreAmounts funds-IsSolvent install_game

install_app_returns_example :
    (sc' : StateChannel ℕ) × (install_app toy accept_all game stakes channel ≡ ok sc')
unfolding every_at get_signing_keys_for sort_addresses precedes parse_int xkey_kth_address lookup
    insert convert_coin_transfers_to_map ◌-ℤ◌
install_app_returns_example =
    install_app_returns toy toy_laws accept_all channel funds channel-Holds game stakes
      stakes-AreAmounts signed covered (λ fb₁ _. (("bytes", refl), ("bytes", refl)))
  where
    signed : every_at (get_signing_keys_for toy channel 1) (alice ∷ bob ∷ []) ≡ true
    signed = refl

    covered : (t a : String) → pos 0 ≤ℤ balance_at funds t a -ℤ amount_for stakes t a
    covered t a = ground arith

left_funds-IsWellFormed : IsWellFormed toy left_funds
unfolding lookup
left_funds-IsWellFormed = record {
  active = (refl, tt);
  distinct = (refl, tt);
  checksummed = (refl, tt);
}

playing-Holds : Holds toy playing left_funds
unfolding all_start_with_xpub
playing-Holds = record {
  app = record funds_app { latest_state = serialize toy left_funds; latest_version_number = 2 };
  here = refl;
  state = refl;
  formed = left_funds-IsWellFormed;
  xpubs = refl;
}

left_funds-IsSolvent : IsSolvent left_funds
unfolding lookup convert_coin_transfers_to_map insert
left_funds-IsSolvent = record { nonneg = λ t a. ground arith }

uninstall_app_lem_example :
    (app : AppInstance ℕ) × (lookup "1" playing.app_instances ≡ some app)
    × (identity_hash toy app ≡ "1")
    × (fb' : FreeBalance) × (settled
        ≡ uninstalled toy toy_laws accept_all playing left_funds playing-Holds "1" stakes fb')
    × Holds toy settled fb'
    × RaisedBy stakes left_funds fb'
    × IsSolvent fb'
    × (fb'.active_apps_map ≡ erase "1" left_funds.active_apps_map)
uninstall_app_lem_example =
    uninstall_app_lem toy toy_laws accept_all playing left_funds playing-Holds "1" stakes
      stakes-AreAmounts left_funds-IsSolvent uninstall_game

uninstall_app_returns_example :
    (sc' : StateChannel ℕ) × (uninstall_app toy accept_all "1" stakes playing ≡ ok sc')
unfolding lookup identity_hash strokes convert_coin_transfers_to_map insert
uninstall_app_returns_example =
    uninstall_app_returns toy toy_laws accept_all playing left_funds playing-Holds "1" stakes
      stakes-AreAmounts refl refl left_funds-IsSolvent paid ("bytes", refl)
      (λ fb₂ _. ("bytes", refl))
  where
    paid : (t a : String) → pos 0 ≤ℤ amount_for stakes t a
    paid t a = ground arith

uninstall_app-install_app_example :
    (fb'' : FreeBalance) × Holds toy settled fb''
    × ((t a : String) → balance_at fb'' t a ≡ balance_at funds t a)
    × (settled.app_instances ≡ [])
unfolding lookup
uninstall_app-install_app_example =
    uninstall_app-install_app toy toy_laws accept_all channel funds channel-Holds game stakes
      stakes-AreAmounts funds-IsSolvent refl install_game settle
  where
    settle : uninstall_app toy accept_all (identity_hash toy game) stakes playing ≡ ok settled
    settle = unfold identity_hash strokes in uninstall_game

channel-IsStorable : IsStorable playing
unfolding lookup all_start_with_xpub
channel-IsStorable = record {
  proposals = tt;
  apps = (refl, tt);
  virtual_agreements = tt;
  xpubs = refl;
}

from_json-to_json_channel_example : from_json (to_json toy playing) ≡ ok playing
from_json-to_json_channel_example = from_json-to_json_channel toy playing channel-IsStorable

abbrev pub proposal : AppInstanceProposal ℕ
proposal = record {
  identity_hash = "2";
  app_definition = "0xapp";
  abi_encodings = record { state_encoding = "tuple()"; action_encoding = none };
  initiator_deposit = "p";
  initiator_deposit_token_address = "0xtoken";
  responder_deposit = "p";
  responder_deposit_token_address = "0xtoken";
  timeout = "p1";
  initial_state = 0;
  app_seq_no = 2;
  proposed_by_identifier = "xpubA";
  proposed_to_identifier = "xpubB";
  intermediary_identifier = none;
  outcome_type = two_party_fixed_outcome;
}

add_proposal-most_recent_example :
    (sc' : StateChannel ℕ) × (add_proposal proposal channel ≡ ok sc')
    × (most_recently_proposed_app_instance sc' ≡ ok proposal)
    × (num_proposed_apps sc' ≡ 2)
    × IsNumbered sc'
unfolding all_start_with_xpub
add_proposal-most_recent_example = add_proposal-most_recent channel proposal refl tt refl
