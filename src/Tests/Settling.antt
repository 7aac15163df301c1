-- ===== src/Tests/Settling.antt =====
-- The theorems on the end of virtual apps at Alice, Bob and Ingrid.
use counterfactual.Prelude.{ℕ, ◌==◌, ◌≡◌, refl, some, true, [], ◌∷◌}
use counterfactual.Prelude.Int.{pos, ◌+ℤ◌}
use counterfactual.Errors.{ok}
use counterfactual.Dict.{lookup, insert, erase, of_entries, set_of}
use counterfactual.AppInstance
use counterfactual.AppInstance.{
  AppInstance, identity, identity_hash, set_state, hash_of_latest_state, encoded_latest_state,
}
use counterfactual.FreeBalance.{
  FreeBalance, serialize, deserialize, from_app_instance, increment, increment_tokens,
  increment_token, some_negative, remove_active_app, convert_coin_transfers_to_map,
  convert_map_to_coin_transfers, to_app_instance,
}
use counterfactual.FreeBalanceApp.{merge}
use counterfactual.Outcome.{compute_token_indexed_free_balance_increments, refund_loop}
use counterfactual.StateChannel.{
  StateChannel, all_start_with_xpub, build, construct, free_balance, get_free_balance_class,
  get_app_instance, get_agreement_from_virtual_app,
}
use counterfactual.StateChannel.Apps.{remove_agreement, remove_app_instance}
use counterfactual.StateChannel.Funds.{remove_active_app_and_increment_free_balance}
use counterfactual.StateChannel.Json.{to_json, from_json}
use counterfactual.Store.{Store}
use counterfactual.Create2.{get_create2_multisig_address}
use counterfactual.Xkeys.{
  xkey_kth_address, xkeys_to_sorted_kth_addresses, sort_addresses, precedes, parse_int,
}
use counterfactual.Commitments.{Commitment}
use counterfactual.Protocols.{UninstallVirtualAppParams}
use counterfactual.Engine.{stored_channel, commit_to, free_balance_update}
use counterfactual.Engine.VirtualApp.Settling.{
  SettledUser, SettledMediator, settle_user, settle_mediator, pass_through_commitment, shares,
  has_expired, increments_of, settle_pass_through, get_state_channel_from_map_with_owners,
}
use counterfactual.Engine.VirtualApp.Uninstall.{settling_initiating}
use counterfactual.Engine.Session.Mediated.{mediated_session}
use counterfactual.Engine.Session.Settling.{mediated_session-settled, settled, balanced, kept}
use counterfactual.Tests.{
  toy, accept_all, alice, bob, read_number, write_number, stroke_count, strokes,
}
use counterfactual.Tests.Parties.{toy_signing, toy_signing_laws, context, toy_network, setup_of}
use counterfactual.Tests.Players.{
  ingrid, balances, funds_of, before, stored_with, pass_app, state_of, after,
}

abbrev pub uninstall_virtual : UninstallVirtualAppParams
uninstall_virtual = record {
  initiator_xpub = "xpubA";
  responder_xpub = "xpubB";
  intermediary_xpub = "xpubI";
  target_app_identity_hash = "11";
  target_outcome = "outcome";
}

abbrev alice_playing : Store ℕ
alice_playing = stored_with (
    ("0xwide", after.next.wide)
    ∷ ("0xusers", after.next.direct)
    ∷ ("0xfirst", after.next.initiating)
    ∷ [])

abbrev ingrid_playing : Store ℕ
ingrid_playing = stored_with (
    ("0xwide", after.next.wide)
    ∷ ("0xfirst", after.next.initiating)
    ∷ ("0xsecond", after.next.responding)
    ∷ [])

abbrev bob_playing : Store ℕ
bob_playing = stored_with (
    ("0xwide", after.next.wide)
    ∷ ("0xusers", after.next.direct)
    ∷ ("0xsecond", after.next.responding)
    ∷ [])

abbrev settled_pass : AppInstance ℕ
settled_pass = record pass_app { latest_state = 1; latest_version_number = 1 }

-- Alice gets the 4 that stand in the outcome, and Ingrid gets them from Bob.
abbrev first_balances : FreeBalance
first_balances = balances alice ingrid (pos 11) (pos 3)

abbrev second_balances : FreeBalance
second_balances = balances bob ingrid (pos 8) (pos 6)

abbrev first_channel : StateChannel ℕ
first_channel = record before.initiating {
  free_balance_app_instance = some (funds_of alice first_balances 4);
}

abbrev second_channel : StateChannel ℕ
second_channel = record before.responding {
  free_balance_app_instance = some (funds_of bob second_balances 4);
}

abbrev alice_settled : SettledUser ℕ
alice_settled = record {
  wide = record before.wide { monotonic_num_proposed_apps = 2 };
  mediated = first_channel;
  direct = record before.direct { monotonic_num_proposed_apps = 2 };
  pass_through = settled_pass;
}

abbrev bob_settled : SettledUser ℕ
bob_settled = record alice_settled { mediated = second_channel }

abbrev ingrid_settled : SettledMediator ℕ
ingrid_settled = record {
  wide = alice_settled.wide;
  with_initiating = first_channel;
  with_responding = second_channel;
  pass_through = settled_pass;
}

computed_first :
    settle_user toy accept_all accept_all context.outcomes toy_network context.settlement
      alice_playing uninstall_virtual "xpubA" "xpubB"
      (λ app. true)
    ≡ ok alice_settled
unfolding settle_user get_state_channel_from_map_with_owners get_create2_multisig_address setup_of
    xkeys_to_sorted_kth_addresses sort_addresses precedes parse_int xkey_kth_address stored_channel
    from_json to_json construct all_start_with_xpub of_entries insert AppInstance.from_json
    AppInstance.to_json serialize lookup get_agreement_from_virtual_app get_app_instance has_expired
    increments_of compute_token_indexed_free_balance_increments refund_loop remove_app_instance
    identity_hash erase build shares remove_agreement remove_active_app_and_increment_free_balance
    get_free_balance_class from_app_instance deserialize increment increment_tokens increment_token
    some_negative merge remove_active_app to_app_instance set_state convert_coin_transfers_to_map
    convert_map_to_coin_transfers set_of read_number write_number ◌+ℤ◌ free_balance strokes
    stroke_count settle_pass_through
computed_first = refl

computed_second :
    settle_user toy accept_all accept_all context.outcomes toy_network context.settlement
      bob_playing uninstall_virtual "xpubB" "xpubA"
      (λ app. context.settlement.outcome app == uninstall_virtual.target_outcome)
    ≡ ok bob_settled
unfolding settle_user get_state_channel_from_map_with_owners get_create2_multisig_address setup_of
    xkeys_to_sorted_kth_addresses sort_addresses precedes parse_int xkey_kth_address stored_channel
    from_json to_json construct all_start_with_xpub of_entries insert AppInstance.from_json
    AppInstance.to_json serialize lookup get_agreement_from_virtual_app get_app_instance has_expired
    increments_of compute_token_indexed_free_balance_increments refund_loop remove_app_instance
    identity_hash erase build shares remove_agreement remove_active_app_and_increment_free_balance
    get_free_balance_class from_app_instance deserialize increment increment_tokens increment_token
    some_negative merge remove_active_app to_app_instance set_state convert_coin_transfers_to_map
    convert_map_to_coin_transfers set_of read_number write_number ◌+ℤ◌ free_balance strokes
    stroke_count settle_pass_through
computed_second = refl

computed_middle :
    settle_mediator toy accept_all accept_all context.outcomes toy_network context.settlement
      ingrid_playing uninstall_virtual
    ≡ ok ingrid_settled
unfolding settle_mediator get_state_channel_from_map_with_owners get_create2_multisig_address
    setup_of xkeys_to_sorted_kth_addresses sort_addresses precedes parse_int xkey_kth_address
    stored_channel from_json to_json construct all_start_with_xpub of_entries insert
    AppInstance.from_json AppInstance.to_json serialize lookup get_agreement_from_virtual_app
    get_app_instance has_expired increments_of compute_token_indexed_free_balance_increments
    refund_loop remove_app_instance identity_hash erase build shares remove_agreement
    remove_active_app_and_increment_free_balance get_free_balance_class from_app_instance
    deserialize increment increment_tokens increment_token some_negative merge remove_active_app
    to_app_instance set_state convert_coin_transfers_to_map convert_map_to_coin_transfers set_of
    read_number write_number ◌+ℤ◌ free_balance strokes stroke_count settle_pass_through
computed_middle = refl

abbrev pass_commitment : Commitment
pass_commitment = state_of settled_pass

passed : pass_through_commitment toy accept_all toy_network settled_pass ≡ ok pass_commitment
unfolding pass_through_commitment hash_of_latest_state encoded_latest_state
passed = refl

abbrev first_balance : Commitment
first_balance = state_of (funds_of alice first_balances 4)

abbrev second_balance : Commitment
second_balance = state_of (funds_of bob second_balances 4)

first_update : free_balance_update toy accept_all toy_network first_channel ≡ ok ("", first_balance)
unfolding free_balance_update free_balance commit_to hash_of_latest_state identity_hash strokes
    encoded_latest_state
first_update = refl

second_update :
    free_balance_update toy accept_all toy_network second_channel ≡ ok ("", second_balance)
unfolding free_balance_update free_balance commit_to hash_of_latest_state identity_hash strokes
    encoded_latest_state
second_update = refl

mediated_session-settled_example :
    mediated_session context "xpubA" "xpubI" "xpubB"
      (settling_initiating toy toy_signing accept_all accept_all context.outcomes toy_network
        context.settlement alice_playing "process" uninstall_virtual)
      alice_playing
      ingrid_playing
      bob_playing
    ≡ ok (
      kept context alice_settled.direct (
          kept context alice_settled.wide (
            kept context first_channel (
              balanced context "" first_balance "xpubA" "xpubI" (
                settled context
                  (identity_hash toy settled_pass)
                  pass_commitment
                  "xpubA"
                  "xpubI"
                  "xpubB"
                  alice_playing)))),
      kept context second_channel (
          kept context alice_settled.wide (
            kept context first_channel (
              balanced context "" second_balance "xpubB" "xpubI" (
                balanced context "" first_balance "xpubA" "xpubI" (
                  settled context
                    (identity_hash toy settled_pass)
                    pass_commitment
                    "xpubA"
                    "xpubI"
                    "xpubB"
                    ingrid_playing))))),
      kept context bob_settled.direct (
          kept context bob_settled.wide (
            kept context second_channel (
              balanced context "" second_balance "xpubI" "xpubB" (
                settled context
                  (identity_hash toy settled_pass)
                  pass_commitment
                  "xpubB"
                  "xpubA"
                  "xpubI"
                  bob_playing)))),
    )
mediated_session-settled_example =
    mediated_session-settled context toy_signing_laws uninstall_virtual alice_playing ingrid_playing
      bob_playing "process" refl computed_first computed_middle computed_second passed passed passed
      first_update first_update second_update second_update
