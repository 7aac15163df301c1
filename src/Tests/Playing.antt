-- ===== src/Tests/Playing.antt =====
-- The theorem on virtual apps at Alice, Bob and Ingrid.
use counterfactual.Prelude.{ℕ, ◌≡◌, refl, none, some}
use counterfactual.Prelude.Int.{◌+ℤ◌, ◌-ℤ◌}
use counterfactual.Errors.{ok}
use counterfactual.Dict.{lookup, insert, of_entries, set_of}
use counterfactual.AppInstance
use counterfactual.AppInstance.{
  AppInstance, identity, identity_hash, set_state, hash_of_latest_state, encoded_latest_state,
  two_party_fixed_outcome,
}
use counterfactual.FreeBalance.{
  serialize, deserialize, from_app_instance, increment, increment_tokens, increment_token,
  some_negative, add_active_app, convert_coin_transfers_to_map, convert_map_to_coin_transfers,
  to_app_instance,
}
use counterfactual.FreeBalanceApp.{merge, flip}
use counterfactual.StateChannel.{
  all_start_with_xpub, build, construct, free_balance, get_free_balance_class, first_two_have,
  get_signing_keys_for, multisig_owners, get_multisig_owner_addr_of, get_agreement_from_virtual_app,
}
use counterfactual.StateChannel.Apps.{add_agreement, add_app_instance}
use counterfactual.StateChannel.Funds.{
  add_active_app_and_increment_free_balance, create_empty_channel,
}
use counterfactual.StateChannel.Json.{to_json, from_json}
use counterfactual.Store.{Store}
use counterfactual.Create2.{get_create2_multisig_address}
use counterfactual.Xkeys.{
  xkey_kth_address, xkeys_to_sorted_kth_addresses, sort_addresses, precedes, parse_int,
}
use counterfactual.Engine.{stored_channel, commit_to, free_balance_update}
use counterfactual.Engine.VirtualApp.{
  get_or_create_state_channel_with_users, stored_or_new, construct_virtual_app_instance,
  construct_pass_through_app_instance, virtual_interpreter_parameters, mediation_channel, agree_on,
  agreement_transaction, initiating_decrements, responding_decrements, commit_to_app,
}
use counterfactual.Engine.VirtualApp.Install.{virtual_initiating}
use counterfactual.Engine.Session.Mediated.{mediated_session}
use counterfactual.Engine.Session.Playing.{
  IsStored, IsMediated, Computes, Owns, all_three, both_users,
}
use counterfactual.Engine.Session.Playing.Together.{
  mediated_session-virtual, save, initiator_files, mediator_files, responder_files,
}
use counterfactual.Tests.{toy, accept_all, read_number, write_number, stroke_count, strokes}
use counterfactual.Tests.Parties.{toy_signing, toy_signing_laws, context, toy_network, setup_of}
use counterfactual.Tests.Players.{
  after, alice_store, before, bob_store, ingrid_store, install_virtual,
}

computed : Computes context install_virtual before after
unfolding construct_virtual_app_instance virtual_interpreter_parameters
    construct_pass_through_app_instance sort_addresses precedes parse_int xkey_kth_address
    add_app_instance agree_on add_agreement initiating_decrements responding_decrements
    agreement_transaction free_balance_update commit_to commit_to_app build get_signing_keys_for
    multisig_owners get_agreement_from_virtual_app identity_hash
    add_active_app_and_increment_free_balance get_free_balance_class from_app_instance deserialize
    increment increment_tokens increment_token some_negative merge flip add_active_app
    to_app_instance set_state lookup insert convert_coin_transfers_to_map
    convert_map_to_coin_transfers serialize set_of read_number write_number all_start_with_xpub ◌+ℤ◌
    ◌-ℤ◌ free_balance strokes stroke_count hash_of_latest_state encoded_latest_state
computed = record {
  virtual_app = refl;
  pass_through = refl;
  wide = refl;
  direct = refl;
  initiating = refl;
  responding = refl;
  initiating_agreement = refl;
  responding_agreement = refl;
  initiating_balance = refl;
  responding_balance = refl;
  app_commitment = refl;
  pass_commitment = refl;
}

owned : Owns context install_virtual after
unfolding get_multisig_owner_addr_of first_two_have multisig_owners get_signing_keys_for
    sort_addresses precedes parse_int xkey_kth_address
owned = record {
  initiator = refl;
  initiating_intermediary = refl;
  responder = refl;
  responding_intermediary = refl;
  first_user = refl;
  second_user = refl;
}

new_wide :
    (store : Store ℕ)
    → lookup "0xwide" store.shared_data.state_channels_map ≡ none
    → IsStored context install_virtual store (all_three context install_virtual) before.wide
unfolding get_or_create_state_channel_with_users stored_or_new get_create2_multisig_address setup_of
    xkeys_to_sorted_kth_addresses sort_addresses precedes parse_int xkey_kth_address
    create_empty_channel construct all_start_with_xpub
new_wide store missing = record { found = rw missing refl }

new_direct :
    (store : Store ℕ)
    → lookup "0xusers" store.shared_data.state_channels_map ≡ none
    → IsStored context install_virtual store (both_users context install_virtual) before.direct
unfolding get_or_create_state_channel_with_users stored_or_new get_create2_multisig_address setup_of
    xkeys_to_sorted_kth_addresses sort_addresses precedes parse_int xkey_kth_address
    create_empty_channel construct all_start_with_xpub
new_direct store missing = record { found = rw missing refl }

stored_first :
    (store : Store ℕ)
    → lookup "0xfirst" store.shared_data.state_channels_map ≡ some (to_json toy before.initiating)
    → IsMediated context install_virtual store "xpubA" before.initiating
unfolding mediation_channel get_create2_multisig_address setup_of xkeys_to_sorted_kth_addresses
    sort_addresses precedes parse_int xkey_kth_address stored_channel from_json to_json construct
    all_start_with_xpub of_entries insert AppInstance.from_json AppInstance.to_json serialize
stored_first store there = record { found = rw there refl }

stored_second :
    (store : Store ℕ)
    → lookup "0xsecond" store.shared_data.state_channels_map ≡ some (to_json toy before.responding)
    → IsMediated context install_virtual store "xpubB" before.responding
unfolding mediation_channel get_create2_multisig_address setup_of xkeys_to_sorted_kth_addresses
    sort_addresses precedes parse_int xkey_kth_address stored_channel from_json to_json construct
    all_start_with_xpub of_entries insert AppInstance.from_json AppInstance.to_json serialize
stored_second store there = record { found = rw there refl }

mediated_session-virtual_example :
    mediated_session context "xpubA" "xpubI" "xpubB"
      (virtual_initiating toy toy_signing accept_all accept_all toy_network context.mediation
        alice_store "process" install_virtual)
      alice_store
      ingrid_store
      bob_store
    ≡ ok (
      save context after.next.wide (
          save context after.next.direct (
            save context after.next.initiating
              (initiator_files context install_virtual after alice_store))),
      save context after.next.initiating (
          save context after.next.responding (
            save context after.next.wide
              (mediator_files context install_virtual after ingrid_store))),
      save context after.next.direct (
          save context after.next.wide (
            save context after.next.responding
              (responder_files context install_virtual after bob_store))),
    )
unfolding lookup
mediated_session-virtual_example =
    mediated_session-virtual context toy_signing_laws install_virtual alice_store ingrid_store
      bob_store "process" refl computed owned (new_wide alice_store refl)
      (new_wide ingrid_store refl) (new_wide bob_store refl) (new_direct alice_store refl)
      (new_direct bob_store refl) (stored_first alice_store refl) (stored_first ingrid_store refl)
      (stored_second ingrid_store refl) (stored_second bob_store refl)
