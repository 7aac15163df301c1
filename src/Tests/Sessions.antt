-- ===== src/Tests/Sessions.antt =====
-- The theorems on protocols at two parties that store the same channel.
use counterfactual.Prelude.{ltb, ◌==◌, if◌then◌else◌, ℕ, ◌≡◌, refl, none, some, [], ◌∷◌}
use counterfactual.Prelude.Int.{pos, ◌+ℤ◌}
use counterfactual.Errors.{ok}
use counterfactual.Dict.{lookup, insert, erase, of_entries, set_of}
use counterfactual.AppInstance.{
  AppInstance, identity, identity_hash, hash_of_latest_state, encoded_latest_state,
}
use counterfactual.AppInstance
use counterfactual.FreeBalance.{
  FreeBalance, FreeBalanceApp, eth_token_address, serialize, deserialize, from_app_instance,
  increment, increment_tokens, increment_token, some_negative, convert_coin_transfers_to_map,
  convert_map_to_coin_transfers, remove_active_app, to_app_instance,
}
use counterfactual.FreeBalanceApp.{merge}
use counterfactual.Outcome.{compute_token_indexed_free_balance_increments, refund_loop}
use counterfactual.StateChannel.{
  StateChannel, get_app_instance, free_balance, get_free_balance_class, build, construct,
  all_start_with_xpub,
}
use counterfactual.StateChannel.Apps
use counterfactual.StateChannel.Apps.{uninstall_app}
use counterfactual.StateChannel.Funds.{remove_active_app_and_increment_free_balance}
use counterfactual.StateChannel.Json.{to_json, from_json}
use counterfactual.Xkeys.{xkey_kth_address}
use counterfactual.Store
use counterfactual.Store.{Store, empty_data}
use counterfactual.Commitments.{set_state_commitment, Commitment}
use counterfactual.Protocols.{
  UpdateParams, TakeActionParams, UninstallParams, Message, unassigned_seq_no, update, signed,
}
use counterfactual.Engine.{stored_channel, commit_to, assert_is_valid_signature}
use counterfactual.Engine.Runner.{advance}
use counterfactual.Engine.Update.{update_transition, update_initiating, update_responding}
use counterfactual.Engine.TakeAction.{take_action_transition, take_action_initiating}
use counterfactual.Engine.Uninstall.{Outcomes, uninstall_transition, uninstall_initiating}
use counterfactual.Engine.Session.{session}
use counterfactual.Engine.Session.Agreement.{
  session-update, session-take_action, session-uninstall, filed,
}
use counterfactual.Engine.Countersigned.{
  IsSignedBy, update_initiating-countersigned, update_responding-countersigned,
}
use counterfactual.Tests.{
  toy, accept_all, alice, bob, channel, game, funds_app, playing, read_number, write_number,
  stroke_count, strokes,
}
use counterfactual.Tests.Parties.{context, toy_network, toy_signing, toy_signing_laws}

-- The game with an action encoding, and the channel in which it is played.
abbrev active_game : AppInstance ℕ
active_game = record game {
  app_interface = record {
    addr = "0xapp";
    state_encoding = "tuple()";
    action_encoding = some "tuple()";
  };
}

abbrev pub active : StateChannel ℕ
active = record playing { app_instances = ("1", active_game) ∷ [] }

abbrev pub shared : Store ℕ
shared = record {
  shared_data = record (empty_data {V = ℕ}) {
    state_channels_map = ("0xmultisig", to_json toy active) ∷ [];
  };
  persisted = none;
}

abbrev next_game : AppInstance ℕ
next_game = record active_game { latest_state = 8; latest_version_number = 1 }

abbrev next_channel : StateChannel ℕ
next_channel = record active { app_instances = ("1", next_game) ∷ [] }

abbrev next_commitment : Commitment
next_commitment = set_state_commitment (record {
  network_context = toy_network;
  app_identity = identity next_game;
  hashed_app_state = "bytes";
  app_version_number = 1;
  timeout = 100;
})

abbrev update_game : UpdateParams ℕ
update_game = record {
  initiator_xpub = "xpubA";
  responder_xpub = "xpubB";
  multisig_address = "0xmultisig";
  app_identity_hash = "1";
  new_state = 8;
}

abbrev play : TakeActionParams ℕ
play = record {
  initiator_xpub = "xpubA";
  responder_xpub = "xpubB";
  multisig_address = "0xmultisig";
  app_identity_hash = "1";
  action = 3;
}

computed_update :
    update_transition toy toy_signing accept_all toy_network shared update_game
    ≡ ok (next_channel, next_game, next_commitment)
unfolding update_transition stored_channel lookup from_json construct all_start_with_xpub to_json
    Apps.set_state get_app_instance of_entries insert AppInstance.set_state build commit_to
    hash_of_latest_state
computed_update = refl

session-update_example :
    session context context.outcomes "xpubA" "xpubB"
      (update_initiating toy toy_signing accept_all toy_network shared "process" update_game)
      shared
      shared
    ≡ ok (
      Store.save_state_channel toy next_channel shared,
      Store.save_state_channel toy next_channel shared,
    )
session-update_example =
    session-update context toy_signing_laws context.outcomes shared shared "process" update_game
      refl computed_update

computed_action :
    take_action_transition toy toy_signing accept_all context.contracts toy_network shared play
    ≡ ok (next_channel, next_game, next_commitment)
unfolding take_action_transition encoded_latest_state stored_channel lookup from_json construct
    all_start_with_xpub to_json Apps.set_state get_app_instance of_entries insert
    AppInstance.set_state build commit_to hash_of_latest_state
computed_action = refl

session-take_action_example :
    session context context.outcomes "xpubA" "xpubB"
      (take_action_initiating toy toy_signing accept_all context.contracts toy_network shared
        "process" play)
      shared
      shared
    ≡ ok (
      Store.save_state_channel toy next_channel shared,
      Store.save_state_channel toy next_channel shared,
    )
session-take_action_example =
    session-take_action context toy_signing_laws context.outcomes shared shared "process" play refl
      computed_action

abbrev remove_game : UninstallParams
remove_game = record {
  app_identity_hash = "1";
  initiator_xpub = "xpubA";
  responder_xpub = "xpubB";
  multisig_address = "0xmultisig";
}

-- Alice has her 7 and the deposit of 4.
abbrev paid_funds : FreeBalance
paid_funds = record {
  active_apps_map = [];
  balances_indexed_by_token =
      (
        eth_token_address,
        record { to = alice; amount = pos 11 } ∷ record { to = bob; amount = pos 3 } ∷ [],
      )
      ∷ [];
}

abbrev paid_app : FreeBalanceApp
paid_app = record funds_app { latest_state = serialize toy paid_funds; latest_version_number = 4 }

abbrev paid_channel : StateChannel ℕ
paid_channel = record channel { free_balance_app_instance = some paid_app }

abbrev paid_commitment : Commitment
paid_commitment = set_state_commitment (record {
  network_context = toy_network;
  app_identity = identity paid_app;
  hashed_app_state = "bytes";
  app_version_number = 4;
  timeout = 100;
})

computed_removal :
    uninstall_transition toy toy_signing accept_all context.outcomes toy_network shared remove_game
    ≡ ok (paid_channel, paid_commitment)
unfolding uninstall_transition stored_channel lookup from_json construct all_start_with_xpub to_json
    get_app_instance of_entries insert compute_token_indexed_free_balance_increments refund_loop
    uninstall_app build identity_hash erase remove_active_app_and_increment_free_balance
    get_free_balance_class from_app_instance deserialize increment increment_tokens increment_token
    some_negative merge remove_active_app to_app_instance AppInstance.set_state
    convert_coin_transfers_to_map convert_map_to_coin_transfers serialize set_of read_number
    write_number ◌+ℤ◌ free_balance strokes stroke_count commit_to hash_of_latest_state
computed_removal = refl

-- Bob's chain shows the deposit only when he asks for the third time.
abbrev late_outcomes : Outcomes ℕ
late_outcomes = record context.outcomes {
  decoder = record context.outcomes.decoder {
    two_transfers = λ outcome. some (
      record { to = alice; amount = if outcome == "outcome" then pos 4 else pos 0 },
      record { to = bob; amount = pos 0 },
    );
  };
  chain = λ app n. if ltb n 2 then some "nothing" else some "outcome";
}

computed_removal_later :
    uninstall_transition toy toy_signing accept_all late_outcomes toy_network shared remove_game
    ≡ ok (paid_channel, paid_commitment)
unfolding uninstall_transition stored_channel lookup from_json construct all_start_with_xpub to_json
    get_app_instance of_entries insert compute_token_indexed_free_balance_increments refund_loop
    uninstall_app build identity_hash erase remove_active_app_and_increment_free_balance
    get_free_balance_class from_app_instance deserialize increment increment_tokens increment_token
    some_negative merge remove_active_app to_app_instance AppInstance.set_state
    convert_coin_transfers_to_map convert_map_to_coin_transfers serialize set_of read_number
    write_number ◌+ℤ◌ free_balance strokes stroke_count commit_to hash_of_latest_state
computed_removal_later = refl

session-uninstall_example :
    session context late_outcomes "xpubA" "xpubB"
      (uninstall_initiating toy toy_signing accept_all context.outcomes toy_network shared "process"
        remove_game)
      shared
      shared
    ≡ ok (
      Store.save_state_channel toy paid_channel
          (filed context toy_signing_laws remove_game paid_commitment "xpubA" "xpubB" shared),
      Store.save_state_channel toy paid_channel
          (filed context toy_signing_laws remove_game paid_commitment "xpubB" "xpubA" shared),
    )
session-uninstall_example =
    session-uninstall context toy_signing_laws late_outcomes shared shared "process" remove_game
      computed_removal computed_removal_later

-- Bob's reply, with his signature.
abbrev reply : Message ℕ
reply = record {
  process_id = "process";
  protocol = update;
  params = none;
  to_xpub = "xpubA";
  seq = unassigned_seq_no;
  custom_data = signed bob;
}

update_initiating-countersigned_example :
    (post : StateChannel ℕ) × (app : AppInstance ℕ) × (c : Commitment) × (update_transition toy
        toy_signing accept_all toy_network shared update_game
      ≡ ok (post, app, c))
    × IsSignedBy toy toy_signing (xkey_kth_address toy "xpubB" app.app_seq_no) c (some bob)
    × (Store.save_state_channel toy next_channel shared ≡ Store.save_state_channel toy post shared)
unfolding advance update_initiating assert_is_valid_signature xkey_kth_address update_transition
    stored_channel lookup from_json construct all_start_with_xpub to_json Apps.set_state
    get_app_instance of_entries insert AppInstance.set_state build commit_to hash_of_latest_state
update_initiating-countersigned_example =
    update_initiating-countersigned toy toy_signing accept_all toy_network "xpubA" shared "process"
      update_game refl reply shared (Store.save_state_channel toy next_channel shared) refl

update_responding-countersigned_example :
    (post : StateChannel ℕ) × (app : AppInstance ℕ) × (c : Commitment) × (update_transition toy
        toy_signing accept_all toy_network shared update_game
      ≡ ok (post, app, c))
    × IsSignedBy toy toy_signing (xkey_kth_address toy "xpubA" app.app_seq_no) c (some alice)
    × (Store.save_state_channel toy next_channel shared ≡ Store.save_state_channel toy post shared)
    × (some bob ≡ some bob)
unfolding advance update_responding assert_is_valid_signature xkey_kth_address update_transition
    stored_channel lookup from_json construct all_start_with_xpub to_json Apps.set_state
    get_app_instance of_entries insert AppInstance.set_state build commit_to hash_of_latest_state
update_responding-countersigned_example =
    update_responding-countersigned toy toy_signing accept_all toy_network "xpubB" shared "process"
      update_game {signature = some alice} {reply = reply} refl
