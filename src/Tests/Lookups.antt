-- ===== src/Tests/Lookups.antt =====
-- The theorems on addresses and on the store at concrete inputs.
use mathlib.Core.List.{Perm}
use counterfactual.Prelude.{ℕ, ◌==◌, ◌≡◌, refl, true, none, [], ◌∷◌, arith, if◌then◌else◌, eq_iff}
use counterfactual.Errors.{ok}
use counterfactual.Dict.{lookup, insert, of_entries}
use counterfactual.Xkeys.{
  sort_addresses, precedes, parse_int, cached_kth_address, xkey_kth_address, lookup_index, row_of,
}
use counterfactual.Xkeys.Sorting.{IsAscending, sort_addresses-IsAscending, sort_addresses_pair}
use counterfactual.Xkeys.Caching.{IsCacheOf, cached_kth_address_lem}
use counterfactual.StateChannel.{StateChannel, all_start_with_xpub, construct}
use counterfactual.StateChannel.Json.{to_json, from_json}
use counterfactual.StateChannel.RoundTrip.{IsStorable}
use counterfactual.Store.{
  Store, empty_data, save_state_channel, get_state_channel, connect_db, knows_app, read_channels,
  by_address, first_knowing, get_state_channels_map, get_multisig_address_from_app_instance,
}
use counterfactual.Store.Channels.{get_state_channel-save_state_channel}
use counterfactual.Store.Search.{IsConsistent, get_multisig_address_from_app_instance_lem}
use counterfactual.Tests.{toy, alice, bob, playing}

sort_addresses-IsAscending_example :
    Perm (sort_addresses (bob ∷ alice ∷ [])) (bob ∷ alice ∷ [])
    × IsAscending (sort_addresses (bob ∷ alice ∷ []))
unfolding parse_int
sort_addresses-IsAscending_example =
    sort_addresses-IsAscending (bob ∷ alice ∷ []) ((11, refl), ((10, refl), tt))

sort_addresses_pair_example :
    (sort_addresses (alice ∷ bob ∷ []) ≡ alice ∷ bob ∷ [])
    × (sort_addresses (bob ∷ alice ∷ []) ≡ alice ∷ bob ∷ [])
unfolding precedes parse_int
sort_addresses_pair_example = sort_addresses_pair alice bob refl

no_cache-IsCacheOf : IsCacheOf toy []
unfolding lookup row_of lookup_index
no_cache-IsCacheOf = record { agrees = λ xkey k a found. ground arith }

cached_kth_address_lem_example :
    ((cached_kth_address toy "xpubA" 3 []).0 ≡ xkey_kth_address toy "xpubA" 3)
    × IsCacheOf toy (cached_kth_address toy "xpubA" 3 []).1
cached_kth_address_lem_example = cached_kth_address_lem toy "xpubA" 3 [] no_cache-IsCacheOf

abbrev no_channels : Store ℕ
no_channels = record { shared_data = empty_data; persisted = none }

playing-IsStorable : IsStorable playing
unfolding lookup all_start_with_xpub
playing-IsStorable = record {
  proposals = tt;
  apps = (refl, tt);
  virtual_agreements = tt;
  xpubs = refl;
}

get_state_channel-save_state_channel_example :
    (get_state_channel "0xmultisig" (save_state_channel toy playing no_channels) ≡ (
      if playing.multisig_address == "0xmultisig"
      then ok playing
      else get_state_channel "0xmultisig" no_channels))
    × (get_state_channel "0xmultisig" (connect_db (save_state_channel toy playing no_channels))
        ≡ get_state_channel "0xmultisig" (save_state_channel toy playing no_channels))
get_state_channel-save_state_channel_example =
    get_state_channel-save_state_channel toy playing playing-IsStorable no_channels "0xmultisig"

abbrev one_channel : Store ℕ
one_channel = record {
  shared_data = record (empty_data {V = ℕ}) {
    state_channels_map = ("0xmultisig", to_json toy playing) ∷ [];
  };
  persisted = none;
}

one_channel-IsConsistent : IsConsistent one_channel
unfolding lookup to_json
one_channel-IsConsistent = record {
  distinct = (refl, tt);
  addressed = λ k j found. ground (arith, eq_iff "0xmultisig" k);
}

found_channel : get_multisig_address_from_app_instance toy "1" one_channel ≡ ok "0xmultisig"
unfolding get_multisig_address_from_app_instance get_state_channels_map read_channels from_json
    to_json by_address insert lookup first_knowing knows_app all_start_with_xpub construct
    of_entries
found_channel = refl

get_multisig_address_from_app_instance_lem_example :
    (sc : StateChannel ℕ) × (get_state_channel "0xmultisig" one_channel ≡ ok sc)
    × (sc.multisig_address ≡ "0xmultisig")
    × (knows_app toy "1" sc ≡ true)
get_multisig_address_from_app_instance_lem_example =
    get_multisig_address_from_app_instance_lem toy "1" one_channel one_channel-IsConsistent
      "0xmultisig" found_channel
