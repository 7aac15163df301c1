-- ===== src/Tests.antt =====
-- Concrete inputs that the witnesses of the tests below share: stand-ins for the ethers library, and
-- a channel between two parties.
mod Money
mod Channels
mod Lookups
mod Parties
mod Sessions
mod Installs
mod Proposing
mod Latest
mod Opening
mod Withdrawing
mod Players
mod Playing
mod Handling
mod Installation
mod Settling
mod Payouts
use Prim.Native.Char.{Char}
use Prim.Native.String
use counterfactual.Prelude.{
  ℕ, zero, suc, ◌+◌, String, ◌==◌, ◌≡◌, refl, ap, Bool, true, false, Option, none, some, List, [],
  ◌∷◌, if◌then◌else◌, arith,
}
use counterfactual.Prelude.Int.{ℤ, pos, negsuc, ◌+ℤ◌, ◌-ℤ◌}
use counterfactual.External.{Ethers, EthersLaws, AbiCoder}
use counterfactual.AppInstance.{
  AppInstance, AppInterface, identity_hash, set_state, app_identity_to_hash,
  multi_asset_multi_party_coin_transfer, two_party_fixed_outcome,
}
use counterfactual.FreeBalance.{
  FreeBalance, FreeBalanceApp, FreeBalanceStateJson, CoinTransfer, eth_token_address, serialize,
  convert_coin_transfers_to_map, convert_map_to_coin_transfers, from_app_instance, deserialize,
  increment, increment_tokens, increment_token, some_negative, add_active_app, remove_active_app,
  to_app_instance,
}
use counterfactual.Dict.{lookup, insert, erase, set_of}
use counterfactual.FreeBalanceApp.{
  TokenIndexedCoinTransferMap, merge, flip_token_indexed_balances, flip,
}
use counterfactual.Xkeys.{sort_addresses, xkey_kth_address, precedes, parse_int}
use counterfactual.Errors.{ok}
use counterfactual.FreeBalance.WellFormed.{IsWellFormed}
use counterfactual.StateChannel.{
  StateChannel, AppInstanceProposal, all_start_with_xpub, build, get_app_instance,
  get_signing_keys_for, get_free_balance_class, free_balance,
}
use counterfactual.StateChannel.Apps.{install_app, uninstall_app, every_at}
use counterfactual.StateChannel.Funds.{
  add_active_app_and_increment_free_balance, remove_active_app_and_increment_free_balance,
}
use counterfactual.StateChannel.Holding.{Holds}
use counterfactual.StateChannel.Installing.{AreAmounts}
use counterfactual.FreeBalance.Increment.{IsSolvent}

-- A number as a sign and so many strokes.
unfoldable pub strokes : ℕ → String
strokes zero = String.[]
strokes (suc n) = String.◌∷◌ "1" (strokes n)

unfoldable pub stroke_count : String → ℕ
stroke_count String.[] = 0
stroke_count (String.◌∷◌ c s) = suc (stroke_count s)

unfoldable pub write_number : ℤ → String
unfolding strokes
write_number (pos n) = String.◌∷◌ "p" (strokes n)
write_number (negsuc n) = String.◌∷◌ "n" (strokes n)

unfoldable pub read_number : String → Option ℤ
unfolding stroke_count
read_number String.[] = none
read_number (String.◌∷◌ c s) =
    some (if String.◌∷◌ c String.[] == "p" then pos (stroke_count s) else negsuc (stroke_count s))

stroke_count-strokes : (n : ℕ) → stroke_count (strokes n) ≡ n
unfolding stroke_count strokes
stroke_count-strokes zero = refl
stroke_count-strokes (suc n) = ap suc (stroke_count-strokes n)

abbrev pub toy : Ethers
toy = record {
  get_address = some;
  to_hex_string = write_number;
  big_numberify = read_number;
  to_number = λ z. elim z [ pos n ↦ some n | negsuc n ↦ none ];
  compute_address =
      λ xkey k. if xkey == "xpubA" then "0x0a" else if xkey == "xpubI" then "0x0c" else "0x0b";
  keccak256 = λ s. s;
  encode_nonce_and_participants = λ n ps. strokes n;
  solidity_keccak256 = λ to value calldata. to;
}

read_number-write_number : (z : ℤ) → read_number (write_number z) ≡ some z
unfolding read_number write_number
read_number-write_number (pos n) = ap (λ m. some (pos m)) (stroke_count-strokes n)
read_number-write_number (negsuc n) = ap (λ m. some (negsuc m)) (stroke_count-strokes n)

pub toy_laws : EthersLaws toy
toy_laws = record { big_numberify-to_hex_string = read_number-write_number }

abbrev pub accept_all : {S : Type 0} → AbiCoder S
accept_all = record { encode = λ encoding s. some "bytes" }

abbrev pub alice : String
alice = "0x0a"

abbrev pub bob : String
bob = "0x0b"

-- Alice has 10 and Bob 5 of the chain's own coin.
abbrev pub funds : FreeBalance
funds = record {
  active_apps_map = [];
  balances_indexed_by_token =
      (
        eth_token_address,
        record { to = alice; amount = pos 10 } ∷ record { to = bob; amount = pos 5 } ∷ [],
      )
      ∷ [];
}

abbrev pub any_interface : AppInterface
any_interface = record { addr = "0xapp"; state_encoding = "tuple()"; action_encoding = none }

abbrev pub app_of : {S : Type 0} → ℕ → S → AppInstance S
app_of seq state = record {
  participants = alice ∷ bob ∷ [];
  default_timeout = 100;
  app_interface = any_interface;
  is_virtual_app = false;
  app_seq_no = seq;
  latest_state = state;
  latest_version_number = 0;
  latest_timeout = 100;
  outcome_type = two_party_fixed_outcome;
  two_party_internal = none;
  multi_asset_internal = none;
  single_asset_internal = none;
}

abbrev pub funds_app : FreeBalanceApp
funds_app = app_of 0 (serialize toy funds)

-- The state of an app is a number here.
abbrev pub channel : StateChannel ℕ
channel = record {
  multisig_address = "0xmultisig";
  user_neutered_extended_keys = "xpubA" ∷ "xpubB" ∷ [];
  proposed_app_instances = [];
  app_instances = [];
  agreements = [];
  free_balance_app_instance = some funds_app;
  monotonic_num_proposed_apps = 1;
}

pub funds-IsWellFormed : IsWellFormed toy funds
funds-IsWellFormed = record {
  active = tt;
  distinct = (unfold lookup in refl, tt);
  checksummed = (refl, tt);
}

pub channel-Holds : Holds toy channel funds
channel-Holds = record {
  app = funds_app;
  here = refl;
  state = refl;
  formed = funds-IsWellFormed;
  xpubs = unfold all_start_with_xpub in refl;
}

abbrev pub game : AppInstance ℕ
game = app_of 1 7

-- Alice puts in 3 and Bob 2.
abbrev pub stakes : TokenIndexedCoinTransferMap
stakes = (eth_token_address, (alice, pos 3) ∷ (bob, pos 2) ∷ []) ∷ []

pub funds-IsSolvent : IsSolvent funds
funds-IsSolvent = record {
  nonneg = λ t a. unfold lookup convert_coin_transfers_to_map insert in ground arith;
}

pub stakes-AreAmounts : AreAmounts toy stakes
stakes-AreAmounts = record {
  distinct = (unfold lookup in refl, tt);
  inner = ((unfold lookup in refl, (unfold lookup in refl, tt)), tt);
  tokens = (refl, tt);
}

-- What is left to the two, and the channel while the game is on.
abbrev pub left_funds : FreeBalance
left_funds = record {
  active_apps_map = ("1", tt) ∷ [];
  balances_indexed_by_token =
      (
        eth_token_address,
        record { to = alice; amount = pos 7 } ∷ record { to = bob; amount = pos 3 } ∷ [],
      )
      ∷ [];
}

abbrev pub playing : StateChannel ℕ
playing = record channel {
  app_instances = ("1", game) ∷ [];
  free_balance_app_instance =
      some
        (record funds_app { latest_state = serialize toy left_funds; latest_version_number = 2 });
}

-- The channel once each has its stake back.
abbrev pub settled : StateChannel ℕ
settled = record channel {
  free_balance_app_instance =
      some (record funds_app { latest_state = serialize toy funds; latest_version_number = 4 });
}

pub install_game : install_app toy accept_all game stakes channel ≡ ok playing
unfolding install_app build get_signing_keys_for sort_addresses every_at identity_hash
    add_active_app_and_increment_free_balance get_free_balance_class from_app_instance deserialize
    increment increment_tokens increment_token some_negative merge flip_token_indexed_balances flip
    add_active_app to_app_instance set_state lookup insert convert_coin_transfers_to_map
    convert_map_to_coin_transfers serialize set_of read_number write_number xkey_kth_address
    precedes parse_int all_start_with_xpub ◌+ℤ◌ ◌-ℤ◌ free_balance strokes stroke_count
install_game = refl

pub uninstall_game : uninstall_app toy accept_all "1" stakes playing ≡ ok settled
unfolding uninstall_app get_app_instance build identity_hash erase
    remove_active_app_and_increment_free_balance get_free_balance_class from_app_instance
    deserialize increment increment_tokens increment_token some_negative merge remove_active_app
    to_app_instance set_state lookup insert convert_coin_transfers_to_map
    convert_map_to_coin_transfers serialize set_of read_number write_number all_start_with_xpub ◌+ℤ◌
    ◌-ℤ◌ free_balance strokes stroke_count
uninstall_game = refl
