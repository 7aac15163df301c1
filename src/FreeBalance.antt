-- ===== src/FreeBalance.antt =====
-- packages/node/src/models/free-balance.ts: the free balance of a channel, and its state as JSON.
-- A method that changes the object returns the changed object.
pub mod Conversion
pub mod Loop
pub mod Increment
pub mod RoundTrip
pub mod WellFormed
pub mod Fresh
use counterfactual.Prelude.{
  ℕ, zero, suc, ◌+◌, String, Bool, true, false, Option, none, some, List, [], ◌∷◌, ◌++◌, map, foldl,
  get_elem?, if◌then◌else◌,
}
use counterfactual.Prelude.Int.{ℤ, pos, ltb_ℤ}
use counterfactual.Errors.{
  Result, ok, err, ◌>>=◌, or_throw, negative_balance, type_error, ethers_error,
}
use counterfactual.External.{Ethers, AbiCoder}
use counterfactual.Dict.{Dict, lookup, insert, erase, keys, values, or_else}
use counterfactual.FreeBalanceApp.{CoinTransferMap, TokenIndexedCoinTransferMap, merge, zero_amount}
use counterfactual.AppInstance.{
  AppInterface, AppInstance, multi_asset_multi_party_coin_transfer, set_state,
}
use counterfactual.Xkeys.{xkey_kth_address, xkeys_to_sorted_kth_addresses}

pub record CoinTransfer : Type 0 where
  pub to : String
  pub amount : ℤ

pub record CoinTransferJson : Type 0 where
  pub to : String
  pub amount : String

-- The app's state as it is stored; either list may be missing.
pub record FreeBalanceStateJson : Type 0 where
  pub token_addresses : Option (List String)
  pub balances : List (List CoinTransferJson)
  pub active_apps : Option (List String)

-- `FreeBalanceClass`, and `FreeBalanceState`, which has the same two fields
pub record FreeBalance : Type 0 where
  pub active_apps_map : Dict (Unit {0})
  pub balances_indexed_by_token : Dict (List CoinTransfer)

-- `CONVENTION_FOR_ETH_TOKEN_ADDRESS`
abbrev pub eth_token_address : String
eth_token_address = "0x0000000000000000000000000000000000000000"

abbrev pub initial_state_timeout : ℕ
initial_state_timeout = 172800

abbrev pub free_balance_app_seq_no : ℕ
free_balance_app_seq_no = 0

unfoldable pub convert_coin_transfers_to_map : Option (List CoinTransfer) → CoinTransferMap
convert_coin_transfers_to_map transfers =
    foldl (λ acc t. insert t.to t.amount acc) [] (or_else transfers [])

unfoldable pub convert_map_to_coin_transfers : CoinTransferMap → List CoinTransfer
convert_map_to_coin_transfers m = map (λ e. record { to = e.0; amount = e.1 }) m

unfoldable pub serialize : Ethers → FreeBalance → FreeBalanceStateJson
serialize e fb = record {
  active_apps = some (keys fb.active_apps_map);
  token_addresses = some (keys fb.balances_indexed_by_token);
  balances =
      map (map (λ t. record { to = t.to; amount = e.to_hex_string t.amount }))
        (values fb.balances_indexed_by_token);
}

unfoldable pub deserialize_transfers : Ethers → List CoinTransferJson → Result (List CoinTransfer)
deserialize_transfers e [] = ok []
deserialize_transfers e (t ∷ ts) = do
  n ← or_throw (e.big_numberify t.amount) ethers_error
  rest ← deserialize_transfers e ts
  ok (record { to = t.to; amount = n } ∷ rest)

-- The `reduce` over the token addresses, from index `idx` on.
unfoldable pub deserialize_balances :
    Ethers
    → List (List CoinTransferJson)
    → ℕ
    → Dict (List CoinTransfer)
    → List String
    → Result (Dict (List CoinTransfer))
unfolding deserialize_transfers
deserialize_balances e balances idx acc [] = ok acc
deserialize_balances e balances idx acc (token ∷ tokens) = do
  key ← or_throw (e.get_address token) ethers_error
  row ← or_throw (get_elem? balances idx) type_error
  transfers ← deserialize_transfers e row
  deserialize_balances e balances (suc idx) (insert key transfers acc) tokens

unfoldable pub deserialize : Ethers → FreeBalanceStateJson → Result FreeBalance
unfolding deserialize_balances
deserialize e json = do
  balances ← deserialize_balances e json.balances 0 [] (or_else json.token_addresses [])
  ok (record {
    balances_indexed_by_token = balances;
    active_apps_map = foldl (λ acc h. insert h tt acc) [] (or_else json.active_apps []);
  })

abbrev pub FreeBalanceApp : Type 0
FreeBalanceApp = AppInstance FreeBalanceStateJson

to_token_indexed_coin_transfer_map : FreeBalance → TokenIndexedCoinTransferMap
unfolding convert_coin_transfers_to_map
to_token_indexed_coin_transfer_map fb =
    foldl
      (λ ret token.
        insert token (convert_coin_transfers_to_map (lookup token fb.balances_indexed_by_token))
          ret)
      [] (keys fb.balances_indexed_by_token)

unfoldable pub to_app_instance :
    Ethers → AbiCoder FreeBalanceStateJson → FreeBalance → FreeBalanceApp → Result FreeBalanceApp
to_app_instance e abi fb old = set_state e abi old (serialize e fb) none

create_with_funded_token_amounts : List String → ℤ → List String → FreeBalance
create_with_funded_token_amounts addresses amount token_addresses = record {
  active_apps_map = [];
  balances_indexed_by_token =
      foldl
        (λ acc token. insert token (map (λ to. record { to = to; amount = amount }) addresses) acc)
        [] token_addresses;
}

unfoldable pub from_app_instance : Ethers → FreeBalanceApp → Result FreeBalance
from_app_instance e app = deserialize e app.latest_state

-- `getBalance`: nothing in the `try` block throws, so a missing balance is `undefined`.
unfoldable pub get_balance : FreeBalance → String → String → Option ℤ
get_balance fb token beneficiary =
    lookup beneficiary (convert_coin_transfers_to_map (lookup token fb.balances_indexed_by_token))

unfoldable pub with_token_address : FreeBalance → String → CoinTransferMap
with_token_address fb token =
    elim (convert_coin_transfers_to_map (lookup token fb.balances_indexed_by_token)) [
      | [] ↦
          foldl (λ acc address. insert address zero_amount acc) []
            (keys (
              convert_coin_transfers_to_map
                (lookup eth_token_address fb.balances_indexed_by_token)))
      | b ∷ bs ↦ b ∷ bs
    ]

unfoldable pub remove_active_app : String → FreeBalance → FreeBalance
remove_active_app app fb = record fb { active_apps_map = erase app fb.active_apps_map }

unfoldable pub add_active_app : String → FreeBalance → FreeBalance
add_active_app app fb = record fb { active_apps_map = insert app tt fb.active_apps_map }

-- `for (const val of Object.values(t2)) if (val.lt(Zero)) throw ...`
unfoldable pub some_negative : List ℤ → Bool
some_negative [] = false
some_negative (v ∷ vs) = if ltb_ℤ v zero_amount then true else some_negative vs

-- One round of the loop of `increment`.
unfoldable pub increment_token :
    TokenIndexedCoinTransferMap → String → FreeBalance → Result FreeBalance
increment_token increments token fb =
    let t1 = convert_coin_transfers_to_map (lookup token fb.balances_indexed_by_token) in
    let t2 = merge t1 (or_else (lookup token increments) []) in
    if some_negative (values t2)
    then err negative_balance
    else ok (record fb {
      balances_indexed_by_token =
          insert token (convert_map_to_coin_transfers t2) fb.balances_indexed_by_token;
    })

unfoldable pub increment_tokens :
    TokenIndexedCoinTransferMap → List String → FreeBalance → Result FreeBalance
increment_tokens increments [] fb = ok fb
increment_tokens increments (token ∷ tokens) fb = do
  fb' ← increment_token increments token fb
  increment_tokens increments tokens fb'

unfoldable pub increment : TokenIndexedCoinTransferMap → FreeBalance → Result FreeBalance
increment increments fb = increment_tokens increments (keys increments) fb

-- `freeBalanceAppStateEncoding`, white space aside
abbrev free_balance_state_encoding : String
free_balance_state_encoding =
    "tuple(address[] tokenAddresses, tuple(address to, uint256 amount)[][] balances, bytes32[] activeApps)"

-- `getFreeBalanceAppInterface`
unfoldable pub get_free_balance_app_interface : String → AppInterface
get_free_balance_app_interface addr = record {
  addr = addr;
  state_encoding = free_balance_state_encoding;
  action_encoding = none;
}

-- An array read as `sorted[i]`; of a channel with fewer keys it is `undefined`.
key_at : List String → ℕ → String
key_at sorted i = or_else (get_elem? sorted i) "undefined"

unfoldable pub create_free_balance : Ethers → List String → String → ℕ → FreeBalanceApp
unfolding key_at
create_free_balance e user_neutered_extended_keys coin_bucket_address free_balance_timeout =
    let sorted = xkeys_to_sorted_kth_addresses e user_neutered_extended_keys 0 in
    let initial : FreeBalance = record {
      active_apps_map = [];
      balances_indexed_by_token =
          (
            eth_token_address,
            record { to = key_at sorted 0; amount = zero_amount }
                ∷ record { to = key_at sorted 1; amount = zero_amount }
                ∷ [],
          )
          ∷ [];
    } in
    record {
      participants = sorted;
      default_timeout = free_balance_timeout;
      app_interface = get_free_balance_app_interface coin_bucket_address;
      is_virtual_app = false;
      app_seq_no = free_balance_app_seq_no;
      latest_state = serialize e initial;
      latest_version_number = 0;
      latest_timeout = initial_state_timeout;
      outcome_type = multi_asset_multi_party_coin_transfer;
      two_party_internal = none;
      multi_asset_internal = none;
      single_asset_internal = none;
    }

get_free_balance_address : Ethers → String → String
get_free_balance_address e public_identifier = xkey_kth_address e public_identifier 0
