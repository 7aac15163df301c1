-- ===== src/FreeBalance/Fresh.antt =====
-- The free balance with which a channel starts.
use counterfactual.Prelude.{ℕ, String, ◌≡◌, refl, List, [], ◌∷◌}
use counterfactual.External.{Ethers}
use counterfactual.Dict.{lookup}
use counterfactual.FreeBalance.{
  FreeBalance, CoinTransfer, create_free_balance, key_at, serialize, eth_token_address, zero_amount,
}
use counterfactual.FreeBalance.WellFormed.{IsToken, IsWellFormed}
use counterfactual.Xkeys.{xkeys_to_sorted_kth_addresses}

-- An account of zero for each of two addresses.
abbrev pub fresh_accounts : String → String → List CoinTransfer
fresh_accounts a b =
    record { to = a; amount = zero_amount } ∷ record { to = b; amount = zero_amount } ∷ []

abbrev pub fresh : String → String → FreeBalance
fresh a b = record {
  active_apps_map = [];
  balances_indexed_by_token = (eth_token_address, fresh_accounts a b) ∷ [];
}

pub fresh-IsWellFormed :
    (e : Ethers) (a b : String) → IsToken e eth_token_address → IsWellFormed e (fresh a b)
unfolding lookup
fresh-IsWellFormed e a b token = record {
  active = tt;
  distinct = (refl, tt);
  checksummed = (token, tt);
}

-- The addresses of two keys in their order are those of the accounts.
pub create_free_balance-fresh :
    (e : Ethers) (xpubs : List String) (address : String) (timeout : ℕ) {a b : String}
    → xkeys_to_sorted_kth_addresses e xpubs 0 ≡ a ∷ b ∷ []
    → (create_free_balance e xpubs address timeout).latest_state ≡ serialize e (fresh a b)
unfolding create_free_balance key_at
create_free_balance-fresh e xpubs address timeout sorted = rw (sorted) refl
