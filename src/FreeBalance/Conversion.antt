-- ===== src/FreeBalance/Conversion.antt =====
-- Coin transfer lists and maps, and balances as a client reads them.
use counterfactual.Prelude.{
  String, eq_iff, eq_refl, ◌≡◌, refl, ◌∙◌, false, some, [], ◌∷◌, foldl, arith,
}
use counterfactual.Prelude.Int.{ℤ, pos, ◌≤ℤ◌}
use counterfactual.Dict.{lookup, insert, values, IsDict, of_entries}
use counterfactual.Dict.Build.{of_entries-IsDict}
use counterfactual.FreeBalanceApp.{CoinTransferMap, amount_at}
use counterfactual.FreeBalance.{
  CoinTransfer, FreeBalance, convert_coin_transfers_to_map, convert_map_to_coin_transfers,
  some_negative,
}

-- What the address holds of the token; nothing, where the free balance knows none of the two.
abbrev pub balance_at : FreeBalance → String → String → ℤ
balance_at fb token address =
    amount_at (convert_coin_transfers_to_map (lookup token fb.balances_indexed_by_token)) address

convert_from :
    (acc m : CoinTransferMap)
    → foldl (λ r (t : CoinTransfer). insert t.to t.amount r) acc (convert_map_to_coin_transfers m)
      ≡ foldl (λ d e. insert e.0 e.1 d) acc m
unfolding convert_map_to_coin_transfers
convert_from acc [] = refl
convert_from acc ((k, v) ∷ m) = convert_from (insert k v acc) m

-- A map written as a list of transfers is read back as it was.
pub convert-convert :
    (m : CoinTransferMap)
    → IsDict m
    → convert_coin_transfers_to_map (some (convert_map_to_coin_transfers m)) ≡ m
unfolding convert_coin_transfers_to_map of_entries
convert-convert m h = convert_from [] m ∙ of_entries-IsDict m h

-- The loop over the values finds a negative one exactly where an address has one.
pub some_negative-lookup :
    (k : String) (v : ℤ) (m : CoinTransferMap)
    → some_negative (values m) ≡ false
    → lookup k m ≡ some v
    → pos 0 ≤ℤ v
unfolding some_negative lookup
some_negative-lookup k v [] h e = cc
some_negative-lookup k v ((j, w) ∷ m) h e = ground (arith, some_negative-lookup k v m)

pub some_negative-none :
    (m : CoinTransferMap)
    → IsDict m
    → ((k : String) (v : ℤ) → lookup k m ≡ some v → pos 0 ≤ℤ v)
    → some_negative (values m) ≡ false
unfolding some_negative lookup
some_negative-none [] d h = refl
some_negative-none ((j, w) ∷ m) d h =
    ground (arith, h j w, eq_refl j, some_negative-none m d.1 rest)
  where
    rest : (k : String) (v : ℤ) → lookup k m ≡ some v → pos 0 ≤ℤ v
    rest k v e = h k v (ground (arith, eq_iff j k, d.0))
