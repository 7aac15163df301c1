-- ===== src/FreeBalanceApp.antt =====
-- packages/node/src/ethereum/utils/free-balance-app.ts: arithmetic on coin transfer maps. A
-- `BigNumber` is an integer of any size.
pub mod Laws
use counterfactual.Prelude.{String, ◌≡◌, Option, none, some, List, [], ◌∷◌, ◌++◌, foldl}
use counterfactual.Prelude.Int.{ℤ, pos, ◌+ℤ◌, ◌-ℤ◌}
use counterfactual.Dict.{Dict, lookup, insert, keys, set_of, or_else}

abbrev pub CoinTransferMap : Type 0
CoinTransferMap = Dict ℤ

abbrev pub TokenIndexedCoinTransferMap : Type 0
TokenIndexedCoinTransferMap = Dict CoinTransferMap

abbrev pub zero_amount : ℤ
zero_amount = pos 0

-- `map[key] || Zero`
abbrev pub amount_at : CoinTransferMap → String → ℤ
amount_at m key = or_else (lookup key m) zero_amount

unfoldable pub flip : CoinTransferMap → CoinTransferMap
flip m = foldl (λ acc e. insert e.0 (zero_amount -ℤ e.1) acc) [] m

unfoldable pub flip_token_indexed_balances :
    TokenIndexedCoinTransferMap → TokenIndexedCoinTransferMap
flip_token_indexed_balances m = foldl (λ acc e. insert e.0 (flip e.1) acc) [] m

unfoldable pub merge : CoinTransferMap → CoinTransferMap → CoinTransferMap
merge base increments =
    let s1 = set_of (keys base) in
    let s2 = set_of (keys increments) in
    foldl (λ ret key. insert key (amount_at base key +ℤ amount_at increments key) ret) []
      (set_of (s1 ++ s2))
