-- ===== src/FreeBalanceApp/Laws.antt =====
-- `merge` adds and `flip` negates, address by address.
use counterfactual.Prelude.{String, ◌≡◌, ◌∙◌, ◌||◌, none, some, [], ◌++◌, arith, if◌then◌else◌, All}
use counterfactual.Prelude.Int.{◌+ℤ◌, ◌-ℤ◌}
use counterfactual.Dict.{lookup, keys, has, set_of, IsDict, or_else}
use counterfactual.Dict.Laws.{mem-keys}
use counterfactual.Dict.Build.{
  mem-set_of, mem-union, lookup-fill, fill-IsDict, lookup-build, build-IsDict, All-build,
}
use counterfactual.FreeBalanceApp.{
  CoinTransferMap, TokenIndexedCoinTransferMap, amount_at, flip, flip_token_indexed_balances, merge,
  zero_amount,
}

module _ (k : String) (base increments : CoinTransferMap) where
  -- What stands under an address after a merge.
  pub lookup-merge : lookup k (merge base increments) ≡ (
      if has k base || has k increments
      then some (amount_at base k +ℤ amount_at increments k)
      else none)
  unfolding merge lookup
  lookup-merge =
      lookup-fill (λ j. amount_at base j +ℤ amount_at increments j) k []
        (set_of (set_of (keys base) ++ set_of (keys increments)))
      ∙ simp (mem-union, mem-set_of, mem-keys)

  pub amount_at-merge :
      amount_at (merge base increments) k ≡ amount_at base k +ℤ amount_at increments k
  unfolding ◌+ℤ◌
  amount_at-merge = rw lookup-merge (ground arith)

pub merge-IsDict : (base increments : CoinTransferMap) → IsDict (merge base increments)
unfolding merge
merge-IsDict base increments =
    fill-IsDict (λ j. amount_at base j +ℤ amount_at increments j) []
      (set_of (set_of (keys base) ++ set_of (keys increments))) tt

pub flip-IsDict : (m : CoinTransferMap) → IsDict (flip m)
unfolding flip
flip-IsDict m = build-IsDict (λ a. zero_amount -ℤ a) [] m tt

pub amount_at-flip :
    (k : String) (m : CoinTransferMap)
    → IsDict m
    → amount_at (flip m) k ≡ zero_amount -ℤ amount_at m k
unfolding flip lookup ◌-ℤ◌
amount_at-flip k m h = rw (lookup-build (λ a. zero_amount -ℤ a) k [] m h) (ground arith)

pub lookup-flip_token_indexed_balances :
    (t : String) (m : TokenIndexedCoinTransferMap)
    → IsDict m
    → or_else (lookup t (flip_token_indexed_balances m)) [] ≡ flip (or_else (lookup t m) [])
unfolding flip_token_indexed_balances flip lookup
lookup-flip_token_indexed_balances t m h = rw (lookup-build flip t [] m h) (ground arith)

pub flip_token_indexed_balances-IsDict :
    (m : TokenIndexedCoinTransferMap) → IsDict (flip_token_indexed_balances m)
unfolding flip_token_indexed_balances
flip_token_indexed_balances-IsDict m = build-IsDict flip [] m tt

pub All-flip_token_indexed_balances :
    (P : String → Type 0) (m : TokenIndexedCoinTransferMap)
    → All P (keys m)
    → All P (keys (flip_token_indexed_balances m))
unfolding flip_token_indexed_balances
All-flip_token_indexed_balances P m h = All-build P flip [] m tt h
