-- ===== src/Outcome.antt =====
-- packages/node/src/engine/utils/get-outcome-increments.ts: what the outcome of an app adds to the
-- free balance. The chain's answers and the ABI decoder are parameters.
pub mod Laws
use counterfactual.Prelude.{
  ℕ, zero, suc, ◌/◌, String, ◌==◌, Bool, true, false, Option, none, some, List, [], ◌∷◌, get_elem?,
  eqb, if◌then◌else◌,
}
use counterfactual.Prelude.Int.{ℤ, pos, negsuc, ◌-ℤ◌, ltb_ℤ}
use counterfactual.Errors.{
  Result, ok, err, ◌>>=◌, or_throw, ethers_error, type_error, no_nonzero_deposit, contract_error,
}
use counterfactual.External.{Ethers}
use counterfactual.Dict.{insert}
use counterfactual.FreeBalanceApp.{CoinTransferMap, TokenIndexedCoinTransferMap, zero_amount}
use counterfactual.AppInstance.{
  AppInstance, TwoPartyParams, MultiAssetParams, SingleAssetParams, two_party_fixed_outcome,
  multi_asset_multi_party_coin_transfer, single_asset_two_party_coin_transfer, two_party_params,
  multi_asset_params, single_asset_params,
}
use counterfactual.FreeBalance.{CoinTransfer, convert_coin_transfers_to_map}

-- `defaultAbiCoder.decode` for the types of outcomes; `none` where it throws.
pub record OutcomeDecoder : Type 0 where
  -- `tuple(address to, uint256 amount)[2]`
  pub two_transfers : String → Option (CoinTransfer × CoinTransfer)
  -- `uint256`, as a JavaScript number
  pub number : String → Option ℕ
  -- `tuple(address to, uint256 amount)[][]`
  pub transfer_lists : String → Option (List (List CoinTransfer))

-- `bigNumberify(amount).div(2)`, which rounds towards zero
unfoldable pub half : ℤ → ℤ
half (pos n) = pos (n / 2)
half (negsuc n) = pos 0 -ℤ pos (suc n / 2)

-- `{ [token]: map }`
abbrev pub under_token : String → CoinTransferMap → TokenIndexedCoinTransferMap
under_token token m = (token, m) ∷ []

-- `TwoPartyFixedOutcome`: any number but 0 and 1 splits the amount.
unfoldable pub handle_two_party_fixed_outcome :
    Ethers → OutcomeDecoder → String → TwoPartyParams → Result TokenIndexedCoinTransferMap
unfolding half insert
handle_two_party_fixed_outcome e d encoded params = do
  outcome ← or_throw (d.number encoded) ethers_error
  amount ← or_throw (e.big_numberify params.amount) ethers_error
  let (first, second) = params.player_addrs
  let split = insert second (amount -ℤ half amount) ((first, half amount) ∷ [])
  ok (
      under_token params.token_address (
        if eqb outcome 0
        then (first, amount) ∷ []
        else if eqb outcome 1
        then (second, amount) ∷ []
        else split))

unfoldable pub handle_single_asset_two_party_coin_transfer :
    OutcomeDecoder → String → SingleAssetParams → Result TokenIndexedCoinTransferMap
unfolding insert
handle_single_asset_two_party_coin_transfer d encoded params = do
  transfers ← or_throw (d.two_transfers encoded) ethers_error
  let (t1, t2) = transfers
  ok (under_token params.token_address (insert t2.to t2.amount ((t1.to, t1.amount) ∷ [])))

-- The `reduce` over the token addresses, from index `index` on.
unfoldable pub by_token :
    List (List CoinTransfer)
    → ℕ
    → TokenIndexedCoinTransferMap
    → List String
    → TokenIndexedCoinTransferMap
by_token decoded index acc [] = acc
by_token decoded index acc (token ∷ tokens) =
    by_token decoded (suc index)
      (insert token (convert_coin_transfers_to_map (get_elem? decoded index)) acc) tokens

handle_multi_asset_multi_party_coin_transfer :
    OutcomeDecoder → String → MultiAssetParams → Result TokenIndexedCoinTransferMap
unfolding by_token
handle_multi_asset_multi_party_coin_transfer d encoded params = do
  decoded ← or_throw (d.transfer_lists encoded) ethers_error
  ok (by_token decoded 0 [] params.token_addresses)

-- The loop over the attempts: `next` holds the answers of the chain that are still to come, `none`
-- where the call throws. After every attempt that finds no deposit the chain is asked again, after the
-- last one too.
unfoldable pub refund_loop :
    ℕ → OutcomeDecoder → String → String → (ℕ → Option String) → Result TokenIndexedCoinTransferMap
refund_loop zero d token outcome next = err no_nonzero_deposit
refund_loop (suc attempts) d token outcome next =
    let again = λ (answer : String). refund_loop attempts d token answer (λ n. next (suc n)) in
    or_throw (d.two_transfers outcome) ethers_error >>= λ transfers.
    if ltb_ℤ zero_amount transfers.0.amount
    then ok (under_token token ((transfers.0.to, transfers.0.amount) ∷ []))
    else or_throw (next 0) contract_error >>= again

abbrev pub max_attempts : ℕ
max_attempts = 10

handle_refund_app_outcome_special_case :
    OutcomeDecoder → String → String → (ℕ → Option String) → Result TokenIndexedCoinTransferMap
unfolding refund_loop
handle_refund_app_outcome_special_case d token outcome next =
    refund_loop max_attempts d token outcome next

-- A parameter that is missing is `undefined`, and reading it throws.
given : {P : Type 0} → Result (Option P) → Result P
given r = do p ← r; or_throw p type_error

-- `refund_token state` is the token of a state with a `threshold`; `chain` gives the outcomes that
-- the provider answers with, in order, `none` where it throws.
unfoldable pub compute_token_indexed_free_balance_increments :
    {V : Type 0}
    → Ethers
    → OutcomeDecoder
    → (V → Option String)
    → AppInstance V
    → (ℕ → Option String)
    → String
    → Result TokenIndexedCoinTransferMap
unfolding given handle_refund_app_outcome_special_case handle_multi_asset_multi_party_coin_transfer
compute_token_indexed_free_balance_increments e d refund_token app chain override =
    let queried = override == "" in
    let next = λ (n : ℕ). if queried then chain (suc n) else chain n in
    (if queried then or_throw (chain 0) contract_error else ok override) >>= λ outcome.
    elim (refund_token app.latest_state) [
      | some token ↦ handle_refund_app_outcome_special_case d token outcome next
      | none ↦ elim app.outcome_type [
        | two_party_fixed_outcome ↦
            given (two_party_params app) >>= handle_two_party_fixed_outcome e d outcome
        | single_asset_two_party_coin_transfer ↦
            given (single_asset_params app)
            >>= handle_single_asset_two_party_coin_transfer d outcome
        | multi_asset_multi_party_coin_transfer ↦
            given (multi_asset_params app)
            >>= handle_multi_asset_multi_party_coin_transfer d outcome
      ]
    ]
