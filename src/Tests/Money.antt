-- ===== src/Tests/Money.antt =====
-- The theorems on balances and outcomes at concrete amounts.
use counterfactual.Prelude.{
  Option, ℕ, zero, suc, ◌<◌, ltb, String, ◌==◌, eq_iff, ◌≢◌, ◌≡◌, ◌↔◌, refl, ◌||◌, none, some, [],
  ◌∷◌, arith, if◌then◌else◌,
}
use counterfactual.Prelude.Int.{pos, ◌+ℤ◌, ◌-ℤ◌}
use counterfactual.Errors.{ok, err, no_nonzero_deposit, contract_error}
use counterfactual.Dict.{lookup, insert, has, set_of, IsDict}
use counterfactual.FreeBalanceApp.{TokenIndexedCoinTransferMap, amount_at, merge}
use counterfactual.FreeBalanceApp.Laws.{lookup-merge}
use counterfactual.FreeBalance.{
  FreeBalance, eth_token_address, increment, serialize, deserialize, increment_tokens,
  increment_token, some_negative, convert_coin_transfers_to_map, convert_map_to_coin_transfers,
}
use counterfactual.FreeBalance.Increment.{
  RaisedBy, Affordable, IsSolvent, increment-RaisedBy, increment_iff, increment-IsSolvent,
}
use counterfactual.FreeBalance.Loop.{amount_for}
use counterfactual.FreeBalance.RoundTrip.{deserialize-serialize}
use counterfactual.AppInstance.{TwoPartyParams, SingleAssetParams}
use counterfactual.Outcome.{
  OutcomeDecoder, half, under_token, handle_two_party_fixed_outcome,
  handle_single_asset_two_party_coin_transfer, refund_loop,
}
use counterfactual.Outcome.Laws.{
  handle_two_party_fixed_outcome-total, handle_single_asset_pays, refund_loop-first,
  refund_loop-none, refund_loop-unanswered, observed, IsEmptyAt,
}
use counterfactual.Tests.{
  toy, toy_laws, alice, bob, funds, funds-IsSolvent, stakes, read_number, stroke_count,
}

alice_ne_bob : alice ≢ bob
alice_ne_bob same = ground (arith, eq_iff alice bob, same)

lookup-merge_example : lookup bob (merge ((alice, pos 10) ∷ []) ((bob, pos 2) ∷ [])) ≡ (
    if has bob ((alice, pos 10) ∷ []) || has bob ((bob, pos 2) ∷ [])
    then some (amount_at ((alice, pos 10) ∷ []) bob +ℤ amount_at ((bob, pos 2) ∷ []) bob)
    else none)
lookup-merge_example = lookup-merge bob ((alice, pos 10) ∷ []) ((bob, pos 2) ∷ [])

stakes-IsDict : IsDict stakes
unfolding lookup
stakes-IsDict = (refl, tt)

-- The funds after the stakes of the two came back.
abbrev more_funds : FreeBalance
more_funds = record funds {
  balances_indexed_by_token =
      (
        eth_token_address,
        record { to = alice; amount = pos 13 } ∷ record { to = bob; amount = pos 7 } ∷ [],
      )
      ∷ [];
}

funds_raised : increment stakes funds ≡ ok more_funds
unfolding increment increment_tokens increment_token some_negative merge lookup insert
    convert_coin_transfers_to_map convert_map_to_coin_transfers ◌+ℤ◌ set_of
funds_raised = refl

increment-RaisedBy_example :
    RaisedBy stakes funds more_funds × (more_funds.active_apps_map ≡ funds.active_apps_map)
increment-RaisedBy_example = increment-RaisedBy stakes stakes-IsDict funds more_funds funds_raised

increment_iff_example :
    Affordable stakes funds ↔ ((fb' : FreeBalance) × (increment stakes funds ≡ ok fb'))
increment_iff_example = increment_iff stakes stakes-IsDict funds

increment-IsSolvent_example : IsSolvent more_funds
increment-IsSolvent_example =
    increment-IsSolvent stakes stakes-IsDict funds more_funds funds-IsSolvent funds_raised

deserialize-serialize_example : deserialize toy (serialize toy funds) ≡ ok funds
unfolding lookup
deserialize-serialize_example = deserialize-serialize toy toy_laws funds tt (refl, tt) (refl, tt)

-- A decoder that reads one transfer list and takes the outcome for its length.
abbrev pays : OutcomeDecoder
pays = record {
  two_transfers =
      λ s. some (record { to = alice; amount = pos 4 }, record { to = bob; amount = pos 1 });
  number = λ s. some 2;
  transfer_lists = λ s. some [];
}

abbrev players : TwoPartyParams
players = record { player_addrs = (alice, bob); amount = "p111"; token_address = eth_token_address }

split_stakes :
    handle_two_party_fixed_outcome toy pays "" players
    ≡ ok (under_token eth_token_address ((alice, pos 1) ∷ (bob, pos 2) ∷ []))
unfolding handle_two_party_fixed_outcome read_number stroke_count half insert ◌-ℤ◌
split_stakes = refl

handle_two_party_fixed_outcome-total_example :
    amount_for
        (under_token eth_token_address ((alice, pos 1) ∷ (bob, pos 2) ∷ []))
        eth_token_address
        alice
      +ℤ amount_for
          (under_token eth_token_address ((alice, pos 1) ∷ (bob, pos 2) ∷ []))
          eth_token_address
          bob
    ≡ pos 3
handle_two_party_fixed_outcome-total_example =
    handle_two_party_fixed_outcome-total toy pays "" players alice_ne_bob read split_stakes
  where
    read : read_number "p111" ≡ some (pos 3)
    read = unfold read_number stroke_count in refl

abbrev asset : SingleAssetParams
asset = record { limit = "p11111"; token_address = eth_token_address }

handle_single_asset_pays_example :
    (m : TokenIndexedCoinTransferMap) × (handle_single_asset_two_party_coin_transfer pays "" asset
      ≡ ok m)
    × (amount_for m eth_token_address alice ≡ pos 4)
    × (amount_for m eth_token_address bob ≡ pos 1)
handle_single_asset_pays_example = handle_single_asset_pays pays "" asset refl alice_ne_bob

-- A decoder whose outcomes hold a deposit only where they say so.
abbrev deposits : OutcomeDecoder
deposits = record {
  two_transfers = λ s. some (
    record { to = alice; amount = if s == "deposit" then pos 4 else pos 0 },
    record { to = bob; amount = pos 0 },
  );
  number = λ s. none;
  transfer_lists = λ s. none;
}

abbrev deposit_at_once : ℕ → Option String
deposit_at_once n = some "deposit"

refund_loop-first_example :
    refund_loop 10 deposits eth_token_address "" deposit_at_once
    ≡ ok (under_token eth_token_address ((alice, pos 4) ∷ []))
refund_loop-first_example =
    refund_loop-first deposits eth_token_address 10 1 "" "deposit" deposit_at_once
      (record { to = alice; amount = pos 4 }) (record { to = bob; amount = pos 0 }) (omega arith)
      before refl refl refl
  where
    before : (j : ℕ) → j < 1 → IsEmptyAt deposits eth_token_address (observed "" deposit_at_once j)
    before zero below = ("", _, refl, refl, refl)
    before (suc j) below = absurd (omega arith)

refund_loop-none_example :
    refund_loop 10 deposits eth_token_address "" (λ n. some "") ≡ err no_nonzero_deposit
refund_loop-none_example =
    refund_loop-none deposits eth_token_address 9 "" (λ n. some "") before refl
  where
    before : (j : ℕ) → j < 10 → IsEmptyAt deposits eth_token_address (observed "" (λ n. some "") j)
    before zero below = ("", _, refl, refl, refl)
    before (suc j) below = ("", _, refl, refl, refl)

-- A chain that answers nine queries and then no more.
abbrev nine_answers : ℕ → Option String
nine_answers n = if ltb n 9 then some "" else none

refund_loop-unanswered_example :
    refund_loop 10 deposits eth_token_address "" nine_answers ≡ err contract_error
refund_loop-unanswered_example =
    refund_loop-unanswered deposits eth_token_address 9 "" nine_answers before refl
  where
    before : (j : ℕ) → j < 10 → IsEmptyAt deposits eth_token_address (observed "" nine_answers j)
    before zero below = ("", _, refl, refl, refl)
    before (suc j) below =
        ("", _, (let few : j < 9 = omega (arith, below) in ground arith), refl, refl)
