-- ===== src/FreeBalance/Increment.antt =====
-- `increment` of models/free-balance.ts as a whole.
use counterfactual.Prelude.{String, ◌≡◌, ◌↔◌, true, arith}
use counterfactual.Prelude.Int.{pos, ◌+ℤ◌, ◌≤ℤ◌, +ℤ-zero}
use counterfactual.Errors.{ok}
use counterfactual.Dict.{keys, has, IsDict}
use counterfactual.Dict.Laws.{mem-keys}
use counterfactual.FreeBalanceApp.{TokenIndexedCoinTransferMap}
use counterfactual.FreeBalance.{FreeBalance, increment}
use counterfactual.FreeBalance.Conversion.{balance_at}
use counterfactual.FreeBalance.Loop.{
  amount_for, amount_for-absent, keys-Distinct, increment_tokens-balance, increment_tokens-active,
  increment_tokens-nonneg, increment_tokens-ok,
}

-- Every balance is raised by its increment.
abbrev pub RaisedBy : TokenIndexedCoinTransferMap → FreeBalance → FreeBalance → Type 0
RaisedBy increments fb fb' =
    (t a : String) → balance_at fb' t a ≡ balance_at fb t a +ℤ amount_for increments t a

-- No balance falls below zero under the increments.
abbrev pub Affordable : TokenIndexedCoinTransferMap → FreeBalance → Type 0
Affordable increments fb =
    (t a : String)
    → has t increments ≡ true
    → pos 0 ≤ℤ balance_at fb t a +ℤ amount_for increments t a

-- No balance is below zero.
pub record IsSolvent (fb : FreeBalance) : Type 0 where
  pub nonneg : (t a : String) → pos 0 ≤ℤ balance_at fb t a

module _ (increments : TokenIndexedCoinTransferMap) (distinct : IsDict increments) where
  -- For increments that name no token twice: an increment that returns has raised every balance by its amount and left the active apps alone.
  pub increment-RaisedBy :
      (fb fb' : FreeBalance)
      → increment increments fb ≡ ok fb'
      → RaisedBy increments fb fb' × (fb'.active_apps_map ≡ fb.active_apps_map)
  unfolding increment
  increment-RaisedBy fb fb' h = (
    λ t a. ground (
      arith,
      increment_tokens-balance increments (keys increments) fb fb'
          (keys-Distinct increments distinct) h t a,
      mem-keys t increments,
      amount_for-absent increments t a,
      +ℤ-zero (balance_at fb t a),
    ),
    increment_tokens-active increments (keys increments) fb fb' h,
  )

  -- For increments that name no token twice: an increment returns exactly where no balance of a token that it names would fall below zero.
  pub increment_iff :
      (fb : FreeBalance)
      → Affordable increments fb ↔ ((fb' : FreeBalance) × (increment increments fb ≡ ok fb'))
  unfolding increment
  increment_iff fb = (
    λ h.
        increment_tokens-ok increments (keys increments) fb (keys-Distinct increments distinct)
          λ t a there. h t a (rw mem-keys at there),
    λ (fb', h) t a there.
        increment_tokens-nonneg increments (keys increments) fb fb'
          (keys-Distinct increments distinct) h t a (rw (mem-keys t increments) there),
  )

  -- For increments that name no token twice: incrementing keeps every balance at zero or above.
  pub increment-IsSolvent :
      (fb fb' : FreeBalance) → IsSolvent fb → increment increments fb ≡ ok fb' → IsSolvent fb'
  increment-IsSolvent fb fb' solvent h = record {
    nonneg = λ t a. ground (
      arith,
      (increment-RaisedBy fb fb' h).0 t a,
      (increment_iff fb).1 (fb', h) t a,
      amount_for-absent increments t a,
      +ℤ-zero (balance_at fb t a),
      solvent.nonneg t a,
    );
  }
