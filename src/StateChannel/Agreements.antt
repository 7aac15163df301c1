-- ===== src/StateChannel/Agreements.antt =====
-- `removeSingleAssetTwoPartyIntermediaryAgreement` of models/state-channel.ts.
use counterfactual.Prelude.{[], ◌∷◌, ◌==◌, ◌∙◌, String, ◌≡◌, refl, inl, inr, Bool-cases}
use counterfactual.Prelude.Int.{+ℤ-zero}
use counterfactual.Errors.{ok}
use counterfactual.External.{Ethers}
use counterfactual.Dict.{lookup}
use counterfactual.FreeBalanceApp.{
  CoinTransferMap, TokenIndexedCoinTransferMap, amount_at, zero_amount,
}
use counterfactual.FreeBalance.Loop.{amount_for}
use counterfactual.External.{EthersLaws, AbiCoder}
use counterfactual.Errors.{guard->>-eq-ok, agreement_missing}
use counterfactual.Dict.{has, erase}
use counterfactual.FreeBalance
use counterfactual.FreeBalance.{FreeBalance, FreeBalanceStateJson}
use counterfactual.FreeBalance.Conversion.{balance_at}
use counterfactual.FreeBalance.Increment.{increment-RaisedBy}
use counterfactual.FreeBalance.WellFormed.{IsToken}
use counterfactual.StateChannel.{StateChannel, build, construct}
use counterfactual.StateChannel.Apps.{remove_agreement}
use counterfactual.StateChannel.Holding.{Holds}
use counterfactual.StateChannel.Moving.{remove_and_increment-inv}

amount_for-nothing :
    (token : String) (given : CoinTransferMap) (t who : String)
    → amount_at given who ≡ zero_amount
    → amount_for ((token, given) ∷ []) t who ≡ zero_amount
unfolding lookup
amount_for-nothing token given t who nothing = elim (Bool-cases (token == t)) [
  | inl same ↦ rw (same, nothing) refl
  | inr other ↦ rw other refl
]

-- Removing an agreement with amounts of zero leaves every balance as it is.
pub remove_agreement-nothing :
    {V : Type 0} (e : Ethers) (laws : EthersLaws e) (fb_abi : AbiCoder FreeBalanceStateJson)
    (sc : StateChannel V) (fb : FreeBalance) (h : Holds e sc fb) (target token : String)
    (given : CoinTransferMap) {sc' : StateChannel V}
    → IsToken e token
    → ((who : String) → amount_at given who ≡ zero_amount)
    → remove_agreement e fb_abi target given token sc ≡ ok sc'
    → (fb' : FreeBalance) × Holds e sc' fb'
      × ((t who : String) → balance_at fb' t who ≡ balance_at fb t who)
unfolding remove_agreement build construct lookup FreeBalance.remove_active_app
remove_agreement-nothing e laws fb_abi sc fb h target token given is_token nothing removed =
    let (_, h1) = guard->>-eq-ok (has target sc.agreements) agreement_missing _ removed in
    let mid = record sc { agreements = erase target sc.agreements } in
    let held : Holds e mid fb = record {
      app = h.app;
      here = h.here;
      state = h.state;
      formed = h.formed;
      xpubs = h.xpubs;
    } in
    let increments : TokenIndexedCoinTransferMap = (token, given) ∷ [] in
    let (fb', inc, _, holds) =
      remove_and_increment-inv e laws fb_abi mid fb held increments (is_token, tt) target
        (rw h.xpubs at h1) in
    let (raised, _) =
      increment-RaisedBy increments (refl, tt) (FreeBalance.remove_active_app target fb) fb' inc in
    let no_change =
      λ (t : String) (who : String). amount_for-nothing token given t who (nothing who) in
    (fb', holds, λ t who. raised t who ∙ rw (no_change t who) (+ℤ-zero (balance_at fb t who)))
