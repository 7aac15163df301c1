-- ===== src/StateChannel/Moving.antt =====
-- Incrementing the free balance of a channel and (un)registering an active app, in one go.
use mathlib.Core.Path.{subst}
use counterfactual.Prelude.{String, ◌≡◌, ◌∙◌, sym, All}
use counterfactual.Errors.{ok, >>=-eq-ok}
use counterfactual.External.{Ethers, EthersLaws, AbiCoder}
use counterfactual.Dict.{keys}
use counterfactual.FreeBalanceApp.{TokenIndexedCoinTransferMap}
use counterfactual.FreeBalance
use counterfactual.FreeBalance.{FreeBalance, FreeBalanceStateJson, increment}
use counterfactual.FreeBalance.WellFormed.{
  IsToken, IsWellFormed, increment-IsWellFormed, add_active_app-IsWellFormed,
  remove_active_app-IsWellFormed,
}
use counterfactual.StateChannel.{StateChannel}
use counterfactual.StateChannel.Funds.{
  set_free_balance, increment_free_balance, add_active_app, remove_active_app,
  add_active_app_and_increment_free_balance, remove_active_app_and_increment_free_balance,
}
use counterfactual.StateChannel.Holding.{
  Holds, next_app, with_app, set_free_balance-inv, Holds-with_app, increment_free_balance-Holds,
  add_active_app-Holds, remove_active_app-Holds,
}

module _ {V : Type 0} (e : Ethers) (laws : EthersLaws e) (abi : AbiCoder FreeBalanceStateJson)
    (sc : StateChannel V) (fb : FreeBalance) (h : Holds e sc fb)
    (increments : TokenIndexedCoinTransferMap) (tokens : All (IsToken e) (keys increments))
    (hash : String) where
  -- What a successful increment and registration has done.
  pub add_and_increment-inv :
      {sc' : StateChannel V}
      → add_active_app_and_increment_free_balance e abi sc hash increments ≡ ok sc'
      → (fb₁ : FreeBalance) × (increment increments fb ≡ ok fb₁)
        × (sc'
            ≡ with_app sc (next_app e (next_app e h.app fb₁) (FreeBalance.add_active_app hash fb₁)))
        × Holds e sc' (FreeBalance.add_active_app hash fb₁)
  unfolding add_active_app_and_increment_free_balance
  add_and_increment-inv {sc'} p =
      let (sc₁, q, r) =
        >>=-eq-ok (increment_free_balance e abi sc increments) (λ s. add_active_app e abi s hash)
          p in
      let (fb₁, inc, stored) =
        >>=-eq-ok (increment increments fb) (set_free_balance e abi sc)
          (sym (increment_free_balance-Holds e laws abi sc fb h increments) ∙ q) in
      second sc₁ r fb₁ inc (set_free_balance-inv e laws abi sc fb h fb₁ stored)
    where
      second :
          (sc₁ : StateChannel V)
          → add_active_app e abi sc₁ hash ≡ ok sc'
          → (fb₁ : FreeBalance) → increment increments fb ≡ ok fb₁
          → sc₁ ≡ with_app sc (next_app e h.app fb₁)
          → (fb₁ : FreeBalance) × (increment increments fb ≡ ok fb₁)
            × (sc'
                ≡ with_app sc
                    (next_app e (next_app e h.app fb₁) (FreeBalance.add_active_app hash fb₁)))
            × Holds e sc' (FreeBalance.add_active_app hash fb₁)
      second sc₁ r fb₁ inc same =
          let formed = increment-IsWellFormed e increments tokens h.formed inc in
          let h₁ = Holds-with_app e laws abi sc fb h fb₁ formed in
          let mid : StateChannel V = with_app sc (next_app e h.app fb₁) in
          let r' : add_active_app e abi mid hash ≡ ok sc' = rw same at r in
          let last =
            set_free_balance-inv e laws abi mid fb₁ h₁ (FreeBalance.add_active_app hash fb₁)
              (sym (add_active_app-Holds e laws abi mid fb₁ h₁ hash) ∙ r') in
          (
            fb₁,
            inc,
            last,
            subst (λ s. Holds e s (FreeBalance.add_active_app hash fb₁)) (sym last)
                (Holds-with_app e laws abi mid fb₁ h₁ (FreeBalance.add_active_app hash fb₁)
                  (add_active_app-IsWellFormed e hash formed)),
          )

  -- What a successful removal and increment has done.
  pub remove_and_increment-inv :
      {sc' : StateChannel V}
      → remove_active_app_and_increment_free_balance e abi sc hash increments ≡ ok sc'
      → (fb₂ : FreeBalance) × (increment increments (FreeBalance.remove_active_app hash fb)
          ≡ ok fb₂)
        × (sc'
            ≡ with_app sc
                (next_app e (next_app e h.app (FreeBalance.remove_active_app hash fb)) fb₂))
        × Holds e sc' fb₂
  unfolding remove_active_app_and_increment_free_balance
  remove_and_increment-inv {sc'} p =
      let (sc₁, q, r) =
        >>=-eq-ok (remove_active_app e abi sc hash) (λ s. increment_free_balance e abi s increments)
          p in
      second sc₁ r (
        set_free_balance-inv e laws abi sc fb h fb₁
          (sym (remove_active_app-Holds e laws abi sc fb h hash) ∙ q))
    where
      fb₁ : FreeBalance
      fb₁ = FreeBalance.remove_active_app hash fb

      formed : IsWellFormed e fb₁
      formed = remove_active_app-IsWellFormed e hash h.formed

      mid : StateChannel V
      mid = with_app sc (next_app e h.app fb₁)

      h₁ : Holds e mid fb₁
      h₁ = Holds-with_app e laws abi sc fb h fb₁ formed

      second :
          (sc₁ : StateChannel V)
          → increment_free_balance e abi sc₁ increments ≡ ok sc'
          → sc₁ ≡ mid
          → (fb₂ : FreeBalance) × (increment increments fb₁ ≡ ok fb₂)
            × (sc' ≡ with_app sc (next_app e (next_app e h.app fb₁) fb₂))
            × Holds e sc' fb₂
      second sc₁ r same =
          let r' : increment_free_balance e abi mid increments ≡ ok sc' = rw same at r in
          let (fb₂, inc, stored) =
            >>=-eq-ok (increment increments fb₁) (set_free_balance e abi mid)
              (sym (increment_free_balance-Holds e laws abi mid fb₁ h₁ increments) ∙ r') in
          let last = set_free_balance-inv e laws abi mid fb₁ h₁ fb₂ stored in
          (
            fb₂,
            inc,
            last,
            subst (λ s. Holds e s fb₂) (sym last)
                (Holds-with_app e laws abi mid fb₁ h₁ fb₂
                  (increment-IsWellFormed e increments tokens formed inc)),
          )
