-- ===== src/StateChannel/Success.antt =====
-- `installApp` and `uninstallApp` return where the participants are right and the funds suffice.
use counterfactual.Prelude.{String, ◌≡◌, ◌∙◌, true, some, arith, All, eq_refl}
use counterfactual.Prelude.Int.{pos, ◌-ℤ◌, ◌≤ℤ◌, +ℤ-neg, +ℤ-nonneg}
use counterfactual.Errors.{ok}
use counterfactual.External.{Ethers, EthersLaws, AbiCoder}
use counterfactual.Dict.{lookup, keys, has}
use counterfactual.FreeBalanceApp.{TokenIndexedCoinTransferMap, flip_token_indexed_balances}
use counterfactual.FreeBalanceApp.Laws.{
  flip_token_indexed_balances-IsDict, All-flip_token_indexed_balances,
}
use counterfactual.AppInstance.{AppInstance, identity_hash}
use counterfactual.FreeBalance
use counterfactual.FreeBalance.{
  FreeBalance, FreeBalanceApp, FreeBalanceStateJson, serialize, increment, remove_active_app,
}
use counterfactual.FreeBalance.Conversion.{balance_at}
use counterfactual.FreeBalance.Loop.{amount_for}
use counterfactual.FreeBalance.Increment.{Affordable, IsSolvent, increment_iff}
use counterfactual.FreeBalance.WellFormed.{
  IsToken, increment-IsWellFormed, remove_active_app-IsWellFormed,
}
use counterfactual.StateChannel.{StateChannel, build, get_app_instance, get_signing_keys_for}
use counterfactual.StateChannel.Apps.{install_app, uninstall_app, every_at}
use counterfactual.StateChannel.Holding.{
  Holds, next_app, with_app, set_free_balance-ok, Holds-with_app, increment_free_balance-Holds,
  add_active_app-Holds, remove_active_app-Holds,
}
use counterfactual.StateChannel.Funds.{
  add_active_app_and_increment_free_balance, increment_free_balance,
  remove_active_app_and_increment_free_balance,
}
use counterfactual.StateChannel.Installing.{
  AreAmounts, with_installed, amount_for-flip, Holds-with_installed,
}
use counterfactual.StateChannel.Uninstalling.{without_app, Holds-without_app}

-- The coder encodes the state that keeps `fb`, in the encoding of the free balance app.
abbrev pub Encodes : Ethers → AbiCoder FreeBalanceStateJson → FreeBalanceApp → FreeBalance → Type 0
Encodes e abi app fb =
    (bytes : String) × (abi.encode app.app_interface.state_encoding (serialize e fb) ≡ some bytes)

module _ {V : Type 0} (e : Ethers) (laws : EthersLaws e) (abi : AbiCoder FreeBalanceStateJson) where
  module _ (sc : StateChannel V) (fb : FreeBalance) (h : Holds e sc fb)
      (increments : TokenIndexedCoinTransferMap) (tokens : All (IsToken e) (keys increments))
      (hash : String) where
    add_and_increment-ok :
        {fb₁ : FreeBalance}
        → Encodes e abi h.app fb₁
        → Encodes e abi h.app (FreeBalance.add_active_app hash fb₁)
        → increment increments fb ≡ ok fb₁
        → (sc' : StateChannel V) × (add_active_app_and_increment_free_balance e abi sc hash
              increments
            ≡ ok sc')
    unfolding add_active_app_and_increment_free_balance
    add_and_increment-ok {fb₁} before after inc =
        let h₁ =
          Holds-with_app e laws abi sc fb h fb₁
            (increment-IsWellFormed e increments tokens h.formed inc) in
        let mid : StateChannel V = with_app sc (next_app e h.app fb₁) in
        let first : increment_free_balance e abi sc increments ≡ ok mid =
          increment_free_balance-Holds e laws abi sc fb h increments
          ∙ rw inc (set_free_balance-ok e laws abi sc fb h fb₁ before.1) in
        let added = FreeBalance.add_active_app hash fb₁ in
        (
          with_app mid (next_app e h₁.app added),
          rw first (
              add_active_app-Holds e laws abi mid fb₁ h₁ hash
              ∙ set_free_balance-ok e laws abi mid fb₁ h₁ added after.1),
        )

    remove_and_increment-ok :
        {fb₂ : FreeBalance}
        → Encodes e abi h.app (FreeBalance.remove_active_app hash fb)
        → Encodes e abi h.app fb₂
        → increment increments (FreeBalance.remove_active_app hash fb) ≡ ok fb₂
        → (sc' : StateChannel V) × (remove_active_app_and_increment_free_balance e abi sc hash
              increments
            ≡ ok sc')
    unfolding remove_active_app_and_increment_free_balance
    remove_and_increment-ok {fb₂} before after inc =
        let fb₁ = FreeBalance.remove_active_app hash fb in
        let h₁ =
          Holds-with_app e laws abi sc fb h fb₁ (remove_active_app-IsWellFormed e hash h.formed) in
        let mid : StateChannel V = with_app sc (next_app e h.app fb₁) in
        let first =
          remove_active_app-Holds e laws abi sc fb h hash
          ∙ set_free_balance-ok e laws abi sc fb h fb₁ before.1 in
        (
          with_app mid (next_app e h₁.app fb₂),
          rw first (
              increment_free_balance-Holds e laws abi mid fb₁ h₁ increments
              ∙ rw inc (set_free_balance-ok e laws abi mid fb₁ h₁ fb₂ after.1)),
        )

  module _ (sc : StateChannel V) (fb : FreeBalance) (h : Holds e sc fb) where
    -- In a channel that holds the free balance `fb`, an app with the channel's keys as
    -- participants installs with well-formed decrements, if no balance would fall below zero
    -- and the ABI coder encodes the two states that the free balance moves on to: the one
    -- with the lowered balances, and that one with the app.
    pub install_app_returns :
        (app : AppInstance V) (decrements : TokenIndexedCoinTransferMap)
        → AreAmounts e decrements
        → every_at (get_signing_keys_for e sc app.app_seq_no) app.participants ≡ true
        → ((t a : String) → pos 0 ≤ℤ balance_at fb t a -ℤ amount_for decrements t a)
        → ((fb₁ : FreeBalance)
            → increment (flip_token_indexed_balances decrements) fb ≡ ok fb₁
            → Encodes e abi h.app fb₁
              × Encodes e abi h.app (FreeBalance.add_active_app (identity_hash e app) fb₁))
        → (sc' : StateChannel V) × (install_app e abi app decrements sc ≡ ok sc')
    unfolding install_app build
    install_app_returns app decrements amounts signed covered encoded =
        let flipped = flip_token_indexed_balances decrements in
        let afford : Affordable flipped fb = λ t a _.
          rw (amount_for-flip decrements t a amounts.distinct amounts.inner)
            (rw (+ℤ-neg (balance_at fb t a) (amount_for decrements t a)) (covered t a)) in
        let (fb₁, inc) =
          (increment_iff flipped (flip_token_indexed_balances-IsDict decrements) fb).0 afford in
        let (before, after) = encoded fb₁ inc in
        rw (signed, h.xpubs)
          (add_and_increment-ok (with_installed e app sc) fb
            (Holds-with_installed e laws abi sc fb h app decrements) flipped
            (All-flip_token_indexed_balances (IsToken e) decrements amounts.tokens)
            (identity_hash e app) before after inc)

    -- In a channel that holds a free balance without negative amounts, an app that stands
    -- under its own hash uninstalls with well-formed increments, if none of them is below
    -- zero and the ABI coder encodes the two states that the free balance moves on to: the
    -- one without the app, and that one with the raised balances.
    pub uninstall_app_returns :
        (hash : String) {app : AppInstance V} (increments : TokenIndexedCoinTransferMap)
        → AreAmounts e increments
        → lookup hash sc.app_instances ≡ some app
        → identity_hash e app ≡ hash
        → IsSolvent fb
        → ((t a : String) → pos 0 ≤ℤ amount_for increments t a)
        → Encodes e abi h.app (FreeBalance.remove_active_app hash fb)
        → ((fb₂ : FreeBalance)
            → increment increments (FreeBalance.remove_active_app hash fb) ≡ ok fb₂
            → Encodes e abi h.app fb₂)
        → (sc' : StateChannel V) × (uninstall_app e abi hash increments sc ≡ ok sc')
    unfolding uninstall_app get_app_instance build remove_active_app
    uninstall_app_returns hash {app} increments amounts found named solvent paid before after =
        let removed = remove_active_app hash fb in
        let afford : Affordable increments removed =
          λ t a _. +ℤ-nonneg _ _ (solvent.nonneg t a) (paid t a) in
        let (fb₂, inc) = (increment_iff increments amounts.distinct removed).0 afford in
        let there : has hash sc.app_instances ≡ true = ground arith in
        rw (found, named, eq_refl hash)
          (rw (there, h.xpubs)
            (remove_and_increment-ok (without_app e laws abi sc fb h hash increments) fb
              (Holds-without_app e laws abi sc fb h hash increments) increments amounts.tokens hash
              before (after fb₂ inc) inc))
