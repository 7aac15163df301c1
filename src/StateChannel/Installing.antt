-- ===== src/StateChannel/Installing.antt =====
-- `installApp` of models/state-channel.ts.
use counterfactual.Prelude.{◌+◌, String, ◌≡◌, ◌∙◌, ap, true, some, [], arith, All}
use counterfactual.Prelude.Int.{pos, ◌+ℤ◌, ◌-ℤ◌, +ℤ-neg}
use counterfactual.Errors.{ok}
use counterfactual.External.{Ethers, EthersLaws, AbiCoder}
use counterfactual.Dict.{lookup, insert, keys, values, IsDict, or_else}
use counterfactual.Dict.Build.{All-lookup}
use counterfactual.FreeBalanceApp.{TokenIndexedCoinTransferMap, flip_token_indexed_balances}
use counterfactual.FreeBalanceApp.Laws.{
  amount_at-flip, lookup-flip_token_indexed_balances, flip_token_indexed_balances-IsDict,
  All-flip_token_indexed_balances,
}
use counterfactual.AppInstance.{AppInstance, identity_hash}
use counterfactual.FreeBalance.{FreeBalance, FreeBalanceStateJson, add_active_app, serialize}
use counterfactual.FreeBalance.Conversion.{balance_at}
use counterfactual.FreeBalance.Loop.{amount_for}
use counterfactual.FreeBalance.Increment.{IsSolvent, increment-RaisedBy, increment-IsSolvent}
use counterfactual.FreeBalance.WellFormed.{IsToken}
use counterfactual.StateChannel.{StateChannel, build, get_signing_keys_for}
use counterfactual.StateChannel.Apps.{install_app, every_at}
use counterfactual.StateChannel.Holding.{Holds}
use counterfactual.StateChannel.Moving.{add_and_increment-inv}
use counterfactual.StateChannel.Funds.{add_active_app_and_increment_free_balance}

-- Amounts by token and address that a protocol passes: no key stands twice, tokens are checksummed.
pub record AreAmounts (e : Ethers) (m : TokenIndexedCoinTransferMap) : Type 0 where
  pub distinct : IsDict m
  pub inner : All IsDict (values m)
  pub tokens : All (IsToken e) (keys m)

-- Every balance is lowered by its decrement.
abbrev pub LoweredBy : TokenIndexedCoinTransferMap → FreeBalance → FreeBalance → Type 0
LoweredBy decrements fb fb' =
    (t a : String) → balance_at fb' t a ≡ balance_at fb t a -ℤ amount_for decrements t a

pub amount_for-flip :
    (decrements : TokenIndexedCoinTransferMap) (t a : String)
    → IsDict decrements
    → All IsDict (values decrements)
    → amount_for (flip_token_indexed_balances decrements) t a ≡ pos 0 -ℤ amount_for decrements t a
amount_for-flip decrements t a distinct inner =
    rw (lookup-flip_token_indexed_balances t decrements distinct) (
      amount_at-flip a (or_else (lookup t decrements) [])
        (All-lookup IsDict t decrements [] inner tt))

-- The app that `install_app` puts into the channel, before it touches the free balance.
abbrev pub with_installed : {V : Type 0} → Ethers → AppInstance V → StateChannel V → StateChannel V
with_installed e app sc = record sc {
  app_instances = insert (identity_hash e app) app sc.app_instances;
}

module _ {V : Type 0} (e : Ethers) (laws : EthersLaws e) (abi : AbiCoder FreeBalanceStateJson)
    (sc : StateChannel V) (fb : FreeBalance) (h : Holds e sc fb) (app : AppInstance V)
    (decrements : TokenIndexedCoinTransferMap) where
  abbrev pub hash : String
  hash = identity_hash e app

  install_app-start :
      {sc' : StateChannel V}
      → install_app e abi app decrements sc ≡ ok sc'
      → (every_at (get_signing_keys_for e sc app.app_seq_no) app.participants ≡ true)
        × (add_active_app_and_increment_free_balance e abi
              (with_installed e app sc)
              hash
              (flip_token_indexed_balances decrements)
            ≡ ok sc')
  unfolding install_app build
  install_app-start p = ground (arith, h.xpubs)

  abbrev pub Holds-with_installed : Holds e (with_installed e app sc) fb
  Holds-with_installed = record {
    app = h.app;
    here = h.here;
    state = h.state;
    formed = h.formed;
    xpubs = h.xpubs;
  }

  -- The channel after the installation: the app is there, and the free balance app has moved on by
  -- two versions to a state that keeps `fb'`.
  abbrev pub installed : FreeBalance → StateChannel V
  installed fb' = record sc {
    app_instances = insert hash app sc.app_instances;
    free_balance_app_instance = some (record h.app {
      latest_state = serialize e fb';
      latest_version_number = h.app.latest_version_number + 1 + 1;
      latest_timeout = h.app.default_timeout;
    });
  }

  -- In a channel whose balances are zero or above, and for well-formed decrements, an
  -- installation that returns has found the channel's keys among the app's participants, lowered
  -- every balance by its decrement and none below zero, put the app under its hash and its hash
  -- among the active apps, moved the free balance app on by two versions, and changed nothing
  -- else.
  pub install_app_lem :
      {sc' : StateChannel V}
      → AreAmounts e decrements
      → IsSolvent fb
      → install_app e abi app decrements sc ≡ ok sc'
      → (every_at (get_signing_keys_for e sc app.app_seq_no) app.participants ≡ true)
        × (fb' : FreeBalance) × (sc' ≡ installed fb')
        × Holds e sc' fb'
        × LoweredBy decrements fb fb'
        × IsSolvent fb'
        × (fb'.active_apps_map ≡ insert hash tt fb.active_apps_map)
  unfolding add_active_app
  install_app_lem amounts solvent p =
      let (signed, q) = install_app-start p in
      let flipped = flip_token_indexed_balances decrements in
      let distinct = flip_token_indexed_balances-IsDict decrements in
      let (fb₁, inc, result, holds) =
        add_and_increment-inv e laws abi (with_installed e app sc) fb Holds-with_installed flipped
          (All-flip_token_indexed_balances (IsToken e) decrements amounts.tokens) hash q in
      let (raised, same) = increment-RaisedBy flipped distinct fb fb₁ inc in
      (
        signed,
        add_active_app hash fb₁,
        result,
        holds,
        λ t a.
            raised t a
            ∙ ap (λ z. balance_at fb t a +ℤ z)
                (amount_for-flip decrements t a amounts.distinct amounts.inner)
            ∙ +ℤ-neg (balance_at fb t a) (amount_for decrements t a),
        record { nonneg = (increment-IsSolvent flipped distinct fb fb₁ solvent inc).nonneg },
        ap (insert hash tt) same,
      )
