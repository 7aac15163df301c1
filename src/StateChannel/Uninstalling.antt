-- ===== src/StateChannel/Uninstalling.antt =====
-- `uninstallApp` of models/state-channel.ts, and what an installation and it do together.
use counterfactual.Prelude.{◌+◌, String, ◌≡◌, ◌∙◌, ap, some, none, arith, eq_iff}
use counterfactual.Prelude.Int.{◌+ℤ◌, -ℤ-cancel}
use counterfactual.Errors.{ok, >>=-eq-ok}
use counterfactual.External.{Ethers, EthersLaws, AbiCoder}
use counterfactual.Dict.{lookup, erase}
use counterfactual.Dict.Laws.{erase-insert_new}
use counterfactual.FreeBalanceApp.{TokenIndexedCoinTransferMap}
use counterfactual.AppInstance.{AppInstance, identity_hash}
use counterfactual.FreeBalance.{FreeBalance, FreeBalanceStateJson, remove_active_app, serialize}
use counterfactual.FreeBalance.Conversion.{balance_at}
use counterfactual.FreeBalance.Loop.{amount_for}
use counterfactual.FreeBalance.Increment.{
  IsSolvent, RaisedBy, increment-RaisedBy, increment-IsSolvent,
}
use counterfactual.StateChannel.{StateChannel, build, get_app_instance}
use counterfactual.StateChannel.Apps.{install_app, uninstall_app}
use counterfactual.StateChannel.Holding.{Holds}
use counterfactual.StateChannel.Moving.{remove_and_increment-inv}
use counterfactual.StateChannel.Funds.{remove_active_app_and_increment_free_balance}
use counterfactual.StateChannel.Installing.{AreAmounts, install_app_lem}

module _ {V : Type 0} (e : Ethers) (laws : EthersLaws e) (abi : AbiCoder FreeBalanceStateJson)
    (sc : StateChannel V) (fb : FreeBalance) (h : Holds e sc fb) (hash : String)
    (increments : TokenIndexedCoinTransferMap) where
  abbrev pub without_app : StateChannel V
  without_app = record sc { app_instances = erase hash sc.app_instances }

  uninstall_app-start :
      {sc' : StateChannel V}
      → uninstall_app e abi hash increments sc ≡ ok sc'
      → (app : AppInstance V) × (lookup hash sc.app_instances ≡ some app)
        × (identity_hash e app ≡ hash)
        × (remove_active_app_and_increment_free_balance e abi without_app hash increments ≡ ok sc')
  unfolding uninstall_app get_app_instance build
  uninstall_app-start p =
      let (app, q, r) = >>=-eq-ok (get_app_instance sc hash) _ p in
      (
        app,
        ground arith,
        ground (arith, eq_iff (identity_hash e app) hash),
        ground (arith, eq_iff (identity_hash e app) hash, h.xpubs),
      )

  abbrev pub Holds-without_app : Holds e without_app fb
  Holds-without_app = record {
    app = h.app;
    here = h.here;
    state = h.state;
    formed = h.formed;
    xpubs = h.xpubs;
  }

  -- The channel after the removal: the app is gone, and the free balance app has moved on by two
  -- versions to a state that keeps `fb'`.
  abbrev pub uninstalled : FreeBalance → StateChannel V
  uninstalled fb' = record sc {
    app_instances = erase hash sc.app_instances;
    free_balance_app_instance = some (record h.app {
      latest_state = serialize e fb';
      latest_version_number = h.app.latest_version_number + 1 + 1;
      latest_timeout = h.app.default_timeout;
    });
  }

  -- In a channel whose balances are zero or above, and for well-formed increments, an
  -- uninstallation that returns has found the app under its own hash, raised every balance by its
  -- increment and left none below zero, taken the app and its hash off the installed and the
  -- active ones, moved the free balance app on by two versions, and changed nothing else.
  pub uninstall_app_lem :
      {sc' : StateChannel V}
      → AreAmounts e increments
      → IsSolvent fb
      → uninstall_app e abi hash increments sc ≡ ok sc'
      → (app : AppInstance V) × (lookup hash sc.app_instances ≡ some app)
        × (identity_hash e app ≡ hash)
        × (fb' : FreeBalance) × (sc' ≡ uninstalled fb')
        × Holds e sc' fb'
        × RaisedBy increments fb fb'
        × IsSolvent fb'
        × (fb'.active_apps_map ≡ erase hash fb.active_apps_map)
  unfolding remove_active_app
  uninstall_app_lem amounts solvent p =
      let (app, found, named, q) = uninstall_app-start p in
      let (fb₂, inc, result, holds) =
        remove_and_increment-inv e laws abi without_app fb Holds-without_app increments
          amounts.tokens hash q in
      let removed = remove_active_app hash fb in
      let (raised, same) = increment-RaisedBy increments amounts.distinct removed fb₂ inc in
      (
        app,
        found,
        named,
        fb₂,
        result,
        holds,
        raised,
        increment-IsSolvent increments amounts.distinct removed fb₂
            (record { nonneg = solvent.nonneg }) inc,
        same,
      )

-- In a channel whose balances are zero or above, and for well-formed amounts, an app that is not
-- installed yet, installed with some decrements and then removed with the same amounts as
-- increments, leaves every balance and the installed apps as they were.
pub uninstall_app-install_app :
    {V : Type 0} (e : Ethers) (laws : EthersLaws e) (abi : AbiCoder FreeBalanceStateJson)
    (sc : StateChannel V) (fb : FreeBalance) (h : Holds e sc fb) (app : AppInstance V)
    (amounts : TokenIndexedCoinTransferMap) {sc' sc'' : StateChannel V}
    → AreAmounts e amounts
    → IsSolvent fb
    → lookup (identity_hash e app) sc.app_instances ≡ none
    → install_app e abi app amounts sc ≡ ok sc'
    → uninstall_app e abi (identity_hash e app) amounts sc' ≡ ok sc''
    → (fb'' : FreeBalance) × Holds e sc'' fb''
      × ((t a : String) → balance_at fb'' t a ≡ balance_at fb t a)
      × (sc''.app_instances ≡ sc.app_instances)
uninstall_app-install_app e laws abi sc fb h app amounts {sc'} are solvent absent p q =
    let hash = identity_hash e app in
    let (signed, fb', result, holds, lowered, solvent', _) =
      install_app_lem e laws abi sc fb h app amounts are solvent p in
    let (_, _, _, fb'', result', holds', raised, _, _) =
      uninstall_app_lem e laws abi sc' fb' holds hash amounts are solvent' q in
    (
      fb'',
      holds',
      λ t a. raised t a ∙ ap (λ z. z +ℤ amount_for amounts t a) (lowered t a) ∙ -ℤ-cancel _ _,
      ap (λ s. s.app_instances) result'
          ∙ ap (λ s. erase hash s.app_instances) result
          ∙ erase-insert_new hash app sc.app_instances absent,
    )
