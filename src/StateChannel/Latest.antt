-- ===== src/StateChannel/Latest.antt =====
-- `mostRecentlyInstalledAppInstance` goes by the sequence numbers of the installed apps.
use mathlib.Core.Path.{subst}
use counterfactual.Prelude.{
  ◌≤◌, ◌<◌, String, ◌≡◌, ◌≢◌, some, List, [], ◌∷◌, foldl, arith, All, eq_iff,
}
use counterfactual.Errors.{ok, err, no_installed_apps}
use counterfactual.External.{Ethers, EthersLaws, AbiCoder}
use counterfactual.Dict.{lookup, values}
use counterfactual.Dict.Laws.{lookup-insert}
use counterfactual.Dict.Build.{All-lookup}
use counterfactual.AppInstance.{AppInstance, identity_hash}
use counterfactual.FreeBalance.{FreeBalance, FreeBalanceStateJson}
use counterfactual.FreeBalance.Increment.{IsSolvent}
use counterfactual.FreeBalanceApp.{TokenIndexedCoinTransferMap}
use counterfactual.StateChannel.{StateChannel, later_app, most_recently_installed_app_instance}
use counterfactual.StateChannel.Apps.{install_app}
use counterfactual.StateChannel.Holding.{Holds}
use counterfactual.StateChannel.Installing.{AreAmounts, install_app_lem}

module _ {V : Type 0} where
  -- The app has no greater number than `a`.
  abbrev IsNoLaterThan : AppInstance V → AppInstance V → Type 0
  IsNoLaterThan a b = b.app_seq_no ≤ a.app_seq_no

  later_app-bounds :
      (a b : AppInstance V) → IsNoLaterThan (later_app a b) a × IsNoLaterThan (later_app a b) b
  unfolding later_app
  later_app-bounds a b = (ground arith, ground arith)

  later_app-first :
      (a : AppInstance V) (rest : List (AppInstance V)) → IsNoLaterThan (foldl later_app a rest) a
  later_app-first a [] = omega arith
  later_app-first a (b ∷ rest) =
      omega (arith, later_app-first (later_app a b) rest, (later_app-bounds a b).0)

  later_app-All :
      (a : AppInstance V) (rest : List (AppInstance V))
      → All (IsNoLaterThan (foldl later_app a rest)) rest
  later_app-All a [] = tt
  later_app-All a (b ∷ rest) = (
    omega (arith, later_app-first (later_app a b) rest, (later_app-bounds a b).1),
    later_app-All (later_app a b) rest,
  )

  latest-All :
      (apps : List (AppInstance V)) {recent : AppInstance V}
      → (elim apps [ [] ↦ err no_installed_apps | a ∷ rest ↦ ok (foldl later_app a rest) ])
        ≡ ok recent
      → All (IsNoLaterThan recent) apps
  latest-All [] h = cc
  latest-All (a ∷ rest) {recent} h =
      let same : foldl later_app a rest ≡ recent = cc h in
      subst (λ r. All (IsNoLaterThan r) (a ∷ rest)) same
        (later_app-first a rest, later_app-All a rest)

  -- The most recently installed app has the greatest sequence number of all installed ones.
  pub most_recently_installed_app_instance-All :
      (sc : StateChannel V) {recent : AppInstance V}
      → most_recently_installed_app_instance sc ≡ ok recent
      → All (IsNoLaterThan recent) (values sc.app_instances)
  unfolding most_recently_installed_app_instance
  most_recently_installed_app_instance-All sc h = latest-All (values sc.app_instances) h

module _ {V : Type 0} (e : Ethers) (laws : EthersLaws e) (abi : AbiCoder FreeBalanceStateJson)
    (sc : StateChannel V) (fb : FreeBalance) (h : Holds e sc fb) (app : AppInstance V)
    (decrements : TokenIndexedCoinTransferMap) where
  -- In a channel whose balances are zero or above, and for well-formed decrements: after an
  -- installation that returns, the most recently installed app has a greater sequence number than the
  -- app that was installed, if an app that is there under another hash has one.
  pub install_app-most_recent :
      {sc' : StateChannel V} {recent older : AppInstance V} (k : String)
      → AreAmounts e decrements
      → IsSolvent fb
      → install_app e abi app decrements sc ≡ ok sc'
      → lookup k sc.app_instances ≡ some older
      → identity_hash e app ≢ k
      → app.app_seq_no < older.app_seq_no
      → most_recently_installed_app_instance sc' ≡ ok recent
      → app.app_seq_no < recent.app_seq_no
  install_app-most_recent {sc'} {recent} {older} k amounts solvent p there other lt latest =
      let (_, _, result, _, _, _, _) =
        install_app_lem e laws abi sc fb h app decrements amounts solvent p in
      let all = most_recently_installed_app_instance-All sc' latest in
      let bound = All-lookup (IsNoLaterThan recent) k sc'.app_instances recent all (omega arith) in
      let found : lookup k sc'.app_instances ≡ some older = rw result (
        ground (
          arith,
          lookup-insert (identity_hash e app) k app sc.app_instances,
          eq_iff (identity_hash e app) k,
          there,
          other,
        )) in
      ground (arith, bound, found, lt)
