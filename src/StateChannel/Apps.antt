-- ===== src/StateChannel/Apps.antt =====
-- The methods of `StateChannel` on proposals, installed apps and virtual app agreements.
use counterfactual.Prelude.{
  ◌+◌, String, ◌==◌, Bool, true, false, none, some, List, [], ◌∷◌, if◌then◌else◌,
}
use counterfactual.Errors.{
  Result, ◌>>=◌, ◌>>◌, guard, incorrect_participants, inconsistent_app_key, delete_failed,
  agreement_missing,
}
use counterfactual.External.{Ethers, AbiCoder}
use counterfactual.Dict.{insert, erase, has}
use counterfactual.FreeBalanceApp.{
  CoinTransferMap, TokenIndexedCoinTransferMap, flip, flip_token_indexed_balances,
}
use counterfactual.AppInstance
use counterfactual.AppInstance.{AppInstance, identity_hash}
use counterfactual.FreeBalance.{FreeBalanceStateJson}
use counterfactual.StateChannel.{
  StateChannel, AppInstanceProposal, Agreement, build, no_args, get_app_instance,
  get_signing_keys_for,
}
use counterfactual.StateChannel.Funds.{
  add_active_app_and_increment_free_balance, remove_active_app_and_increment_free_balance,
}

-- `participants.every((v, idx) => v === given[idx])`
unfoldable pub every_at : List String → List String → Bool
every_at [] given = true
every_at (v ∷ vs) [] = false
every_at (v ∷ vs) (g ∷ gs) = if v == g then every_at vs gs else false

module _ {V : Type 0} where
  unfoldable pub add_proposal : AppInstanceProposal V → StateChannel V → Result (StateChannel V)
  add_proposal proposal sc =
      build
        (record no_args {
          proposed_app_instances =
              some (insert proposal.identity_hash proposal sc.proposed_app_instances);
          monotonic_num_proposed_apps = some (sc.monotonic_num_proposed_apps + 1);
        })
        sc

  unfoldable pub remove_proposal : String → StateChannel V → Result (StateChannel V)
  remove_proposal app_instance_id sc =
      build
        (record no_args {
          proposed_app_instances = some (erase app_instance_id sc.proposed_app_instances);
        })
        sc

  unfoldable pub add_app_instance :
      Ethers → AppInstance V → StateChannel V → Result (StateChannel V)
  add_app_instance e app sc =
      build
        (record no_args {
          app_instances = some (insert (identity_hash e app) app sc.app_instances);
          monotonic_num_proposed_apps = some (sc.monotonic_num_proposed_apps + 1);
        })
        sc

  unfoldable pub remove_app_instance : String → StateChannel V → Result (StateChannel V)
  remove_app_instance app_instance_id sc =
      build (record no_args { app_instances = some (erase app_instance_id sc.app_instances) }) sc

  unfoldable pub set_state :
      Ethers → AbiCoder V → String → V → StateChannel V → Result (StateChannel V)
  set_state e app_abi hash state sc = do
    app ← get_app_instance sc hash
    app' ← AppInstance.set_state e app_abi app state none
    build (record no_args { app_instances = some (insert hash app' sc.app_instances) }) sc

module _ {V : Type 0} (e : Ethers) (abi : AbiCoder FreeBalanceStateJson) where
  -- `addSingleAssetTwoPartyIntermediaryAgreement`
  unfoldable pub add_agreement :
      String → Agreement → CoinTransferMap → String → StateChannel V → Result (StateChannel V)
  add_agreement target agreement decrements token_address sc = do
    sc' ← build (record no_args { agreements = some (insert target agreement sc.agreements) }) sc
    add_active_app_and_increment_free_balance e abi sc' target
        ((token_address, flip decrements) ∷ [])

  -- `removeSingleAssetTwoPartyIntermediaryAgreement`
  unfoldable pub remove_agreement :
      String → CoinTransferMap → String → StateChannel V → Result (StateChannel V)
  remove_agreement target increments token_address sc = do
    guard (has target sc.agreements) agreement_missing
    sc' ← build (record no_args { agreements = some (erase target sc.agreements) }) sc
    remove_active_app_and_increment_free_balance e abi sc' target ((token_address, increments) ∷ [])

  unfoldable pub install_app :
      AppInstance V → TokenIndexedCoinTransferMap → StateChannel V → Result (StateChannel V)
  install_app app decrements sc = do
    let participants = get_signing_keys_for e sc app.app_seq_no
    guard (every_at participants app.participants) incorrect_participants
    sc' ←
        build
          (record no_args {
            app_instances = some (insert (identity_hash e app) app sc.app_instances);
          })
          sc
    add_active_app_and_increment_free_balance e abi sc' (identity_hash e app)
        (flip_token_indexed_balances decrements)

  unfoldable pub uninstall_app :
      String → TokenIndexedCoinTransferMap → StateChannel V → Result (StateChannel V)
  uninstall_app hash increments sc = do
    app ← get_app_instance sc hash
    guard (identity_hash e app == hash) inconsistent_app_key
    guard (has (identity_hash e app) sc.app_instances) delete_failed
    sc' ←
        build
          (record no_args { app_instances = some (erase (identity_hash e app) sc.app_instances) })
          sc
    remove_active_app_and_increment_free_balance e abi sc' hash increments
