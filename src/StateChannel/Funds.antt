-- ===== src/StateChannel/Funds.antt =====
-- The methods of `StateChannel` that change its free balance, and the ones that create a channel.
use counterfactual.Prelude.{ℕ, String, Option, none, some, List, []}
use counterfactual.Errors.{Result, ◌>>=◌}
use counterfactual.External.{Ethers, AbiCoder}
use counterfactual.FreeBalanceApp.{TokenIndexedCoinTransferMap}
use counterfactual.FreeBalance
use counterfactual.FreeBalance.{
  FreeBalance, FreeBalanceApp, FreeBalanceStateJson, increment, to_app_instance,
  create_free_balance,
}
use counterfactual.StateChannel.{
  StateChannel, construct, free_balance, get_free_balance_class, build, no_args, number_or,
}

module _ {V : Type 0} (e : Ethers) (abi : AbiCoder FreeBalanceStateJson) where
  unfoldable pub set_free_balance : StateChannel V → FreeBalance → Result (StateChannel V)
  set_free_balance sc new_free_balance = do
    old ← free_balance sc
    app ← to_app_instance e abi new_free_balance old
    build (record no_args { free_balance_app_instance = some app }) sc

  unfoldable pub increment_free_balance :
      StateChannel V → TokenIndexedCoinTransferMap → Result (StateChannel V)
  increment_free_balance sc increments = do
    fb ← get_free_balance_class e sc
    fb' ← increment increments fb
    old ← free_balance sc
    app ← to_app_instance e abi fb' old
    build (record no_args { free_balance_app_instance = some app }) sc

  unfoldable pub add_active_app : StateChannel V → String → Result (StateChannel V)
  add_active_app sc active_app = do
    fb ← get_free_balance_class e sc
    old ← free_balance sc
    app ← to_app_instance e abi (FreeBalance.add_active_app active_app fb) old
    build (record no_args { free_balance_app_instance = some app }) sc

  unfoldable pub remove_active_app : StateChannel V → String → Result (StateChannel V)
  remove_active_app sc active_app = do
    fb ← get_free_balance_class e sc
    old ← free_balance sc
    app ← to_app_instance e abi (FreeBalance.remove_active_app active_app fb) old
    build (record no_args { free_balance_app_instance = some app }) sc

  unfoldable pub add_active_app_and_increment_free_balance :
      StateChannel V → String → TokenIndexedCoinTransferMap → Result (StateChannel V)
  unfolding add_active_app increment_free_balance
  add_active_app_and_increment_free_balance sc active_app increments = do
    sc' ← increment_free_balance sc increments
    add_active_app sc' active_app

  unfoldable pub remove_active_app_and_increment_free_balance :
      StateChannel V → String → TokenIndexedCoinTransferMap → Result (StateChannel V)
  unfolding remove_active_app increment_free_balance
  remove_active_app_and_increment_free_balance sc active_app increments = do
    sc' ← remove_active_app sc active_app
    increment_free_balance sc' increments

abbrev free_balance_default_timeout : ℕ
free_balance_default_timeout = 172800

-- The fields of a channel that is set up.
abbrev pub new_channel :
    {V : Type 0} → Ethers → String → String → List String → Option ℕ → StateChannel V
new_channel e free_balance_app_address multisig_address user_neutered_extended_keys timeout =
    record {
      multisig_address = multisig_address;
      user_neutered_extended_keys = user_neutered_extended_keys;
      proposed_app_instances = [];
      app_instances = [];
      agreements = [];
      free_balance_app_instance = some (
          create_free_balance e user_neutered_extended_keys free_balance_app_address
            (number_or timeout free_balance_default_timeout));
      monotonic_num_proposed_apps = 1;
    }

unfoldable pub setup_channel :
    {V : Type 0} → Ethers → String → String → List String → Option ℕ → Result (StateChannel V)
setup_channel e free_balance_app_address multisig_address user_neutered_extended_keys timeout =
    construct
      (new_channel e free_balance_app_address multisig_address user_neutered_extended_keys timeout)

unfoldable pub create_empty_channel : {V : Type 0} → String → List String → Result (StateChannel V)
create_empty_channel multisig_address user_neutered_extended_keys = construct (record {
  multisig_address = multisig_address;
  user_neutered_extended_keys = user_neutered_extended_keys;
  proposed_app_instances = [];
  app_instances = [];
  agreements = [];
  free_balance_app_instance = none;
  monotonic_num_proposed_apps = 1;
})
