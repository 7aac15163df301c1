-- ===== src/StateChannel/Json.antt =====
-- A channel as JSON, as the store keeps it.
use counterfactual.Prelude.{ℕ, String, Option, none, some, List, [], map}
use counterfactual.Errors.{Result}
use counterfactual.External.{Ethers}
use counterfactual.Dict.{Dict, of_entries, or_else}
use counterfactual.AppInstance
use counterfactual.AppInstance.{AppInstance, AppInstanceJson}
use counterfactual.FreeBalance.{FreeBalanceStateJson}
use counterfactual.StateChannel.{StateChannel, AppInstanceProposal, Agreement, construct}

-- Each list of entries may be missing.
pub record StateChannelJson (V : Type 0) : Type 0 where
  pub multisig_address : String
  pub user_neutered_extended_keys : List String
  pub proposed_app_instances : Option (List (String × AppInstanceProposal V))
  pub app_instances : Option (List (String × AppInstanceJson V))
  pub agreements : Option (List (String × Agreement))
  pub free_balance_app_instance : Option (AppInstanceJson FreeBalanceStateJson)
  pub monotonic_num_proposed_apps : ℕ

module _ {V : Type 0} where
  abbrev pub apps_to_json : Ethers → Dict (AppInstance V) → List (String × AppInstanceJson V)
  apps_to_json e apps = map (λ entry. (entry.0, AppInstance.to_json e entry.1)) apps

  abbrev pub apps_from_json : List (String × AppInstanceJson V) → List (String × AppInstance V)
  apps_from_json entries = map (λ entry. (entry.0, AppInstance.from_json entry.1)) entries

  unfoldable pub to_json : Ethers → StateChannel V → StateChannelJson V
  to_json e sc = record {
    multisig_address = sc.multisig_address;
    user_neutered_extended_keys = sc.user_neutered_extended_keys;
    proposed_app_instances = some sc.proposed_app_instances;
    app_instances = some (apps_to_json e sc.app_instances);
    agreements = some sc.agreements;
    free_balance_app_instance = elim sc.free_balance_app_instance [
      | none ↦ none
      | some a ↦ some (AppInstance.to_json e a)
    ];
    monotonic_num_proposed_apps = sc.monotonic_num_proposed_apps;
  }

  unfoldable pub from_json : StateChannelJson V → Result (StateChannel V)
  from_json json = construct (record {
    multisig_address = json.multisig_address;
    user_neutered_extended_keys = json.user_neutered_extended_keys;
    proposed_app_instances =
        of_entries (map (λ p. (p.0, p.1)) (or_else json.proposed_app_instances []));
    app_instances = of_entries (apps_from_json (or_else json.app_instances []));
    agreements = of_entries (or_else json.agreements []);
    free_balance_app_instance = elim json.free_balance_app_instance [
      | none ↦ none
      | some a ↦ some (AppInstance.from_json a)
    ];
    monotonic_num_proposed_apps = json.monotonic_num_proposed_apps;
  })
