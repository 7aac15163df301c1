-- ===== src/StateChannel.antt =====
-- packages/node/src/models/state-channel.ts and app-instance-proposal.ts: a channel, its constructor
-- and what it answers about itself. `V` is the type of the states of apps. The methods that return a
-- changed channel stand in StateChannel/Funds.antt and StateChannel/Apps.antt.
pub mod Funds
pub mod Apps
pub mod Json
pub mod Holding
pub mod Moving
pub mod Installing
pub mod Uninstalling
pub mod Success
pub mod Proposals
pub mod Latest
pub mod Frame
pub mod Agreements
pub mod RoundTrip
use text.Mathlib.Text.{starts_with}
use counterfactual.Prelude.{
  ℕ, ◌+◌, String, ◌==◌, Bool, true, false, not, ◌&&◌, ◌||◌, Option, none, some, List, [], ◌∷◌, ◌++◌,
  map, foldl, length, ltb, eqb, if◌then◌else◌,
}
use counterfactual.Errors.{
  Result, ok, err, ◌>>=◌, ◌>>◌, guard, or_throw, type_error, invalid_extended_keys,
  app_does_not_exist, no_installed_apps, no_proposed_apps, no_app_of_kind, no_free_balance,
  not_multisig_owner, no_free_balance_account, no_virtual_agreement,
}
use counterfactual.External.{Ethers}
use counterfactual.Dict.{Dict, lookup, has, values, or_else}
use counterfactual.AppInstance.{AppInstance, OutcomeType}
use counterfactual.FreeBalance.{FreeBalance, FreeBalanceApp, from_app_instance}
use counterfactual.Xkeys.{xkey_kth_address, sort_addresses}

pub record AbiEncodings : Type 0 where
  pub state_encoding : String
  pub action_encoding : Option String

pub record AppInstanceProposal (V : Type 0) : Type 0 where
  pub identity_hash : String
  pub app_definition : String
  pub abi_encodings : AbiEncodings
  pub initiator_deposit : String
  pub initiator_deposit_token_address : String
  pub responder_deposit : String
  pub responder_deposit_token_address : String
  pub timeout : String
  pub initial_state : V
  pub app_seq_no : ℕ
  pub proposed_by_identifier : String
  pub proposed_to_identifier : String
  pub intermediary_identifier : Option String
  pub outcome_type : OutcomeType

-- `SingleAssetTwoPartyIntermediaryAgreement`
pub record Agreement : Type 0 where
  pub time_locked_pass_through_identity_hash : String
  pub capital_provided : String
  pub capital_provider : String
  pub virtual_app_user : String
  pub token_address : String

pub record StateChannel (V : Type 0) : Type 0 where
  pub multisig_address : String
  pub user_neutered_extended_keys : List String
  pub proposed_app_instances : Dict (AppInstanceProposal V)
  pub app_instances : Dict (AppInstance V)
  pub agreements : Dict Agreement
  pub free_balance_app_instance : Option FreeBalanceApp
  pub monotonic_num_proposed_apps : ℕ

unfoldable pub all_start_with_xpub : List String → Bool
all_start_with_xpub [] = true
all_start_with_xpub (x ∷ xs) = if starts_with x "xpub" then all_start_with_xpub xs else false

-- The first two elements of an array, where one of them is `key`.
unfoldable pub first_two_have : String → List String → Bool
first_two_have key [] = false
first_two_have key (a ∷ []) = key == a
first_two_have key (a ∷ b ∷ rest) = key == a || key == b

module _ {V : Type 0} where
  -- The constructor: the channel with these fields, or a throw.
  unfoldable pub construct : StateChannel V → Result (StateChannel V)
  construct sc =
      guard (all_start_with_xpub sc.user_neutered_extended_keys) invalid_extended_keys >> ok sc

  unfoldable pub get_signing_keys_for : Ethers → StateChannel V → ℕ → List String
  get_signing_keys_for e sc index =
      sort_addresses (map (λ xpub. xkey_kth_address e xpub index) sc.user_neutered_extended_keys)

  unfoldable pub multisig_owners : Ethers → StateChannel V → List String
  unfolding get_signing_keys_for
  multisig_owners e sc = get_signing_keys_for e sc 0

  unfoldable pub get_next_signing_keys : Ethers → StateChannel V → List String
  unfolding get_signing_keys_for
  get_next_signing_keys e sc = get_signing_keys_for e sc sc.monotonic_num_proposed_apps

  abbrev pub num_proposed_apps : StateChannel V → ℕ
  num_proposed_apps sc = sc.monotonic_num_proposed_apps

  num_active_apps : StateChannel V → ℕ
  num_active_apps sc = length sc.app_instances

  unfoldable pub get_app_instance : StateChannel V → String → Result (AppInstance V)
  get_app_instance sc hash = or_throw (lookup hash sc.app_instances) app_does_not_exist

  abbrev pub has_app_instance : StateChannel V → String → Bool
  has_app_instance sc hash = has hash sc.app_instances

  -- The apps whose definition stands at `address`.
  of_kind : String → List (AppInstance V) → List (AppInstance V)
  of_kind address [] = []
  of_kind address (a ∷ rest) =
      if a.app_interface.addr == address then a ∷ of_kind address rest else of_kind address rest

  has_app_instance_of_kind : StateChannel V → String → Bool
  unfolding of_kind
  has_app_instance_of_kind sc address = ltb 0 (length (of_kind address (values sc.app_instances)))

  get_app_instance_of_kind : StateChannel V → String → Result (AppInstance V)
  unfolding of_kind
  get_app_instance_of_kind sc address = elim (of_kind address (values sc.app_instances)) [
    | [] ↦ err no_app_of_kind
    | a ∷ rest ↦ elim rest [ [] ↦ ok a | _ ∷ _ ↦ err no_app_of_kind ]
  ]

  unfoldable pub later_app : AppInstance V → AppInstance V → AppInstance V
  later_app prev current = if ltb prev.app_seq_no current.app_seq_no then current else prev

  unfoldable pub most_recently_installed_app_instance : StateChannel V → Result (AppInstance V)
  unfolding later_app
  most_recently_installed_app_instance sc = elim (values sc.app_instances) [
    | [] ↦ err no_installed_apps
    | a ∷ rest ↦ ok (foldl later_app a rest)
  ]

  unfoldable pub later_proposal :
      AppInstanceProposal V → AppInstanceProposal V → AppInstanceProposal V
  later_proposal prev current = if ltb prev.app_seq_no current.app_seq_no then current else prev

  unfoldable pub most_recently_proposed_app_instance :
      StateChannel V → Result (AppInstanceProposal V)
  most_recently_proposed_app_instance sc = elim (values sc.proposed_app_instances) [
    | [] ↦ err no_proposed_apps
    | p ∷ ps ↦ ok (foldl later_proposal p ps)
  ]

  has_free_balance : StateChannel V → Bool
  has_free_balance sc = elim sc.free_balance_app_instance [ none ↦ false | some _ ↦ true ]

  unfoldable pub free_balance : StateChannel V → Result FreeBalanceApp
  free_balance sc = or_throw sc.free_balance_app_instance no_free_balance

  unfoldable pub get_multisig_owner_addr_of : Ethers → StateChannel V → String → Result String
  unfolding first_two_have multisig_owners
  get_multisig_owner_addr_of e sc xpub =
      let top_level_key = xkey_kth_address e xpub 0 in
      guard (first_two_have top_level_key (multisig_owners e sc)) not_multisig_owner
      >> ok top_level_key

  unfoldable pub get_free_balance_addr_of : Ethers → StateChannel V → String → Result String
  unfolding first_two_have
  get_free_balance_addr_of e sc xpub = do
    app ← or_throw sc.free_balance_app_instance type_error
    let top_level_key = xkey_kth_address e xpub 0
    guard (first_two_have top_level_key app.participants) no_free_balance_account
    ok top_level_key

  unfoldable pub get_free_balance_class : Ethers → StateChannel V → Result FreeBalance
  unfolding free_balance
  get_free_balance_class e sc = do app ← free_balance sc; from_app_instance e app

  -- `getSingleAssetTwoPartyIntermediaryAgreementFromVirtualApp`
  unfoldable pub get_agreement_from_virtual_app : StateChannel V → String → Result Agreement
  get_agreement_from_virtual_app sc key = or_throw (lookup key sc.agreements) no_virtual_agreement

-- The arguments of `build`: a field that is left out, empty or zero is taken from the channel.
pub record BuildArgs (V : Type 0) : Type 0 where
  pub multisig_address : Option String
  pub user_neutered_extended_keys : Option (List String)
  pub app_instances : Option (Dict (AppInstance V))
  pub proposed_app_instances : Option (Dict (AppInstanceProposal V))
  pub agreements : Option (Dict Agreement)
  pub free_balance_app_instance : Option FreeBalanceApp
  pub monotonic_num_proposed_apps : Option ℕ

abbrev pub no_args : {V : Type 0} → BuildArgs V
no_args = record {
  multisig_address = none;
  user_neutered_extended_keys = none;
  app_instances = none;
  proposed_app_instances = none;
  agreements = none;
  free_balance_app_instance = none;
  monotonic_num_proposed_apps = none;
}

-- `text || other` and `number || other`
abbrev pub text_or : Option String → String → String
text_or none other = other
text_or (some s) other = if s == "" then other else s

abbrev pub number_or : Option ℕ → ℕ → ℕ
number_or none other = other
number_or (some n) other = if eqb n 0 then other else n

abbrev pub object_or {ℓ} : {A : Type ℓ} → Option A → Option A → Option A
object_or none other = other
object_or (some a) other = some a

unfoldable pub build : {V : Type 0} → BuildArgs V → StateChannel V → Result (StateChannel V)
unfolding construct
build args sc = construct (record {
  multisig_address = text_or args.multisig_address sc.multisig_address;
  user_neutered_extended_keys =
      or_else args.user_neutered_extended_keys sc.user_neutered_extended_keys;
  proposed_app_instances = or_else args.proposed_app_instances sc.proposed_app_instances;
  app_instances = or_else args.app_instances sc.app_instances;
  agreements = or_else args.agreements sc.agreements;
  free_balance_app_instance = object_or args.free_balance_app_instance sc.free_balance_app_instance;
  monotonic_num_proposed_apps =
      number_or args.monotonic_num_proposed_apps sc.monotonic_num_proposed_apps;
})
