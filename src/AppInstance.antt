-- ===== src/AppInstance.antt =====
-- packages/node/src/models/app-instance.ts, and the types of packages/types/src/{app-instance,
-- data-types}.ts that it uses. The app's state is of any type `S`.
pub mod Laws
pub mod Interpreter
use counterfactual.Prelude.{
  ℕ, ◌+◌, String, Bool, true, false, Option, none, some, List, ◌≡◌, if◌then◌else◌,
}
use counterfactual.Errors.{
  Result, ok, err, ◌>>=◌, or_throw, invalid_accessor, invalid_state, ethers_error, type_error,
}
use counterfactual.External.{Ethers, AbiCoder}

pub record AppInterface : Type 0 where
  pub addr : String
  pub state_encoding : String
  pub action_encoding : Option String

pub record AppIdentity : Type 0 where
  pub participants : List String
  pub app_definition : String
  pub default_timeout : ℕ
  pub channel_nonce : ℕ

pub data OutcomeType : Type 0 where
  two_party_fixed_outcome : OutcomeType
  multi_asset_multi_party_coin_transfer : OutcomeType
  single_asset_two_party_coin_transfer : OutcomeType

pub record TwoPartyParams : Type 0 where
  pub player_addrs : String × String
  pub amount : String
  pub token_address : String

pub record MultiAssetParams : Type 0 where
  pub limit : List String
  pub token_addresses : List String

pub record SingleAssetParams : Type 0 where
  pub limit : String
  pub token_address : String

pub record AppInstance (S : Type 0) : Type 0 where
  pub participants : List String
  pub default_timeout : ℕ
  pub app_interface : AppInterface
  pub is_virtual_app : Bool
  pub app_seq_no : ℕ
  pub latest_state : S
  pub latest_version_number : ℕ
  pub latest_timeout : ℕ
  pub outcome_type : OutcomeType
  pub two_party_internal : Option TwoPartyParams
  pub multi_asset_internal : Option MultiAssetParams
  pub single_asset_internal : Option SingleAssetParams

pub record AppInstanceJson (S : Type 0) : Type 0 where
  pub identity_hash : String
  pub participants : List String
  pub default_timeout : ℕ
  pub app_interface : AppInterface
  pub is_virtual_app : Bool
  pub app_seq_no : ℕ
  pub latest_state : S
  pub latest_version_number : ℕ
  pub latest_timeout : ℕ
  pub outcome_type : OutcomeType
  pub two_party_params : Option TwoPartyParams
  pub multi_asset_params : Option MultiAssetParams
  pub single_asset_params : Option SingleAssetParams

-- packages/node/src/ethereum/utils/app-identity.ts
unfoldable pub app_identity_to_hash : Ethers → AppIdentity → String
app_identity_to_hash e i =
    e.keccak256 (e.encode_nonce_and_participants i.channel_nonce i.participants)

module _ {S : Type 0} where
  -- The accessors of the interpreter parameters.
  unfoldable pub two_party_params : AppInstance S → Result (Option TwoPartyParams)
  two_party_params a = elim a.outcome_type [
    | OutcomeType.two_party_fixed_outcome ↦ ok a.two_party_internal
    | _ ↦ err invalid_accessor
  ]

  unfoldable pub multi_asset_params : AppInstance S → Result (Option MultiAssetParams)
  multi_asset_params a = elim a.outcome_type [
    | OutcomeType.multi_asset_multi_party_coin_transfer ↦ ok a.multi_asset_internal
    | _ ↦ err invalid_accessor
  ]

  unfoldable pub single_asset_params : AppInstance S → Result (Option SingleAssetParams)
  single_asset_params a = elim a.outcome_type [
    | OutcomeType.single_asset_two_party_coin_transfer ↦ ok a.single_asset_internal
    | _ ↦ err invalid_accessor
  ]

  unfoldable pub identity : AppInstance S → AppIdentity
  identity a = record {
    participants = a.participants;
    app_definition = a.app_interface.addr;
    default_timeout = a.default_timeout;
    channel_nonce = a.app_seq_no;
  }

  unfoldable pub identity_hash : Ethers → AppInstance S → String
  unfolding identity app_identity_to_hash
  identity_hash e a = app_identity_to_hash e (identity a)

  unfoldable pub from_json : AppInstanceJson S → AppInstance S
  from_json j = record {
    participants = j.participants;
    default_timeout = j.default_timeout;
    app_interface = j.app_interface;
    is_virtual_app = j.is_virtual_app;
    app_seq_no = j.app_seq_no;
    latest_state = j.latest_state;
    latest_version_number = j.latest_version_number;
    latest_timeout = j.latest_timeout;
    outcome_type = j.outcome_type;
    two_party_internal = j.two_party_params;
    multi_asset_internal = j.multi_asset_params;
    single_asset_internal = j.single_asset_params;
  }

  unfoldable pub to_json : Ethers → AppInstance S → AppInstanceJson S
  to_json e a = record {
    identity_hash = identity_hash e a;
    participants = a.participants;
    default_timeout = a.default_timeout;
    app_interface = a.app_interface;
    is_virtual_app = a.is_virtual_app;
    app_seq_no = a.app_seq_no;
    latest_state = a.latest_state;
    latest_version_number = a.latest_version_number;
    latest_timeout = a.latest_timeout;
    outcome_type = a.outcome_type;
    two_party_params = a.two_party_internal;
    multi_asset_params = a.multi_asset_internal;
    single_asset_params = a.single_asset_internal;
  }

module _ {S : Type 0} (e : Ethers) (abi : AbiCoder S) where
  unfoldable pub encoded_latest_state : AppInstance S → Result String
  encoded_latest_state a =
      or_throw (abi.encode a.app_interface.state_encoding a.latest_state) ethers_error

  unfoldable pub hash_of_latest_state : AppInstance S → Result String
  unfolding encoded_latest_state
  hash_of_latest_state a = do bytes ← encoded_latest_state a; ok (e.keccak256 bytes)

  -- `setState(newState, timeout = this.defaultTimeout)`
  unfoldable pub set_state : AppInstance S → S → Option ℕ → Result (AppInstance S)
  unfolding from_json to_json
  set_state a new_state timeout = do
    checked ← or_throw (abi.encode a.app_interface.state_encoding new_state) invalid_state
    ok (
        from_json (record (to_json e a) {
          latest_state = new_state;
          latest_version_number = a.latest_version_number + 1;
          latest_timeout = elim timeout [ none ↦ a.default_timeout | some t ↦ t ];
        }))
