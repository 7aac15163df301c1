-- ===== src/Protocols.antt =====
-- packages/node/src/engine/{enums,types}.ts: the protocols, their parameters and their messages.
use counterfactual.Prelude.{ℕ, String, Bool, Option, none, some, List}
use counterfactual.Prelude.Int.{ℤ, negsuc}
use counterfactual.AppInstance.{AppInterface, OutcomeType}
use counterfactual.StateChannel.{AbiEncodings}

pub data Protocol : Type 0 where
  install install_virtual_app setup propose take_action uninstall uninstall_virtual_app update :
      Protocol
  withdraw : Protocol

pub record UpdateParams (V : Type 0) : Type 0 where
  pub initiator_xpub : String
  pub responder_xpub : String
  pub multisig_address : String
  pub app_identity_hash : String
  pub new_state : V

pub record TakeActionParams (V : Type 0) : Type 0 where
  pub initiator_xpub : String
  pub responder_xpub : String
  pub multisig_address : String
  pub app_identity_hash : String
  pub action : V

pub record UninstallParams : Type 0 where
  pub app_identity_hash : String
  pub initiator_xpub : String
  pub responder_xpub : String
  pub multisig_address : String

pub record ProposeInstallParams (V : Type 0) : Type 0 where
  pub multisig_address : String
  pub initiator_xpub : String
  pub responder_xpub : String
  pub app_definition : String
  pub abi_encodings : AbiEncodings
  pub initiator_deposit : ℤ
  pub initiator_deposit_token_address : Option String
  pub responder_deposit : ℤ
  pub responder_deposit_token_address : Option String
  pub timeout : ℤ
  pub initial_state : V
  pub outcome_type : OutcomeType

pub record InstallParams (V : Type 0) : Type 0 where
  pub initiator_xpub : String
  pub initiator_deposit_token_address : String
  pub responder_xpub : String
  pub responder_deposit_token_address : String
  pub multisig_address : String
  pub initiator_balance_decrement : ℤ
  pub responder_balance_decrement : ℤ
  pub participants : List String
  pub initial_state : V
  pub app_interface : AppInterface
  pub default_timeout : ℕ
  pub app_seq_no : ℕ
  pub outcome_type : OutcomeType
  pub disable_limit : Bool

pub record SetupParams : Type 0 where
  pub initiator_xpub : String
  pub responder_xpub : String
  pub multisig_address : String

pub record WithdrawParams : Type 0 where
  pub initiator_xpub : String
  pub responder_xpub : String
  pub multisig_address : String
  pub recipient : String
  pub amount : ℤ
  pub token_address : String

pub record InstallVirtualAppParams (V : Type 0) : Type 0 where
  pub initiator_xpub : String
  pub responder_xpub : String
  pub intermediary_xpub : String
  pub default_timeout : ℕ
  pub app_interface : AppInterface
  pub initial_state : V
  pub initiator_balance_decrement : ℤ
  pub responder_balance_decrement : ℤ
  pub token_address : String
  pub app_seq_no : ℕ
  pub outcome_type : OutcomeType

pub record UninstallVirtualAppParams : Type 0 where
  pub initiator_xpub : String
  pub responder_xpub : String
  pub intermediary_xpub : String
  pub target_app_identity_hash : String
  pub target_outcome : String

-- The parameters of the protocols.
pub data ProtocolParams (V : Type 0) : Type 0 where
  update_params : UpdateParams V → ProtocolParams V
  take_action_params : TakeActionParams V → ProtocolParams V
  uninstall_params : UninstallParams → ProtocolParams V
  propose_params : ProposeInstallParams V → ProtocolParams V
  setup_params : SetupParams → ProtocolParams V
  install_params : InstallParams V → ProtocolParams V
  withdraw_params : WithdrawParams → ProtocolParams V
  install_virtual_params : InstallVirtualAppParams V → ProtocolParams V
  uninstall_virtual_params : UninstallVirtualAppParams → ProtocolParams V

-- `customData`, with the entries that the protocols put there.
pub record CustomData : Type 0 where
  pub signature : Option String
  pub signature2 : Option String
  pub signature3 : Option String
  pub signature4 : Option String
  pub data_persisted : Option Bool

abbrev pub no_data : CustomData
no_data = record {
  signature = none;
  signature2 = none;
  signature3 = none;
  signature4 = none;
  data_persisted = none;
}

abbrev pub signed : String → CustomData
signed sig = record no_data { signature = some sig }

abbrev pub signed_twice : String → String → CustomData
signed_twice sig sig2 = record no_data { signature = some sig; signature2 = some sig2 }

pub record Message (V : Type 0) : Type 0 where
  pub process_id : String
  pub protocol : Protocol
  pub params : Option (ProtocolParams V)
  pub to_xpub : String
  pub seq : ℤ
  pub custom_data : CustomData

-- `UNASSIGNED_SEQ_NO`
abbrev pub unassigned_seq_no : ℤ
unassigned_seq_no = negsuc 0
