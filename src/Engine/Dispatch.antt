-- ===== src/Engine/Dispatch.antt =====
-- engine/protocol-runner.ts: `runProtocolWithMessage` chooses the generator of the party that a message
-- reaches.
use counterfactual.Prelude.{String, Option, some, eqb, if◌then◌else◌}
use counterfactual.Prelude.Int.{ℤ, pos, negsuc}
use counterfactual.Errors.{Result, ok, err, type_error, invalid_seq}
use counterfactual.External.{Ethers, AbiCoder}
use counterfactual.FreeBalance.{FreeBalanceStateJson}
use counterfactual.Store.{Store}
use counterfactual.Commitments.{Signing, NetworkContext}
use counterfactual.Protocols.{
  UninstallVirtualAppParams, uninstall_virtual_params, uninstall_virtual_app,
  InstallVirtualAppParams, install_virtual_params, install_virtual_app, SetupParams, InstallParams,
  WithdrawParams, setup_params, install_params, withdraw_params, setup, install, withdraw, Message,
  ProtocolParams, UpdateParams, TakeActionParams, UninstallParams, ProposeInstallParams,
  propose_params, propose, update_params, take_action_params, uninstall_params, update, take_action,
  uninstall,
}
use counterfactual.Engine.{Contracts, Process, attempt, throw}
use counterfactual.AppInstance.Interpreter.{InterpreterCoder}
use counterfactual.Engine.Setup.{setup_initiating, setup_responding}
use counterfactual.Engine.Install.Exchange.{install_initiating, install_responding}
use counterfactual.Engine.Withdraw.Exchange.{withdraw_initiating, withdraw_responding}
use counterfactual.Engine.VirtualApp.{Mediation}
use counterfactual.Engine.VirtualApp.Install.{virtual_initiating, virtual_responding}
use counterfactual.Engine.VirtualApp.Mediator.{virtual_mediating}
use counterfactual.Engine.VirtualApp.Settling.{Settlement}
use counterfactual.Engine.VirtualApp.Uninstall.{
  settling_initiating, settling_mediating, settling_responding,
}
use counterfactual.Engine.Update.{update_initiating, update_responding}
use counterfactual.Engine.TakeAction.{take_action_initiating, take_action_responding}
use counterfactual.Engine.Propose.{propose_initiating, propose_responding}
use counterfactual.Engine.Uninstall.{Outcomes, uninstall_initiating, uninstall_responding}

-- What a party works with: its libraries, the contracts and their addresses.
pub record Context (V : Type 0) : Type 0 where
  pub ethers : Ethers
  pub signing : Signing
  pub abi : AbiCoder V
  pub fb_abi : AbiCoder FreeBalanceStateJson
  pub contracts : Contracts V
  pub outcomes : Outcomes V
  pub coder : InterpreterCoder
  -- `MaxUint256.toHexString()`
  pub max_uint256 : String
  -- the object of a recipient, a multisig and a threshold
  pub refund_state : String → String → ℤ → V
  pub mediation : Mediation V
  pub settlement : Settlement V
  pub network : NetworkContext

module _ {V : Type 0} where
  -- `protocol[msg.seq]`
  unfoldable pub step : ℤ → Process V → Process V → Process V
  step (pos n) initiating responding =
      if eqb n 0 then initiating else if eqb n 1 then responding else throw invalid_seq
  step (negsuc n) initiating responding = throw invalid_seq

  -- The parameters taken for those of a protocol; of others the fields are `undefined`.
  unfoldable pub as_update : Option (ProtocolParams V) → Result (UpdateParams V)
  as_update (some (update_params p)) = ok p
  as_update _ = err type_error

  unfoldable pub as_take_action : Option (ProtocolParams V) → Result (TakeActionParams V)
  as_take_action (some (take_action_params p)) = ok p
  as_take_action _ = err type_error

  unfoldable pub as_uninstall : Option (ProtocolParams V) → Result UninstallParams
  as_uninstall (some (uninstall_params p)) = ok p
  as_uninstall _ = err type_error

  unfoldable pub as_propose : Option (ProtocolParams V) → Result (ProposeInstallParams V)
  as_propose (some (propose_params p)) = ok p
  as_propose _ = err type_error

  unfoldable pub as_setup : Option (ProtocolParams V) → Result SetupParams
  as_setup (some (setup_params p)) = ok p
  as_setup _ = err type_error

  unfoldable pub as_install : Option (ProtocolParams V) → Result (InstallParams V)
  as_install (some (install_params p)) = ok p
  as_install _ = err type_error

  unfoldable pub as_withdraw : Option (ProtocolParams V) → Result WithdrawParams
  as_withdraw (some (withdraw_params p)) = ok p
  as_withdraw _ = err type_error

  unfoldable pub as_install_virtual : Option (ProtocolParams V) → Result (InstallVirtualAppParams V)
  as_install_virtual (some (install_virtual_params p)) = ok p
  as_install_virtual _ = err type_error

  unfoldable pub as_uninstall_virtual : Option (ProtocolParams V) → Result UninstallVirtualAppParams
  as_uninstall_virtual (some (uninstall_virtual_params p)) = ok p
  as_uninstall_virtual _ = err type_error

  -- `protocol[msg.seq]` of a protocol between three parties
  unfoldable pub step_of_three : ℤ → Process V → Process V → Process V → Process V
  step_of_three (pos n) initiating mediating responding =
      if eqb n 0
      then initiating
      else if eqb n 1
      then mediating
      else if eqb n 2
      then responding
      else throw invalid_seq
  step_of_three (negsuc n) initiating mediating responding = throw invalid_seq

module _ {V : Type 0} (ctx : Context V) where
  unfoldable pub run_protocol_with_message : Store V → Message V → Process V
  unfolding step step_of_three as_install_virtual as_uninstall_virtual as_update as_take_action
      as_uninstall as_propose as_setup as_install as_withdraw
  run_protocol_with_message store m = elim m.protocol [
    | update ↦ attempt (as_update m.params) λ p.
        step m.seq
          (update_initiating ctx.ethers ctx.signing ctx.abi ctx.network store m.process_id p)
          (update_responding ctx.ethers ctx.signing ctx.abi ctx.network store m.process_id p
            m.custom_data.signature)
    | take_action ↦ attempt (as_take_action m.params) λ p.
        step m.seq
          (take_action_initiating ctx.ethers ctx.signing ctx.abi ctx.contracts ctx.network store
            m.process_id p)
          (take_action_responding ctx.ethers ctx.signing ctx.abi ctx.contracts ctx.network store
            m.process_id p m.custom_data.signature)
    | uninstall ↦ attempt (as_uninstall m.params) λ p.
        step m.seq
          (uninstall_initiating ctx.ethers ctx.signing ctx.fb_abi ctx.outcomes ctx.network store
            m.process_id p)
          (uninstall_responding ctx.ethers ctx.signing ctx.fb_abi ctx.outcomes ctx.network store
            m.process_id p m.custom_data.signature)
    | propose ↦ attempt (as_propose m.params) λ p.
        step m.seq
          (propose_initiating ctx.ethers ctx.signing ctx.abi ctx.network store m.process_id p)
          (propose_responding ctx.ethers ctx.signing ctx.abi ctx.network store m.process_id p
            m.custom_data.signature)
    | setup ↦ attempt (as_setup m.params) λ p.
        step m.seq (setup_initiating ctx.ethers ctx.network ctx.signing m.process_id p) (
          setup_responding ctx.ethers ctx.network ctx.signing m.process_id p
            m.custom_data.signature)
    | install ↦ attempt (as_install m.params) λ p.
        step m.seq
          (install_initiating ctx.ethers ctx.signing ctx.fb_abi ctx.coder ctx.max_uint256
            ctx.network store m.process_id p)
          (install_responding ctx.ethers ctx.signing ctx.fb_abi ctx.coder ctx.max_uint256
            ctx.network store m.process_id p m.custom_data.signature)
    | withdraw ↦ attempt (as_withdraw m.params) λ p.
        step m.seq
          (withdraw_initiating ctx.ethers ctx.signing ctx.fb_abi ctx.coder ctx.max_uint256
            ctx.network ctx.refund_state store m.process_id p)
          (withdraw_responding ctx.ethers ctx.signing ctx.fb_abi ctx.coder ctx.max_uint256
            ctx.network ctx.refund_state store m.process_id p m.custom_data.signature)
    | install_virtual_app ↦ attempt (as_install_virtual m.params) λ p.
        step_of_three m.seq
          (virtual_initiating ctx.ethers ctx.signing ctx.abi ctx.fb_abi ctx.network ctx.mediation
            store m.process_id p)
          (virtual_mediating ctx.ethers ctx.signing ctx.abi ctx.fb_abi ctx.network ctx.mediation
            store m.process_id p m.custom_data)
          (virtual_responding ctx.ethers ctx.signing ctx.abi ctx.fb_abi ctx.network ctx.mediation
            store m.process_id p m.custom_data.signature)
    | uninstall_virtual_app ↦ attempt (as_uninstall_virtual m.params) λ p.
        step_of_three m.seq
          (settling_initiating ctx.ethers ctx.signing ctx.abi ctx.fb_abi ctx.outcomes ctx.network
            ctx.settlement store m.process_id p)
          (settling_mediating ctx.ethers ctx.signing ctx.abi ctx.fb_abi ctx.outcomes ctx.network
            ctx.settlement store m.process_id p m.custom_data.signature)
          (settling_responding ctx.ethers ctx.signing ctx.abi ctx.fb_abi ctx.outcomes ctx.network
            ctx.settlement store m.process_id p m.custom_data)
  ]
