-- ===== src/Engine/Session.antt =====
-- Two parties run a protocol: what the one sends chooses the generator of the other, and the answer
-- goes back to the first party.
pub mod Agreement
pub mod Proposing
pub mod Opening
pub mod Installing
pub mod Withdrawing
pub mod Mediated
pub mod Playing
pub mod Settling
use counterfactual.Prelude.{ℕ, String, Option, none, some, eqb, if◌then◌else◌}
use counterfactual.Prelude.Int.{ℤ, pos, negsuc}
use counterfactual.Errors.{Error, Result, ok, err, type_error, invalid_seq, no_answer}
use counterfactual.External.{Ethers, AbiCoder}
use counterfactual.FreeBalance.{FreeBalanceStateJson}
use counterfactual.Store.{Store}
use counterfactual.Store
use counterfactual.Commitments.{hash_to_sign, Signing, NetworkContext}
use counterfactual.Dict.{or_else}
use counterfactual.Protocols.{
  UninstallVirtualAppParams, uninstall_virtual_params, uninstall_virtual_app,
  InstallVirtualAppParams, install_virtual_params, install_virtual_app, SetupParams, InstallParams,
  WithdrawParams, setup_params, install_params, withdraw_params, setup, install, withdraw, Message,
  Protocol, ProtocolParams, UpdateParams, TakeActionParams, UninstallParams, ProposeInstallParams,
  propose_params, propose, update_params, take_action_params, uninstall_params, update, take_action,
  uninstall, CustomData, signed,
}
use counterfactual.Engine.{
  op_sign, io_send, io_send_and_wait, set_commitment, store_withdrawal_commitment,
  save_state_channel, done, Contracts, Process, attempt, throw,
}
use counterfactual.AppInstance.Interpreter.{InterpreterCoder}
use counterfactual.Engine.Setup.{setup_initiating, setup_responding}
use counterfactual.Engine.Install.Exchange.{install_initiating, install_responding}
use counterfactual.Engine.Withdraw.Exchange.{withdraw_initiating, withdraw_responding}
use counterfactual.Engine.VirtualApp.{Mediation}
use counterfactual.Engine.VirtualApp.Install.{virtual_initiating, virtual_responding}
use counterfactual.Engine.VirtualApp.Mediator.{virtual_mediating}
use counterfactual.Engine.VirtualApp.Settling.{Settlement}
use counterfactual.Engine.VirtualApp.Uninstall.{
  settling_initiating, settling_mediating, settling_responding,
}
use counterfactual.Engine.Runner.{Halt, finished, sent, waiting, thrown, advance}
use counterfactual.Engine.Update.{update_initiating, update_responding}
use counterfactual.Engine.TakeAction.{take_action_initiating, take_action_responding}
use counterfactual.Engine.Propose.{propose_initiating, propose_responding}
use counterfactual.Engine.Uninstall.{Outcomes, uninstall_initiating, uninstall_responding}
use counterfactual.Engine.Dispatch.{Context, run_protocol_with_message}

module _ {V : Type 0} (ctx : Context V) where
  -- The first party has the answer and runs to its end.
  unfoldable pub conclude : Halt V → Store V → Result (Store V × Store V)
  conclude (finished first) second = ok (first, second)
  conclude (thrown error first) second = err error
  conclude _ second = err no_answer

  -- The second party has answered, and what is left of it runs to its end.
  unfoldable pub after_answer : String → Process V → Store V → Halt V → Result (Store V × Store V)
  unfolding conclude
  after_answer self rest first (finished second) =
      conclude (advance ctx.ethers ctx.signing self rest first) second
  after_answer self rest first (thrown error second) = err error
  after_answer self rest first _ = err no_answer

  -- What the first party does next, by where the second one stops: with an answer it runs to its end,
  -- with a question it goes on as `ask` says.
  unfoldable pub respond :
      String
      → (Message V → Process V)
      → Store V
      → (Message V → (Message V → Process V) → Store V → Result (Store V × Store V))
      → String
      → Halt V
      → Result (Store V × Store V)
  unfolding after_answer
  respond self next first ask other (sent m left second) =
      after_answer self (next m) first (advance ctx.ethers ctx.signing other left second)
  respond self next first ask other (waiting m plan second) = ask m plan second
  respond self next first ask other (thrown error second) = err error
  respond self next first ask other (finished second) = err no_answer

  -- The first party runs its generator. Where it waits, the second one goes on as it has planned for
  -- the message, and answers or asks back.
  unfoldable pub converse :
      String
      → String
      → Process V
      → Store V
      → (Message V → Process V)
      → Store V
      → Result (Store V × Store V)
  unfolding respond
  converse self other (op_sign c index next) first plan second =
      converse self other
        (next
          (ctx.signing.sign_digest self (or_else index 0) (hash_to_sign ctx.ethers ctx.signing c)))
        first plan second
  converse self other (io_send m next) first plan second = err no_answer
  converse self other (io_send_and_wait m next) first plan second =
      respond self next first
        (λ reply plan' second'. converse self other (next reply) first plan' second') other
        (advance ctx.ethers ctx.signing other (plan m) second)
  converse self other (set_commitment args c next) first plan second =
      converse self other next (Store.set_commitment ctx.ethers args c first) plan second
  converse self other (store_withdrawal_commitment address c next) first plan second =
      converse self other next (Store.store_withdrawal_commitment address c first) plan second
  converse self other (save_state_channel sc next) first plan second =
      converse self other next (Store.save_state_channel ctx.ethers sc first) plan second
  converse self other (throw error) first plan second = err error
  converse self other done first plan second = ok (first, second)

  -- Two parties with their stores run a generator of the first one. Each asks the chain on its own:
  -- `theirs` is what the second one is answered about the outcomes of apps.
  unfoldable pub session :
      Outcomes V → String → String → Process V → Store V → Store V → Result (Store V × Store V)
  unfolding converse run_protocol_with_message
  session theirs self other process first second =
      converse self other process first
        (run_protocol_with_message (record ctx { outcomes = theirs }) second) second
