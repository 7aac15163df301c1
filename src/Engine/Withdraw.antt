-- ===== src/Engine/Withdraw.antt =====
-- packages/node/src/engine/withdraw.ts: money leaves the multisig. A refund app is installed, which
-- entitles the initiator to what stands in the multisig above a threshold; both sign the withdrawal;
-- the refund app, now worthless, is uninstalled.
pub mod Exchange
use counterfactual.Prelude.{
  ℕ, String, ◌==◌, Bool, true, false, Option, none, some, [], ◌∷◌, if◌then◌else◌,
}
use counterfactual.Prelude.Int.{ℤ, pos}
use counterfactual.Errors.{Result, ok, ◌>>=◌, or_throw, ethers_error}
use counterfactual.External.{Ethers, AbiCoder}
use counterfactual.AppInstance.{
  AppInstance, identity_hash, single_asset_params, single_asset_two_party_coin_transfer,
}
use counterfactual.AppInstance.Interpreter.{InterpreterCoder, encode_given}
use counterfactual.FreeBalance.{FreeBalanceStateJson, eth_token_address}
use counterfactual.StateChannel.{
  StateChannel, multisig_owners, free_balance, num_proposed_apps, get_next_signing_keys,
  most_recently_installed_app_instance, get_free_balance_addr_of,
}
use counterfactual.StateChannel.Apps.{install_app, uninstall_app}
use counterfactual.Store.{Store}
use counterfactual.Commitments.{
  NetworkContext, Signing, Commitment, MultisigAction, multisig_commitment, conditional_action,
  withdraw_eth_action, withdraw_erc20_action, get_signed_transaction,
}
use counterfactual.Protocols.{
  WithdrawParams, Message, withdraw_params, withdraw, unassigned_seq_no, CustomData, no_data,
  signed, signed_twice,
}
use counterfactual.Engine.{
  Process, attempt, assert_is_valid_signature, stored_channel, free_balance_update, given, op_sign,
  io_send, io_send_and_wait, set_commitment, store_withdrawal_commitment, save_state_channel, done,
}

abbrev pub coin_balance_refund_state_encoding : String
coin_balance_refund_state_encoding =
    "\n  tuple(\n    address recipient,\n    address multisig,\n    uint256 threshold,\n    address tokenAddress\n  )\n"

abbrev refund_timeout : ℕ
refund_timeout = 1008

-- What the parties settle before the withdrawal itself: the address of the counterparty, the channel
-- with the refund app, that app, and its conditional transaction.
pub record Refund (V : Type 0) : Type 0 where
  pub counterparty : String
  pub channel : StateChannel V
  pub app : AppInstance V
  pub conditional : Commitment

module _ {V : Type 0} (e : Ethers) where
  unfoldable pub construct_withdrawal_commitment : StateChannel V → WithdrawParams → Commitment
  construct_withdrawal_commitment sc p = multisig_commitment (record {
    multisig = sc.multisig_address;
    multisig_owners = multisig_owners e sc;
    action =
        if p.token_address == eth_token_address
        then withdraw_eth_action p.recipient p.amount
        else withdraw_erc20_action p.recipient p.amount p.token_address;
  })

module _ {V : Type 0} (e : Ethers) (coder : InterpreterCoder) (network : NetworkContext) where
  unfoldable pub construct_conditional_transaction_for_refund_app :
      StateChannel V → Result Commitment
  construct_conditional_transaction_for_refund_app sc = do
    app ← most_recently_installed_app_instance sc
    fb ← free_balance sc
    params ← encode_given coder.encode_single_asset (single_asset_params app)
    ok (
        multisig_commitment (record {
          multisig = sc.multisig_address;
          multisig_owners = multisig_owners e sc;
          action =
              conditional_action network (identity_hash e app) (identity_hash e fb)
                network.single_asset_two_party_coin_transfer_interpreter params;
        }))

module _ {V : Type 0} (e : Ethers) (fb_abi : AbiCoder FreeBalanceStateJson)
    (network : NetworkContext) where
  -- The channel without the refund app, and the commitment to its free balance.
  unfoldable pub refund_removal :
      StateChannel V → AppInstance V → Result (StateChannel V × String × Commitment)
  refund_removal sc app = do
    post ← uninstall_app e fb_abi (identity_hash e app) [] sc
    (hash, commitment) ← free_balance_update e fb_abi network post
    ok (post, hash, commitment)

-- `refund_state` makes the object of a recipient, a multisig and a threshold.
module _ {V : Type 0} (e : Ethers) (fb_abi : AbiCoder FreeBalanceStateJson)
    (coder : InterpreterCoder) (max_uint256 : String) (network : NetworkContext)
    (refund_state : String → String → ℤ → V) where
  unfoldable pub refund_app_instance : StateChannel V → WithdrawParams → AppInstance V
  refund_app_instance sc p = record {
    participants = get_next_signing_keys e sc;
    default_timeout = refund_timeout;
    app_interface = record {
      addr = network.coin_balance_refund_app;
      state_encoding = coin_balance_refund_state_encoding;
      action_encoding = none;
    };
    is_virtual_app = false;
    app_seq_no = num_proposed_apps sc;
    latest_state = refund_state p.recipient p.multisig_address p.amount;
    latest_version_number = 0;
    latest_timeout = refund_timeout;
    outcome_type = single_asset_two_party_coin_transfer;
    two_party_internal = none;
    multi_asset_internal = none;
    single_asset_internal = some (record { limit = max_uint256; token_address = p.token_address });
  }

  unfoldable pub add_refund_app_to_state_channel :
      StateChannel V → WithdrawParams → Result (StateChannel V)
  add_refund_app_to_state_channel sc p = do
    address ← get_free_balance_addr_of e sc p.initiator_xpub
    install_app e fb_abi (refund_app_instance sc p)
        ((p.token_address, (address, p.amount) ∷ []) ∷ []) sc

  -- What a party computes first, `other` being its counterparty.
  unfoldable pub refund_transition : Store V → WithdrawParams → String → Result (Refund V)
  refund_transition store p other = do
    pre ← stored_channel p.multisig_address store
    address ← get_free_balance_addr_of e pre other
    post ← add_refund_app_to_state_channel pre p
    app ← most_recently_installed_app_instance post
    conditional ← construct_conditional_transaction_for_refund_app e coder network post
    ok (record { counterparty = address; channel = post; app = app; conditional = conditional })
