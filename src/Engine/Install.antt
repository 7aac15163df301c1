-- ===== src/Engine/Install.antt =====
-- packages/node/src/engine/install.ts: the channel that the install protocol leads to. The generators
-- of that protocol are not modelled.
pub mod Decrements
pub mod Exchange
use counterfactual.Prelude.{
  ℕ, String, ◌==◌, Bool, true, false, Option, none, some, List, [], ◌∷◌, if◌then◌else◌,
}
use counterfactual.Prelude.Int.{ℤ, pos, ◌+ℤ◌}
use counterfactual.Errors.{Result, ok, err, ◌>>=◌, different_assets}
use counterfactual.External.{Ethers, AbiCoder}
use counterfactual.AppInstance.{
  AppInstance, AppInterface, OutcomeType, TwoPartyParams, MultiAssetParams, SingleAssetParams,
  two_party_fixed_outcome, multi_asset_multi_party_coin_transfer,
  single_asset_two_party_coin_transfer,
}
use counterfactual.FreeBalanceApp.{TokenIndexedCoinTransferMap}
use counterfactual.FreeBalance.{FreeBalanceStateJson}
use counterfactual.Dict.{insert}
use counterfactual.Protocols.{InstallParams}
use counterfactual.StateChannel.{StateChannel, get_free_balance_addr_of}
use counterfactual.StateChannel.Apps.{install_app}

-- At most one of them is there.
pub record InterpreterParams : Type 0 where
  pub two_party : Option TwoPartyParams
  pub multi_asset : Option MultiAssetParams
  pub single_asset : Option SingleAssetParams

abbrev pub no_params : InterpreterParams
no_params = record { two_party = none; multi_asset = none; single_asset = none }

-- `max_uint256` is ethers' text of the greatest amount.
unfoldable pub compute_interpreter_parameters :
    Ethers
    → String
    → OutcomeType
    → String
    → String
    → ℤ
    → ℤ
    → String
    → String
    → Bool
    → Result InterpreterParams
compute_interpreter_parameters e max_uint256 outcome_type initiator_token responder_token
      initiator_decrement responder_decrement initiator_fb_address responder_fb_address
      disable_limit =
    let total = e.to_hex_string (initiator_decrement +ℤ responder_decrement) in
    let same_token = initiator_token == responder_token in
    elim outcome_type [
      | two_party_fixed_outcome ↦
          if same_token
          then ok (record no_params {
            two_party = some (record {
              token_address = initiator_token;
              player_addrs = (initiator_fb_address, responder_fb_address);
              amount = total;
            });
          })
          else err different_assets
      | multi_asset_multi_party_coin_transfer ↦ ok (record no_params {
        multi_asset = some (
            if same_token
            then record { limit = total ∷ []; token_addresses = initiator_token ∷ [] }
            else record {
              limit =
                  e.to_hex_string initiator_decrement ∷ e.to_hex_string responder_decrement ∷ [];
              token_addresses = initiator_token ∷ responder_token ∷ [];
            });
      })
      | single_asset_two_party_coin_transfer ↦
          if same_token
          then ok (record no_params {
            single_asset = some (record {
              limit = if disable_limit then max_uint256 else total;
              token_address = initiator_token;
            });
          })
          else err different_assets
    ]

-- `tokenIndexedBalanceDecrement`; in an object literal a second entry under one key replaces the first.
unfoldable pub token_indexed_balance_decrement :
    String → String → String → String → ℤ → ℤ → TokenIndexedCoinTransferMap
token_indexed_balance_decrement initiator_token responder_token initiator_fb_address
      responder_fb_address initiator_decrement responder_decrement =
    if initiator_token == responder_token
    then (
      initiator_token,
      insert responder_fb_address responder_decrement
          ((initiator_fb_address, initiator_decrement) ∷ []),
    )
      ∷ []
    else (initiator_token, (initiator_fb_address, initiator_decrement) ∷ [])
      ∷ (responder_token, (responder_fb_address, responder_decrement) ∷ [])
      ∷ []

module _ {V : Type 0} (e : Ethers) (fb_abi : AbiCoder FreeBalanceStateJson)
    (max_uint256 : String) where
  -- `appInstanceToBeInstalled`
  unfoldable pub app_to_be_installed : InstallParams V → InterpreterParams → AppInstance V
  app_to_be_installed p interpreter = record {
    participants = p.participants;
    default_timeout = p.default_timeout;
    app_interface = p.app_interface;
    is_virtual_app = false;
    app_seq_no = p.app_seq_no;
    latest_state = p.initial_state;
    latest_version_number = 0;
    latest_timeout = p.default_timeout;
    outcome_type = p.outcome_type;
    two_party_internal = interpreter.two_party;
    multi_asset_internal = interpreter.multi_asset;
    single_asset_internal = interpreter.single_asset;
  }

  unfoldable pub compute_state_channel_transition :
      StateChannel V → InstallParams V → Result (StateChannel V)
  compute_state_channel_transition sc p = do
    initiator_fb_address ← get_free_balance_addr_of e sc p.initiator_xpub
    responder_fb_address ← get_free_balance_addr_of e sc p.responder_xpub
    interpreter ←
        compute_interpreter_parameters e max_uint256 p.outcome_type
          p.initiator_deposit_token_address p.responder_deposit_token_address
          p.initiator_balance_decrement p.responder_balance_decrement initiator_fb_address
          responder_fb_address p.disable_limit
    install_app e fb_abi (app_to_be_installed p interpreter)
        (token_indexed_balance_decrement p.initiator_deposit_token_address
          p.responder_deposit_token_address initiator_fb_address responder_fb_address
          p.initiator_balance_decrement p.responder_balance_decrement)
        sc
