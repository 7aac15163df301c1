-- ===== src/AppInstance/Interpreter.antt =====
-- `encodedInterpreterParams` of packages/node/src/models/app-instance.ts: the parameters with which
-- the interpreter of an app's outcome is called. The ABI encodings are parameters.
use counterfactual.Prelude.{String, true, false, Option, List, [], ◌∷◌}
use counterfactual.Errors.{
  Result, ok, err, ◌>>=◌, or_throw, ethers_error, type_error, virtual_multi_asset,
}
use counterfactual.AppInstance.{
  AppInstance, TwoPartyParams, MultiAssetParams, SingleAssetParams, two_party_params,
  multi_asset_params, single_asset_params, two_party_fixed_outcome,
  multi_asset_multi_party_coin_transfer, single_asset_two_party_coin_transfer,
}

-- `defaultAbiCoder.encode` of parameters, or a throw. The last two take the capital, its provider,
-- the user of the virtual app and the token.
pub record InterpreterCoder : Type 0 where
  pub encode_two_party : TwoPartyParams → Option String
  pub encode_multi_asset : MultiAssetParams → Option String
  pub encode_single_asset : SingleAssetParams → Option String
  pub encode_virtual_transfer : String → String → String → String → Option String
  pub encode_virtual_agreement : String → String → String → String → Option String

-- What is `undefined` cannot be encoded.
unfoldable pub encode_given {ℓ} :
    {A : Type ℓ} → (A → Option String) → Result (Option A) → Result String
encode_given encode params = do
  found ← params
  present ← or_throw found ethers_error
  or_throw (encode present) ethers_error

-- `participants[0]` and `participants[1]`
first_two : List String → Result (String × String)
first_two [] = err ethers_error
first_two (a ∷ []) = err ethers_error
first_two (a ∷ b ∷ rest) = ok (a, b)

module _ {S : Type 0} (coder : InterpreterCoder) where
  -- The parameters of an app between the two parties of its channel.
  unfoldable pub encoded_direct_params : AppInstance S → Result String
  unfolding encode_given
  encoded_direct_params a = elim a.outcome_type [
    | single_asset_two_party_coin_transfer ↦
        encode_given coder.encode_single_asset (single_asset_params a)
    | multi_asset_multi_party_coin_transfer ↦
        encode_given coder.encode_multi_asset (multi_asset_params a)
    | two_party_fixed_outcome ↦ encode_given coder.encode_two_party (two_party_params a)
  ]

  -- The parameters of an app over an intermediary.
  encoded_virtual_params : AppInstance S → Result String
  unfolding first_two
  encoded_virtual_params a = elim a.outcome_type [
    | single_asset_two_party_coin_transfer ↦ do
      found ← single_asset_params a
      params ← or_throw found type_error
      (provider, user) ← first_two a.participants
      or_throw (coder.encode_virtual_transfer params.limit provider user params.token_address)
          ethers_error
    | multi_asset_multi_party_coin_transfer ↦ err virtual_multi_asset
    | two_party_fixed_outcome ↦ do
      found ← two_party_params a
      params ← or_throw found type_error
      let (provider, user) = params.player_addrs
      or_throw (coder.encode_virtual_agreement params.amount provider user params.token_address)
          ethers_error
  ]

  unfoldable pub encoded_interpreter_params : AppInstance S → Result String
  unfolding encoded_direct_params encoded_virtual_params
  encoded_interpreter_params a = elim a.is_virtual_app [
    | false ↦ encoded_direct_params a
    | true ↦ encoded_virtual_params a
  ]
