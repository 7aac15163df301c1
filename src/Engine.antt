-- ===== src/Engine.antt =====
-- packages/node/src/engine: what the protocols share. The generator function of a protocol is a tree
-- of what it asks of the node, and `advance` runs it as engine/protocol-runner.ts does, with the
-- middleware of node.ts. Signatures and contracts are parameters.
pub mod Runner
pub mod Dispatch
pub mod Session
pub mod Countersigned
pub mod Update
pub mod TakeAction
pub mod Uninstall
pub mod Propose
pub mod Install
pub mod Setup
pub mod Withdraw
pub mod VirtualApp
use counterfactual.Prelude.{
  ℕ, String, ◌==◌, Bool, true, false, Option, none, some, List, [], ◌∷◌, if◌then◌else◌, ◌≡◌,
}
use counterfactual.Prelude.Int.{ℤ, pos, negsuc, ltb_ℤ}
use counterfactual.Errors.{
  Error, Result, ok, err, ◌>>=◌, ◌>>◌, guard, or_throw, ethers_error, type_error, missing_signature,
  invalid_signature, contract_error,
}
use counterfactual.External.{Ethers, AbiCoder}
use counterfactual.Dict.{lookup, or_else}
use counterfactual.AppInstance.{
  OutcomeType, AppIdentity, AppInstance, app_identity_to_hash, identity, identity_hash,
  hash_of_latest_state, encoded_latest_state,
}
use counterfactual.FreeBalance.{FreeBalanceStateJson}
use counterfactual.StateChannel.{StateChannel, free_balance}
use counterfactual.StateChannel.Json.{from_json}
use counterfactual.Commitments.{
  NetworkContext, Signing, SigningLaws, SetStateCommitment, Commitment, set_state_commitment,
  hash_to_sign, get_signed_transaction,
}
use counterfactual.Protocols.{Message}
use counterfactual.Store
use counterfactual.Store.{Store, MinimalTransaction}

-- The contracts of apps, and ABI coding of actions and states.
pub record Contracts (V : Type 0) : Type 0 where
  -- `applyAction` of the contract at an address, on an encoded state and an encoded action
  pub apply_action : String → String → String → Option String
  pub decode : String → String → Option V
  -- the values of the second state under the keys of the first
  pub keep_keys : V → V → V

-- What a generator yields or does to the store, and how it goes on.
pub data Process (V : Type 0) : Type 0 where
  op_sign : Commitment → Option ℕ → (String → Process V) → Process V
  io_send : Message V → Process V → Process V
  io_send_and_wait : Message V → (Message V → Process V) → Process V
  set_commitment : List String → MinimalTransaction → Process V → Process V
  store_withdrawal_commitment : String → MinimalTransaction → Process V → Process V
  save_state_channel : StateChannel V → Process V → Process V
  throw : Error → Process V
  done : Process V

-- A call in a generator: what it throws ends the generator.
abbrev pub attempt {ℓ} : {A : Type ℓ} {V : Type 0} → Result A → (A → Process V) → Process V
attempt (ok a) next = next a
attempt (err thrown) next = throw thrown

-- `assertIsValidSignature`, of a commitment that is there
unfoldable pub assert_is_valid_signature :
    Ethers → Signing → String → Commitment → Option String → Result (Unit {0})
assert_is_valid_signature e s expected_signer c signature = do
  sig ← or_throw signature missing_signature
  signer ← or_throw (s.recover_address (hash_to_sign e s c) sig) ethers_error
  expected ← or_throw (e.get_address expected_signer) ethers_error
  guard (expected == signer) invalid_signature

-- A signature that was found valid is there.
abbrev pub given : Option String → String
given none = "undefined"
given (some sig) = sig

-- `StateChannel.fromJson(stateChannelsMap[multisigAddress])`
unfoldable pub stored_channel : {V : Type 0} → String → Store V → Result (StateChannel V)
stored_channel address store = do
  json ← or_throw (lookup address store.shared_data.state_channels_map) type_error
  from_json json

-- The commitment to the latest state of an app, in a network with these contracts.
unfoldable pub commit_to :
    {S : Type 0} → Ethers → AbiCoder S → NetworkContext → AppInstance S → Result Commitment
commit_to e abi network app = do
  hashed ← hash_of_latest_state e abi app
  ok (
      set_state_commitment (record {
        network_context = network;
        app_identity = identity app;
        hashed_app_state = hashed;
        app_version_number = app.latest_version_number;
        timeout = app.latest_timeout;
      }))

-- The hash of the free balance app and the commitment to its latest state.
unfoldable pub free_balance_update :
    {V : Type 0}
    → Ethers
    → AbiCoder FreeBalanceStateJson
    → NetworkContext
    → StateChannel V
    → Result (String × Commitment)
free_balance_update e fb_abi network sc = do
  fb ← free_balance sc
  commitment ← commit_to e fb_abi network fb
  ok (identity_hash e fb, commitment)
