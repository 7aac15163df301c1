-- ===== src/Commitments.antt =====
-- packages/node/src/ethereum: the commitments that the parties of a channel sign, the transactions
-- that they become with the signatures, and NetworkContext of packages/types. The encoders of contract
-- calls and the signatures are parameters.
use counterfactual.Prelude.{
  ℕ, String, Bool, false, Option, none, some, List, [], ◌∷◌, if◌then◌else◌, ◌≡◌,
}
use counterfactual.Prelude.Int.{ℤ, pos, ltb_ℤ}
use counterfactual.External.{Ethers}
use counterfactual.AppInstance.{AppIdentity, app_identity_to_hash}
use counterfactual.Store.{MinimalTransaction}

-- The addresses of the contracts.
pub record NetworkContext : Type 0 where
  pub challenge_registry : String
  pub coin_balance_refund_app : String
  pub conditional_transaction_delegate_target : String
  pub identity_app : String
  pub minimum_viable_multisig : String
  pub multi_asset_multi_party_coin_transfer_interpreter : String
  pub proxy_factory : String
  pub single_asset_two_party_coin_transfer_interpreter : String
  pub time_locked_pass_through : String
  pub two_party_fixed_outcome_from_virtual_app_interpreter : String
  pub two_party_fixed_outcome_interpreter : String

pub record SignedStateHashUpdate : Type 0 where
  pub app_state_hash : String
  pub version_number : ℕ
  pub timeout : ℕ
  pub signatures : List String

-- What ethers does with keys, and how it encodes what is signed and what the contracts are called
-- with. A signature stands for the text that `joinSignature` makes of it.
pub record Signing : Type 0 where
  -- the digest and its signature; `none` where the signature is malformed
  pub recover_address : String → String → Option String
  -- the digest, signed with the k-th private key of the owner of an extended key
  pub sign_digest : String → ℕ → String → String
  -- `solidityPack` of "0x19", the identity, the version, the timeout and the hash of the state
  pub pack_state : String → ℕ → ℕ → String → String
  -- `solidityPack` of "0x19", the owners, the target, the value, the data and the operation
  pub pack_transaction : List String → String → ℤ → String → ℕ → String
  -- the call of `setState` in the challenge registry
  pub encode_set_state : AppIdentity → SignedStateHashUpdate → String
  -- the call of `execTransaction` in a multisig, with the sorted signatures
  pub encode_exec_transaction : String → ℤ → String → ℕ → List String → String
  -- `executeEffectOfFreeBalance` of the registry, the app and the interpreter
  pub encode_effect_of_free_balance : String → String → String → String
  -- `executeEffectOfInterpretedAppOutcome` of the registry, the free balance, the app, the
  -- interpreter and its parameters
  pub encode_effect_of_interpreted_app_outcome : String → String → String → String → String → String
  -- `transfer` of a token, to a recipient
  pub encode_transfer : String → ℤ → String

pub record SigningLaws (e : Ethers) (s : Signing) : Type 0 where
  -- the signer of a signature is recovered from it
  pub recover_address-sign_digest :
      (xkey digest : String) (k : ℕ)
      → s.recover_address digest (s.sign_digest xkey k digest) ≡ some (e.compute_address xkey k)
  -- a computed address is checksummed
  pub get_address-compute_address :
      (xkey : String) (k : ℕ)
      → e.get_address (e.compute_address xkey k) ≡ some (e.compute_address xkey k)

pub record SetStateCommitment : Type 0 where
  pub network_context : NetworkContext
  pub app_identity : AppIdentity
  pub hashed_app_state : String
  pub app_version_number : ℕ
  pub timeout : ℕ

pub data MultisigOperation : Type 0 where
  call delegate_call create : MultisigOperation

pub record MultisigTransaction : Type 0 where
  pub to : String
  pub value : ℤ
  pub calldata : String
  pub operation : MultisigOperation

-- The subclasses of `MultisigCommitment`, with the fields of each.
pub data MultisigAction : Type 0 where
  setup_action : NetworkContext → AppIdentity → MultisigAction
  -- the app, the free balance, the interpreter and its parameters
  conditional_action : NetworkContext → String → String → String → String → MultisigAction
  -- the recipient and the amount
  withdraw_eth_action : String → ℤ → MultisigAction
  -- the recipient, the amount and the token
  withdraw_erc20_action : String → ℤ → String → MultisigAction

pub record MultisigCommitment : Type 0 where
  pub multisig : String
  pub multisig_owners : List String
  pub action : MultisigAction

-- The subclasses of `EthereumCommitment`.
pub data Commitment : Type 0 where
  set_state_commitment : SetStateCommitment → Commitment
  multisig_commitment : MultisigCommitment → Commitment

-- The number that an operation stands for.
operation_number : MultisigOperation → ℕ
operation_number call = 0
operation_number delegate_call = 1
operation_number create = 2

module _ (e : Ethers) (s : Signing) where
  setup_details : NetworkContext → AppIdentity → MultisigTransaction
  setup_details network identity = record {
    to = network.conditional_transaction_delegate_target;
    value = pos 0;
    calldata =
        s.encode_effect_of_free_balance network.challenge_registry (app_identity_to_hash e identity)
          network.multi_asset_multi_party_coin_transfer_interpreter;
    operation = delegate_call;
  }

  conditional_details : NetworkContext → String → String → String → String → MultisigTransaction
  conditional_details network app free_balance interpreter params = record {
    to = network.conditional_transaction_delegate_target;
    value = pos 0;
    calldata =
        s.encode_effect_of_interpreted_app_outcome network.challenge_registry free_balance app
          interpreter params;
    operation = delegate_call;
  }

  withdraw_eth_details : String → ℤ → MultisigTransaction
  withdraw_eth_details to value = record {
    to = to;
    value = value;
    calldata = "0x";
    operation = call;
  }

  withdraw_erc20_details : String → ℤ → String → MultisigTransaction
  withdraw_erc20_details to value token_address = record {
    to = token_address;
    value = pos 0;
    calldata = s.encode_transfer to value;
    operation = call;
  }

  unfoldable pub get_transaction_details : MultisigAction → MultisigTransaction
  unfolding setup_details conditional_details withdraw_eth_details withdraw_erc20_details
  get_transaction_details (setup_action network identity) = setup_details network identity
  get_transaction_details (conditional_action network app free_balance interpreter params) =
      conditional_details network app free_balance interpreter params
  get_transaction_details (withdraw_eth_action to value) = withdraw_eth_details to value
  get_transaction_details (withdraw_erc20_action to value token_address) =
      withdraw_erc20_details to value token_address

  set_state_hash : SetStateCommitment → String
  set_state_hash c = e.keccak256 (
      s.pack_state (app_identity_to_hash e c.app_identity) c.app_version_number c.timeout
        c.hashed_app_state)

  multisig_hash : MultisigCommitment → String
  unfolding get_transaction_details operation_number
  multisig_hash c =
      let details = get_transaction_details c.action in
      e.keccak256 (
        s.pack_transaction c.multisig_owners details.to details.value details.calldata
          (operation_number details.operation))

  unfoldable pub hash_to_sign : Commitment → String
  unfolding set_state_hash multisig_hash
  hash_to_sign (set_state_commitment c) = set_state_hash c
  hash_to_sign (multisig_commitment c) = multisig_hash c

-- `new BigNumber(addrA).lt(addrB)` for the signers of two signatures
signer_number : Ethers → Signing → String → String → Option ℤ
signer_number e s digest sig = elim (s.recover_address digest sig) [
  | none ↦ none
  | some signer ↦ e.big_numberify signer
]

signer_precedes : Ethers → Signing → String → String → String → Bool
unfolding signer_number
signer_precedes e s digest a b = elim (signer_number e s digest a) [
  | none ↦ false
  | some m ↦ elim (signer_number e s digest b) [ none ↦ false | some n ↦ ltb_ℤ m n ]
]

insert_signature : Ethers → Signing → String → String → List String → List String
unfolding signer_precedes
insert_signature e s digest a [] = a ∷ []
insert_signature e s digest a (b ∷ bs) =
    if signer_precedes e s digest a b then a ∷ b ∷ bs else b ∷ insert_signature e s digest a bs

sort_signatures : Ethers → Signing → String → List String → List String → List String
unfolding insert_signature
sort_signatures e s digest sorted [] = sorted
sort_signatures e s digest sorted (a ∷ rest) =
    sort_signatures e s digest (insert_signature e s digest a sorted) rest

sort_signatures_by_signer_address : Ethers → Signing → String → List String → List String
unfolding sort_signatures
sort_signatures_by_signer_address e s digest sigs = sort_signatures e s digest [] sigs

module _ (e : Ethers) (s : Signing) where
  set_state_transaction : SetStateCommitment → List String → MinimalTransaction
  unfolding sort_signatures_by_signer_address set_state_hash
  set_state_transaction c sigs = record {
    to = c.network_context.challenge_registry;
    value = pos 0;
    calldata = s.encode_set_state c.app_identity (record {
      app_state_hash = c.hashed_app_state;
      version_number = c.app_version_number;
      timeout = c.timeout;
      signatures = sort_signatures_by_signer_address e s (set_state_hash e s c) sigs;
    });
  }

  multisig_transaction : MultisigCommitment → List String → MinimalTransaction
  unfolding sort_signatures_by_signer_address multisig_hash get_transaction_details operation_number
  multisig_transaction c sigs =
      let details = get_transaction_details e s c.action in
      record {
        to = c.multisig;
        value = pos 0;
        calldata =
            s.encode_exec_transaction details.to details.value details.calldata
              (operation_number details.operation)
              (sort_signatures_by_signer_address e s (multisig_hash e s c) sigs);
      }

  unfoldable pub get_signed_transaction : Commitment → List String → MinimalTransaction
  unfolding set_state_transaction multisig_transaction
  get_signed_transaction (set_state_commitment c) sigs = set_state_transaction c sigs
  get_signed_transaction (multisig_commitment c) sigs = multisig_transaction c sigs
