-- ===== src/External.antt =====
-- The ethers library, which the client calls and which is not part of this repository: its
-- operations are parameters, and what the proofs need of their documentation is a named hypothesis.
use counterfactual.Prelude.{ℕ, String, ◌≡◌, Option, some, List}
use counterfactual.Prelude.Int.{ℤ}

pub record Ethers : Type 0 where
  -- `getAddress`: the checksummed form of an address, or a throw
  pub get_address : String → Option String
  -- `BigNumber.toHexString` and `bigNumberify`
  pub to_hex_string : ℤ → String
  pub big_numberify : String → Option ℤ
  -- `BigNumber.toNumber` of a number that is not below zero, or a throw
  pub to_number : ℤ → Option ℕ
  -- `computeAddress(fromExtendedKey(xkey).derivePath(k).publicKey)`, for well-formed keys
  pub compute_address : String → ℕ → String
  pub keccak256 : String → String
  -- `defaultAbiCoder.encode(["uint256", "address[]"], [nonce, participants])`
  pub encode_nonce_and_participants : ℕ → List String → String
  -- `solidityKeccak256(["address", "uint256", "bytes"], [to, value, data])`
  pub solidity_keccak256 : String → ℤ → String → String

-- `defaultAbiCoder.encode([encoding], [value])` for values of one type, or a throw
pub record AbiCoder (S : Type 0) : Type 0 where
  pub encode : String → S → Option String

pub record EthersLaws (e : Ethers) : Type 0 where
  -- a number is read back from its hexadecimal text
  pub big_numberify-to_hex_string : (z : ℤ) → e.big_numberify (e.to_hex_string z) ≡ some z
