-- ===== src/Create2.antt =====
-- packages/node/src/utils/create2-address.ts: the address that the proxy factory will give to the
-- multisig of some owners. The cache of computed addresses is left out.
use counterfactual.Prelude.{String, List}
use counterfactual.Errors.{Result, or_throw, ethers_error}
use counterfactual.External.{Ethers}
use counterfactual.Xkeys.{xkeys_to_sorted_kth_addresses}

-- The hashes of packed data, and `slice`.
pub record Create2 : Type 0 where
  -- the call of `setup` of a multisig with its owners
  pub encode_setup : List String → String
  -- `solidityKeccak256(["bytes32", "uint256"], [hash, 0])`
  pub hash_salt : String → String
  -- the hash of the proxy's code and the address of the master copy
  pub hash_init_code : String → String
  -- the hash of "0xff", the factory, the salt and the hash of the code
  pub hash_create2 : String → String → String → String
  -- `text.slice(-40)`
  pub last_forty : String → String

unfoldable pub get_create2_multisig_address :
    Ethers → Create2 → List String → String → String → Result String
get_create2_multisig_address e c owners proxy_factory minimum_viable_multisig =
    or_throw
      (e.get_address (
        c.last_forty (
          c.hash_create2 proxy_factory
            (c.hash_salt (e.keccak256 (c.encode_setup (xkeys_to_sorted_kth_addresses e owners 0))))
            (c.hash_init_code minimum_viable_multisig))))
      ethers_error
