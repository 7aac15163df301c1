-- ===== src/Tests/Parties.antt =====
-- Two parties: how they sign, and what they work with.
use counterfactual.Prelude.{String, List, ◌==◌, if◌then◌else◌, ℕ, refl, none, some, [], ◌∷◌}
use counterfactual.Prelude.Int.{pos}
use counterfactual.FreeBalance.{eth_token_address}
use counterfactual.Commitments.{Signing, SigningLaws, NetworkContext}
use counterfactual.Create2.{Create2}
use counterfactual.Engine.Dispatch.{Context}
use counterfactual.Tests.{toy, accept_all, alice, bob}

-- The signer's address stands for the signature.
abbrev pub toy_signing : Signing
toy_signing = record {
  recover_address = λ digest sig. some sig;
  sign_digest = λ xkey k digest. toy.compute_address xkey k;
  pack_state = λ identity version timeout hashed. hashed;
  pack_transaction = λ owners to value calldata operation. calldata;
  encode_set_state = λ identity signed. "setState";
  encode_exec_transaction = λ to value calldata operation sigs. "execTransaction";
  encode_effect_of_free_balance = λ registry app interpreter. "executeEffectOfFreeBalance";
  encode_effect_of_interpreted_app_outcome =
      λ registry fb app interpreter params. "executeEffectOfInterpretedAppOutcome";
  encode_transfer = λ to value. "transfer";
}

pub toy_signing_laws : SigningLaws toy toy_signing
toy_signing_laws = record {
  recover_address-sign_digest = λ xkey digest k. refl;
  get_address-compute_address = λ xkey k. refl;
}

abbrev pub toy_network : NetworkContext
toy_network = record {
  challenge_registry = "0xregistry";
  coin_balance_refund_app = "0xrefund";
  conditional_transaction_delegate_target = "0xtarget";
  identity_app = "0xidentity";
  minimum_viable_multisig = "0xmaster";
  multi_asset_multi_party_coin_transfer_interpreter = "0xmulti";
  proxy_factory = "0xfactory";
  single_asset_two_party_coin_transfer_interpreter = "0xsingle";
  time_locked_pass_through = "0xpass";
  two_party_fixed_outcome_from_virtual_app_interpreter = "0xvirtual";
  two_party_fixed_outcome_interpreter = "0xtwo";
}

-- The multisigs of Alice, Bob and Ingrid, of the first two, and of each of them with Ingrid.
unfoldable pub setup_of : List String → String
setup_of (a ∷ b ∷ c ∷ owners) = "0xwide"
setup_of (a ∷ b ∷ []) = if b == bob then "0xusers" else if a == alice then "0xfirst" else "0xsecond"
setup_of owners = "0xnobody"

abbrev pub toy_create2 : Create2
toy_create2 = record {
  encode_setup = setup_of;
  hash_salt = λ text. text;
  hash_init_code = λ master. master;
  hash_create2 = λ factory salt code. salt;
  last_forty = λ text. text;
}

-- The app of the game answers 8 to every action, and a deposit of 4 stands in every outcome.
abbrev pub context : Context ℕ
context = record {
  ethers = toy;
  signing = toy_signing;
  abi = accept_all;
  fb_abi = accept_all;
  contracts = record {
    apply_action = λ address state action. some "8";
    decode = λ encoding answer. some 8;
    keep_keys = λ old new. new;
  };
  outcomes = record {
    decoder = record {
      two_transfers = λ outcome.
          some (record { to = alice; amount = pos 4 }, record { to = bob; amount = pos 0 });
      number = λ outcome. none;
      transfer_lists = λ outcome. none;
    };
    chain = λ app n. some "outcome";
    refund_token = λ state. some eth_token_address;
  };
  coder = record {
    encode_two_party = λ params. some "two";
    encode_multi_asset = λ params. some "multi";
    encode_single_asset = λ params. some "single";
    encode_virtual_transfer = λ amount provider user token. some "transfer";
    encode_virtual_agreement = λ amount provider user token. some "agreement";
  };
  max_uint256 = "max";
  refund_state = λ recipient multisig amount. 0;
  mediation = record {
    create2 = toy_create2;
    encode_agreement = λ agreement. some "agreement";
    pass_through_state = λ registry target outcome. 0;
    outcome = λ app. "outcome";
  };
  settlement = record {
    create2 = toy_create2;
    outcome = λ app. "outcome";
    block_number = pos 7;
    target_app = λ state. "11";
    switches_outcome_at = λ state. some (pos 100);
    default_outcome = λ state. "outcome";
    settled_on = λ state outcome. 1;
  };
  network = toy_network;
}
