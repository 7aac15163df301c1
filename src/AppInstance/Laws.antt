-- ===== src/AppInstance/Laws.antt =====
-- An app instance and its JSON form, and what a new state leaves alone.
use counterfactual.Prelude.{ℕ, ◌+◌, String, ◌≡◌, refl, none, some, arith}
use counterfactual.Errors.{ok}
use counterfactual.External.{Ethers, AbiCoder}
use counterfactual.AppInstance.{AppInstance, from_json, to_json, set_state}

-- Writing an app instance as JSON and reading it back gives the instance.
pub from_json-to_json : {S : Type 0} (e : Ethers) (a : AppInstance S) → from_json (to_json e a) ≡ a
unfolding from_json to_json
from_json-to_json e a = refl

-- What `set_state` gives where the encoder accepts the state.
abbrev pub updated : {S : Type 0} → AppInstance S → S → ℕ → AppInstance S
updated a s t = record a {
  latest_state = s;
  latest_version_number = a.latest_version_number + 1;
  latest_timeout = t;
}

module _ {S : Type 0} (e : Ethers) (abi : AbiCoder S) (a : AppInstance S) where
  pub set_state-ok :
      (s : S) {bytes : String}
      → abi.encode a.app_interface.state_encoding s ≡ some bytes
      → set_state e abi a s none ≡ ok (updated a s a.default_timeout)
  unfolding set_state
  set_state-ok s h = rw h

  pub set_state-inv :
      (s : S) {a' : AppInstance S}
      → set_state e abi a s none ≡ ok a'
      → a' ≡ updated a s a.default_timeout
  unfolding set_state
  set_state-inv s h = ground arith
