-- ===== src/Errors.antt =====
-- What the client throws, a constructor for each `throw` that the model reaches, the errors that
-- JavaScript, the ethers library and contracts raise on their own, and that of a session in which an
-- answer stays out; a call that may throw returns a `Result`.
use counterfactual.Prelude.{◌≡◌, refl, Bool, true, false, Option, none, some}

pub data Error : Type 0 where
  -- models/free-balance.ts
  negative_balance : Error
  -- models/app-instance.ts
  invalid_accessor invalid_state virtual_multi_asset : Error
  -- models/state-channel.ts
  invalid_extended_keys app_does_not_exist no_installed_apps no_proposed_apps no_app_of_kind : Error
  no_free_balance not_multisig_owner no_free_balance_account incorrect_participants : Error
  inconsistent_app_key delete_failed agreement_missing no_virtual_agreement : Error
  -- store.ts
  no_multisig_for_app_instance no_proposed_app_instance no_state_channel : Error
  -- engine/utils/get-outcome-increments.ts
  no_nonzero_deposit : Error
  -- engine/utils/signature-validator.ts
  missing_signature invalid_signature : Error
  -- engine/install.ts
  different_assets : Error
  -- engine/install-virtual-app.ts
  unsupported_outcome : Error
  -- engine/uninstall-virtual-app.ts
  unexpected_outcome : Error
  -- engine/protocol-runner.ts
  invalid_seq : Error
  -- methods/app-instance/install/operation.ts
  no_app_instance_id_to_install : Error
  -- a contract refuses a call
  contract_error : Error
  -- a party waits for a message that does not come
  no_answer : Error
  -- a property of `undefined` is read
  type_error : Error
  -- ethers refuses an address, a number or a value to encode
  ethers_error : Error

-- What a call that may throw gives: an error, or the value that it returns.
pub data Result {ℓ} (Value : Type ℓ) : Type ℓ where
  err : Error → Result Value
  ok : Value → Result Value

-- `if (!test) throw Error(e)`
abbrev pub guard : Bool → Error → Result (Unit {0})
guard false thrown = err thrown
guard true thrown = ok tt

abbrev pub or_throw {ℓ} : {Value : Type ℓ} → Option Value → Error → Result Value
or_throw none thrown = err thrown
or_throw (some v) thrown = ok v

-- A throw skips what comes after it.
infixl 5 ◌>>=◌ ◌>>◌
abbrev pub ◌>>=◌ {ℓ κ} :
    {Value : Type ℓ} {Next : Type κ} → Result Value → (Value → Result Next) → Result Next
err thrown >>= next = err thrown
ok v >>= next = next v

abbrev pub ◌>>◌ {ℓ} : {Next : Type ℓ} → Result (Unit {0}) → Result Next → Result Next
err thrown >> next = err thrown
ok _ >> next = next

-- A chain that returns has a first call that returns.
pub >>=-eq-ok {ℓ κ} :
    {Value : Type ℓ} {Next : Type κ} (first : Result Value) (next : Value → Result Next) {w : Next}
    → (first >>= next) ≡ ok w
    → (v : Value) × (first ≡ ok v) × (next v ≡ ok w)
>>=-eq-ok (err thrown) next h = cc
>>=-eq-ok (ok v) next h = (v, refl, h)

-- A test that lets a call return holds.
pub guard->>-eq-ok {ℓ} :
    {Next : Type ℓ} (test : Bool) (thrown : Error) (next : Result Next) {w : Next}
    → (guard test thrown >> next) ≡ ok w
    → (test ≡ true) × (next ≡ ok w)
guard->>-eq-ok false thrown next h = cc
guard->>-eq-ok true thrown next h = (refl, h)

pub ok-injective {ℓ} : {Value : Type ℓ} {a b : Value} → Result.ok a ≡ Result.ok b → a ≡ b
ok-injective h = cc h

-- A call that is known to return hands its value on.
pub >>=-known {ℓ κ} :
    {Value : Type ℓ} {Next : Type κ} (first : Result Value) (next : Value → Result Next) {v : Value}
    {w : Next}
    → first ≡ ok v
    → (first >>= next) ≡ ok w
    → next v ≡ ok w
>>=-known (err thrown) next known h = cc
>>=-known (ok v) next known h = rw (ok-injective known) at h
