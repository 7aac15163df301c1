-- ===== src/Engine/Session/Installing.antt =====
-- Two honest parties that agree on a channel install an app: both end with the same channel and the
-- same two transactions, each with its own signature first.
use counterfactual.Prelude.{String, ◌≡◌, some, [], ◌∷◌}
use counterfactual.Errors.{
  ok, or_throw, guard->>-eq-ok, >>=-eq-ok, type_error, no_free_balance_account,
}
use counterfactual.External.{Ethers}
use counterfactual.AppInstance.{AppInstance, identity_hash}
use counterfactual.Xkeys.{xkey_kth_address}
use counterfactual.StateChannel.{StateChannel, get_free_balance_addr_of, first_two_have}
use counterfactual.Store.{Store, set_commitment}
use counterfactual.Commitments.{Signing, SigningLaws, Commitment, hash_to_sign}
use counterfactual.Engine.Install.Exchange.{assert_signed_by}
use counterfactual.Engine.Dispatch.{Context}
use counterfactual.Engine.Session.Agreement.{both_signed, assert_is_valid_signature-sign_digest}

-- The address that a channel has for one of its parties is the party's first key.
pub get_free_balance_addr_of_lem :
    {V : Type 0} (e : Ethers) (sc : StateChannel V) (xpub : String) {address : String}
    → get_free_balance_addr_of e sc xpub ≡ ok address
    → address ≡ xkey_kth_address e xpub 0
unfolding get_free_balance_addr_of
get_free_balance_addr_of_lem e sc xpub h =
    let (app, _, q) = >>=-eq-ok (or_throw sc.free_balance_app_instance type_error) _ h in
    let (_, r) =
      guard->>-eq-ok (first_two_have (xkey_kth_address e xpub 0) app.participants)
        no_free_balance_account (ok (xkey_kth_address e xpub 0)) q in
    cc r

-- A party's own signature counts as one of that party.
pub assert_signed_by-sign_digest :
    {V : Type 0} (e : Ethers) (s : Signing)
    → SigningLaws e s
    → (sc : StateChannel V) (xpub : String) {address : String}
    → get_free_balance_addr_of e sc xpub ≡ ok address
    → (c : Commitment)
    → assert_signed_by e s sc xpub c (some (s.sign_digest xpub 0 (hash_to_sign e s c))) ≡ ok tt
unfolding assert_signed_by
assert_signed_by-sign_digest e s laws sc xpub known c =
    rw (known, get_free_balance_addr_of_lem e sc xpub known)
      (assert_is_valid_signature-sign_digest e s laws xpub 0 c)

module _ {V : Type 0} (ctx : Context V) (laws : SigningLaws ctx.ethers ctx.signing) where
  -- The two transactions that a party files for an installation: its own signature stands
  -- first.
  abbrev pub filed_installation :
      AppInstance V → Commitment → String → Commitment → String → String → Store V → Store V
  filed_installation app conditional hash update self other store =
      set_commitment ctx.ethers ("update" ∷ hash ∷ [])
        (both_signed ctx.ethers ctx.signing update self other)
        (set_commitment ctx.ethers ("install" ∷ identity_hash ctx.ethers app ∷ [])
          (both_signed ctx.ethers ctx.signing conditional self other) store)
