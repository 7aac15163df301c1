-- ===== src/Engine/Countersigned.antt =====
-- No party saves a channel that the other one has not signed, whatever messages it gets.
use counterfactual.Prelude.{String, ◌≡◌, refl, ap, Option, none, some, arith, eq_iff}
use counterfactual.Errors.{Result, ok, err, or_throw, >>=-eq-ok}
use counterfactual.External.{Ethers, AbiCoder}
use counterfactual.Xkeys.{xkey_kth_address}
use counterfactual.AppInstance.{AppInstance}
use counterfactual.StateChannel.{StateChannel}
use counterfactual.Store
use counterfactual.Store.{Store}
use counterfactual.Commitments.{Signing, Commitment, hash_to_sign, NetworkContext}
use counterfactual.Protocols.{UpdateParams, Message}
use counterfactual.Engine.{Process, assert_is_valid_signature, attempt, done}
use counterfactual.Engine.Runner.{Halt, finished, sent, waiting, advance}
use counterfactual.Engine.Update.{update_transition, update_initiating, update_responding}

module _ (e : Ethers) (s : Signing) where
  -- The signature is there, and its signer has the address.
  pub record IsSignedBy (address : String) (c : Commitment) (signature : Option String)
      : Type 0 where
    pub given : String
    pub signer : String
    pub there : signature ≡ some given
    pub recovered : s.recover_address (hash_to_sign e s c) given ≡ some signer
    pub expected : e.get_address address ≡ some signer

  assert_is_valid_signature-IsSignedBy :
      (address : String) (c : Commitment) (signature : Option String)
      → assert_is_valid_signature e s address c signature ≡ ok tt
      → IsSignedBy address c signature
  unfolding assert_is_valid_signature
  assert_is_valid_signature-IsSignedBy address c none h = cc
  assert_is_valid_signature-IsSignedBy address c (some sig) h =
      let (signer, p, q) =
        >>=-eq-ok (or_throw (s.recover_address (hash_to_sign e s c) sig) _) _ h in
      let (expected, r, t) = >>=-eq-ok (or_throw (e.get_address address) _) _ q in
      record {
        given = sig;
        signer = signer;
        there = refl;
        recovered = ground (arith, p);
        expected = ground (arith, r, t, eq_iff expected signer);
      }
  -- A check that lets a generator go on to its end found a valid signature.

module _ {V A : Type 0} (e : Ethers) (s : Signing) (self : String) where
  -- A generator that does not end by a throw has passed its calls.
  attempt-finished :
      (r : Result A) (next : A → Process V) (store : Store V) {end : Store V}
      → advance e s self (attempt r next) store ≡ finished end
      → (a : A) × (r ≡ ok a) × (advance e s self (next a) store ≡ finished end)
  unfolding advance
  attempt-finished (ok a) next store h = (a, refl, h)
  attempt-finished (err error) next store h = cc

  attempt-sent :
      (r : Result A) (next : A → Process V) (store : Store V) {m : Message V} {rest : Process V}
      {end : Store V}
      → advance e s self (attempt r next) store ≡ sent m rest end
      → (a : A) × (r ≡ ok a) × (advance e s self (next a) store ≡ sent m rest end)
  unfolding advance
  attempt-sent (ok a) next store h = (a, refl, h)
  attempt-sent (err error) next store h = cc

  attempt-waiting :
      (r : Result A) (next : A → Process V) (store : Store V) {m : Message V}
      {rest : Message V → Process V} {end : Store V}
      → advance e s self (attempt r next) store ≡ waiting m rest end
      → (a : A) × (r ≡ ok a) × (advance e s self (next a) store ≡ waiting m rest end)
  unfolding advance
  attempt-waiting (ok a) next store h = (a, refl, h)
  attempt-waiting (err error) next store h = cc

-- The rest of a generator that waits.
rest_of : {V : Type 0} → Halt V → Message V → Process V
rest_of (waiting m rest store) = rest
rest_of _ = λ _. done

module _ {V : Type 0} (e : Ethers) (s : Signing) (abi : AbiCoder V) (network : NetworkContext)
    (self : String) (store : Store V) (process_id : String) (p : UpdateParams V) where
  -- A party that has initiated an update ends, on any reply and with any store by then, only if the
  -- reply has the responder's signature on the commitment to the new state, and it then saves the
  -- channel with the new state and nothing else.
  pub update_initiating-countersigned :
      {request : Message V} {rest : Message V → Process V} {before : Store V}
      → advance e s self (update_initiating e s abi network store process_id p) store
        ≡ waiting request rest before
      → (reply : Message V) (now end : Store V) → advance e s self (rest reply) now ≡ finished end
      → (post : StateChannel V) × (app : AppInstance V) × (c : Commitment) × (update_transition e s
            abi network store p
          ≡ ok (post, app, c))
        × IsSignedBy e s
            (xkey_kth_address e p.responder_xpub app.app_seq_no)
            c
            reply.custom_data.signature
        × (end ≡ Store.save_state_channel e post now)
  unfolding update_initiating advance rest_of
  update_initiating-countersigned {request} {rest} {before} h reply now end k =
      let ((post, app, c), computed, started) =
        attempt-waiting e s self (update_transition e s abi network store p) _ store h in
      let (_, valid, ended) =
        attempt-finished e s self
          (assert_is_valid_signature e s (xkey_kth_address e p.responder_xpub app.app_seq_no) c
            reply.custom_data.signature)
          _ now (rw (← ap (λ halt. rest_of halt reply) started) at k) in
      (
        post,
        app,
        c,
        computed,
        assert_is_valid_signature-IsSignedBy e s _ c reply.custom_data.signature valid,
        cc ended,
      )

  -- A party that responds to an update sends a reply only if the request has the initiator's signature
  -- on the commitment to the new state, and it has then saved the channel with the new state and
  -- nothing else.
  pub update_responding-countersigned :
      {signature : Option String} {reply : Message V} {rest : Process V} {end : Store V}
      → advance e s self (update_responding e s abi network store process_id p signature) store
        ≡ sent reply rest end
      → (post : StateChannel V) × (app : AppInstance V) × (c : Commitment) × (update_transition e s
            abi network store p
          ≡ ok (post, app, c))
        × IsSignedBy e s (xkey_kth_address e p.initiator_xpub app.app_seq_no) c signature
        × (end ≡ Store.save_state_channel e post store)
        × (reply.custom_data.signature
            ≡ some (s.sign_digest self app.app_seq_no (hash_to_sign e s c)))
  unfolding update_responding advance
  update_responding-countersigned {signature} h =
      let ((post, app, c), computed, started) =
        attempt-sent e s self (update_transition e s abi network store p) _ store h in
      let (_, valid, ended) =
        attempt-sent e s self
          (assert_is_valid_signature e s (xkey_kth_address e p.initiator_xpub app.app_seq_no) c
            signature)
          _ store started in
      (
        post,
        app,
        c,
        computed,
        assert_is_valid_signature-IsSignedBy e s _ c signature valid,
        cc ended,
        cc ended,
      )
