-- ===== src/Engine/Session/Settling.antt =====
-- Two users and an intermediary, all honest, that agree on the outcome uninstall a virtual app.
use counterfactual.Prelude.{String, ◌==◌, eq_refl, ◌≡◌, refl, true, false, List, [], ◌∷◌}
use counterfactual.Errors.{ok}
use counterfactual.AppInstance.{identity_hash}
use counterfactual.StateChannel.{StateChannel}
use counterfactual.Store.{Store, save_state_channel, set_commitment}
use counterfactual.Commitments.{SigningLaws, Commitment, hash_to_sign, get_signed_transaction}
use counterfactual.Protocols.{UninstallVirtualAppParams}
use counterfactual.Engine.{free_balance_update}
use counterfactual.Engine.Runner.{advance}
use counterfactual.Engine.VirtualApp.Settling.{
  SettledUser, SettledMediator, settle_user, settle_mediator, pass_through_commitment,
}
use counterfactual.Engine.VirtualApp.Uninstall.{
  settling_initiating, settling_mediating, settling_responding, assert_key_signed,
}
use counterfactual.Engine.Dispatch.{Context}
use counterfactual.Engine.Session.Agreement.{assert_is_valid_signature-sign_digest, both_signed}
use counterfactual.Engine.Session.Mediated.{mediated_session, mediate, ask, tell, after_message}

module _ {V : Type 0} (ctx : Context V) where
  abbrev pub signatures : Commitment → List String → List String
  signatures c [] = []
  signatures c (xpub ∷ xpubs) =
      ctx.signing.sign_digest xpub 0 (hash_to_sign ctx.ethers ctx.signing c) ∷ signatures c xpubs

  -- The last state of the pass-through app, signed by all three in this order.
  abbrev pub settled : String → Commitment → String → String → String → Store V → Store V
  settled hash c first second third store =
      set_commitment ctx.ethers ("update" ∷ hash ∷ [])
        (get_signed_transaction ctx.ethers ctx.signing c
          (signatures c (first ∷ second ∷ third ∷ [])))
        store

  -- The free balance of a channel, signed by its two parties in this order.
  abbrev pub balanced : String → Commitment → String → String → Store V → Store V
  balanced hash c first second store =
      set_commitment ctx.ethers ("update" ∷ hash ∷ [])
        (both_signed ctx.ethers ctx.signing c first second) store

  abbrev pub kept : StateChannel V → Store V → Store V
  kept sc store = save_state_channel ctx.ethers sc store

  module _ (laws : SigningLaws ctx.ethers ctx.signing) (p : UninstallVirtualAppParams)
      {a b : SettledUser V} {t : SettledMediator V} {c first_balance second_balance : Commitment}
      {first_hash second_hash : String} where
    -- If the users are different, the three parties can compute what they need from their stores, the
    -- responder the outcome that is proposed, and they come to the same commitments on the
    -- pass-through app and on the free balances of the two channels, the protocol that uninstalls a
    -- virtual app ends with each party storing its channels without it and without the agreement, the
    -- last state of the pass-through app signed by all three, and the next free balance of each of
    -- its channels with the intermediary or the users, signed by both parties.
    pub mediated_session-settled :
        (first middle second : Store V) (process_id : String)
        → (p.responder_xpub == p.initiator_xpub) ≡ false
        → settle_user ctx.ethers ctx.abi ctx.fb_abi ctx.outcomes ctx.network ctx.settlement first p
            p.initiator_xpub p.responder_xpub
            (λ app. true)
          ≡ ok a
        → settle_mediator ctx.ethers ctx.abi ctx.fb_abi ctx.outcomes ctx.network ctx.settlement
            middle p
          ≡ ok t
        → settle_user ctx.ethers ctx.abi ctx.fb_abi ctx.outcomes ctx.network ctx.settlement second p
            p.responder_xpub p.initiator_xpub
            (λ app. ctx.settlement.outcome app == p.target_outcome)
          ≡ ok b
        → pass_through_commitment ctx.ethers ctx.abi ctx.network a.pass_through ≡ ok c
        → pass_through_commitment ctx.ethers ctx.abi ctx.network t.pass_through ≡ ok c
        → pass_through_commitment ctx.ethers ctx.abi ctx.network b.pass_through ≡ ok c
        → free_balance_update ctx.ethers ctx.fb_abi ctx.network a.mediated
          ≡ ok (first_hash, first_balance)
        → free_balance_update ctx.ethers ctx.fb_abi ctx.network t.with_initiating
          ≡ ok (first_hash, first_balance)
        → free_balance_update ctx.ethers ctx.fb_abi ctx.network t.with_responding
          ≡ ok (second_hash, second_balance)
        → free_balance_update ctx.ethers ctx.fb_abi ctx.network b.mediated
          ≡ ok (second_hash, second_balance)
        → mediated_session ctx p.initiator_xpub p.intermediary_xpub p.responder_xpub
            (settling_initiating ctx.ethers ctx.signing ctx.abi ctx.fb_abi ctx.outcomes ctx.network
              ctx.settlement first process_id p)
            first
            middle
            second
          ≡ ok (
            kept a.direct (
                kept a.wide (
                  kept a.mediated (
                    balanced first_hash first_balance p.initiator_xpub p.intermediary_xpub (
                      settled
                        (identity_hash ctx.ethers a.pass_through)
                        c
                        p.initiator_xpub
                        p.intermediary_xpub
                        p.responder_xpub
                        first)))),
            kept t.with_responding (
                kept t.wide (
                  kept t.with_initiating (
                    balanced second_hash second_balance p.responder_xpub p.intermediary_xpub (
                      balanced first_hash first_balance p.initiator_xpub p.intermediary_xpub (
                        settled
                          (identity_hash ctx.ethers t.pass_through)
                          c
                          p.initiator_xpub
                          p.intermediary_xpub
                          p.responder_xpub
                          middle))))),
            kept b.direct (
                kept b.wide (
                  kept b.mediated (
                    balanced second_hash second_balance p.intermediary_xpub p.responder_xpub (
                      settled
                        (identity_hash ctx.ethers b.pass_through)
                        c
                        p.responder_xpub
                        p.initiator_xpub
                        p.intermediary_xpub
                        second)))),
          )
    unfolding mediated_session mediate ask tell after_message settling_initiating settling_mediating
        settling_responding assert_key_signed advance
    mediated_session-settled first middle second process_id apart computed mediated responded passed
          passed' passed'' balanced_first balanced_first' balanced_second balanced_second' =
        let valid = assert_is_valid_signature-sign_digest ctx.ethers ctx.signing laws in
        let initiator = valid p.initiator_xpub 0 in
        let mediator = valid p.intermediary_xpub 0 in
        let responder = valid p.responder_xpub 0 in
        rw
          (
            computed,
            passed,
            mediated,
            passed',
            initiator c,
            apart,
            mediate,
            responded,
            ask,
            passed'',
            ask,
            initiator c,
            ask,
            mediator c,
            ask,
            responder c,
            mediate,
            eq_refl p.initiator_xpub,
            mediate,
            responder c,
            ask,
            mediator c,
            ask,
            balanced_first,
            ask,
            balanced_first',
            mediate,
            initiator first_balance,
            mediate,
            balanced_second,
            mediate,
            apart,
            mediate,
            balanced_second',
            ask,
            mediator second_balance,
            ask,
            responder second_balance,
            after_message,
            eq_refl p.initiator_xpub,
            mediate,
            mediator first_balance,
            tell,
          )
          refl
