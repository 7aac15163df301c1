-- ===== src/Engine/Session/Playing/Together.antt =====
-- The session of the three parties in which they install a virtual app.
use counterfactual.Prelude.{String, ◌==◌, eq_refl, ◌≡◌, refl, false, List, [], ◌∷◌}
use counterfactual.Errors.{ok}
use counterfactual.AppInstance.{identity_hash}
use counterfactual.StateChannel.{StateChannel}
use counterfactual.Store.{Store, MinimalTransaction, save_state_channel, set_commitment}
use counterfactual.Commitments.{SigningLaws, Commitment, hash_to_sign, get_signed_transaction}
use counterfactual.Protocols.{InstallVirtualAppParams}
use counterfactual.Engine.Runner.{advance}
use counterfactual.Engine.VirtualApp.Install.{virtual_initiating, virtual_responding}
use counterfactual.Engine.VirtualApp.Mediator.{virtual_mediating}
use counterfactual.Engine.Dispatch.{Context}
use counterfactual.Engine.Session.Agreement.{assert_is_valid_signature-sign_digest, both_signed}
use counterfactual.Engine.Session.Mediated.{mediated_session, mediate, ask, tell, after_message}
use counterfactual.Engine.Session.Playing.{
  Channels, Objects, IsStored, IsMediated, Computes, Owns, all_three, both_users, initiating_terms,
  responding_terms, mediating_terms,
}

module _ {V : Type 0} (ctx : Context V) where
  abbrev pub file : String → String → MinimalTransaction → Store V → Store V
  file word hash c store = set_commitment ctx.ethers (word ∷ hash ∷ []) c store

  abbrev pub sign : Commitment → String → String
  sign c xpub = ctx.signing.sign_digest xpub 0 (hash_to_sign ctx.ethers ctx.signing c)

  abbrev pub with_signatures : Commitment → List String → MinimalTransaction
  with_signatures c sigs = get_signed_transaction ctx.ethers ctx.signing c sigs

  module _ (p : InstallVirtualAppParams V) (o : Objects V) where
    -- The first state of the pass-through app, signed by all three.
    abbrev pub passed : Store V → Store V
    passed store =
        file "update" (identity_hash ctx.ethers o.pass)
          (with_signatures o.pass_commitment (
            sign o.pass_commitment p.initiator_xpub
            ∷ sign o.pass_commitment p.responder_xpub
            ∷ sign o.pass_commitment p.intermediary_xpub
            ∷ []))
          store

    -- The first state of the virtual app, signed by the two users.
    abbrev pub played : Store V → Store V
    played store =
        file "update" (identity_hash ctx.ethers o.app)
          (both_signed ctx.ethers ctx.signing o.app_commitment p.initiator_xpub p.responder_xpub)
          store

    -- What each party has filed in the end.
    abbrev pub initiator_files : Store V → Store V
    initiator_files store = played (
        passed (
          file "update" o.initiating_hash
            (both_signed ctx.ethers ctx.signing o.initiating_balance p.initiator_xpub
              p.intermediary_xpub)
            (file "install-virtual-app" (identity_hash ctx.ethers o.app)
              (both_signed ctx.ethers ctx.signing o.initiating_agreement p.initiator_xpub
                p.intermediary_xpub)
              store)))

    abbrev pub responder_files : Store V → Store V
    responder_files store = played (
        passed (
          file "update" o.responding_hash
            (both_signed ctx.ethers ctx.signing o.responding_balance p.intermediary_xpub
              p.responder_xpub)
            (file "install-virtual-app" (identity_hash ctx.ethers o.app)
              (both_signed ctx.ethers ctx.signing o.responding_agreement p.responder_xpub
                p.intermediary_xpub)
              store)))

    -- The second of these is the next free balance of the channel with the responder, under
    -- signatures on that of the channel with the initiator.
    abbrev pub mediator_files : Store V → Store V
    mediator_files store = passed (
        file "update" o.responding_hash
          (both_signed ctx.ethers ctx.signing o.responding_balance p.responder_xpub
            p.intermediary_xpub)
          (file "update" o.responding_hash
            (with_signatures o.responding_balance (
              sign o.initiating_balance p.initiator_xpub
              ∷ sign o.initiating_balance p.intermediary_xpub
              ∷ []))
            (file "install-virtual-app" (identity_hash ctx.ethers o.pass)
              (both_signed ctx.ethers ctx.signing o.initiating_agreement p.initiator_xpub
                p.intermediary_xpub)
              store)))

  abbrev pub save : StateChannel V → Store V → Store V
  save sc store = save_state_channel ctx.ethers sc store

  module _ (laws : SigningLaws ctx.ethers ctx.signing) (p : InstallVirtualAppParams V)
      {c : Channels V} {o : Objects V} where
    -- If the three parties store the same channels, the users are different, everything can be
    -- computed and every party is an owner of its multisigs, the protocol that installs a virtual app
    -- ends with the users storing their channel with the app, each user and the intermediary their
    -- channel with the agreement, and all three theirs with the pass-through app. The users file the
    -- agreement, the free balance, the pass-through app and the virtual app, signed by the parties
    -- that they concern; the intermediary files the agreement with the initiator, the free balance of
    -- the channel with the responder twice, the first time under signatures on the free balance of
    -- the channel with the initiator, and the pass-through app.
    pub mediated_session-virtual :
        (first middle second : Store V) (process_id : String)
        → (p.responder_xpub == p.initiator_xpub) ≡ false
        → Computes ctx p c o
        → Owns ctx p o
        → IsStored ctx p first (all_three ctx p) c.wide
        → IsStored ctx p middle (all_three ctx p) c.wide
        → IsStored ctx p second (all_three ctx p) c.wide
        → IsStored ctx p first (both_users ctx p) c.direct
        → IsStored ctx p second (both_users ctx p) c.direct
        → IsMediated ctx p first p.initiator_xpub c.initiating
        → IsMediated ctx p middle p.initiator_xpub c.initiating
        → IsMediated ctx p middle p.responder_xpub c.responding
        → IsMediated ctx p second p.responder_xpub c.responding
        → mediated_session ctx p.initiator_xpub p.intermediary_xpub p.responder_xpub
            (virtual_initiating ctx.ethers ctx.signing ctx.abi ctx.fb_abi ctx.network ctx.mediation
              first process_id p)
            first
            middle
            second
          ≡ ok (
            save o.next.wide
                (save o.next.direct (save o.next.initiating (initiator_files p o first))),
            save o.next.initiating
                (save o.next.responding (save o.next.wide (mediator_files p o middle))),
            save o.next.direct
                (save o.next.wide (save o.next.responding (responder_files p o second))),
          )
    unfolding mediated_session mediate ask tell after_message virtual_initiating virtual_responding
        virtual_mediating advance
    mediated_session-virtual first middle second process_id apart computes owns w1 w2 w3 d1 d3 i1 i2
          r2 r3 =
        let valid = assert_is_valid_signature-sign_digest ctx.ethers ctx.signing laws in
        let initiator = valid p.initiator_xpub 0 in
        let mediator = valid p.intermediary_xpub 0 in
        let responder = valid p.responder_xpub 0 in
        rw
          (
            initiating_terms ctx p computes owns first w1 d1 i1,
            mediating_terms ctx p computes owns middle w2 i2 r2,
            initiator o.initiating_agreement,
            computes.responding_agreement,
            apart,
            mediate,
            responding_terms ctx p computes owns second w3 d3 r3,
            ask,
            mediator o.responding_agreement,
            ask,
            computes.responding_balance,
            ask,
            responder o.responding_agreement,
            mediate,
            responder o.responding_balance,
            mediate,
            computes.initiating_balance,
            mediate,
            eq_refl p.initiator_xpub,
            mediate,
            mediator o.initiating_agreement,
            ask,
            computes.initiating_balance,
            ask,
            mediator o.initiating_balance,
            ask,
            computes.app_commitment,
            ask,
            computes.pass_commitment,
            ask,
            initiator o.initiating_balance,
            mediate,
            initiator o.pass_commitment,
            mediate,
            apart,
            mediate,
            mediator o.responding_balance,
            ask,
            computes.app_commitment,
            ask,
            computes.pass_commitment,
            ask,
            mediator o.pass_commitment,
            ask,
            initiator o.pass_commitment,
            ask,
            initiator o.app_commitment,
            ask,
            responder o.pass_commitment,
            after_message,
            eq_refl p.initiator_xpub,
            mediate,
            mediator o.pass_commitment,
            tell,
            responder o.pass_commitment,
            tell,
            responder o.app_commitment,
            tell,
          )
          refl
