-- ===== src/Engine/Session/Playing.antt =====
-- Two users and an intermediary, all honest, that agree on their channels install a virtual app.
pub mod Together
use counterfactual.Prelude.{String, ◌==◌, eq_refl, ◌≡◌, refl, false, List, [], ◌∷◌}
use counterfactual.Errors.{ok}
use counterfactual.AppInstance.{AppInstance, identity_hash}
use counterfactual.Xkeys.{xkey_kth_address}
use counterfactual.StateChannel.{StateChannel, get_multisig_owner_addr_of}
use counterfactual.StateChannel.Apps.{add_app_instance}
use counterfactual.Store.{Store, save_state_channel, set_commitment}
use counterfactual.Commitments.{SigningLaws, Commitment, hash_to_sign, get_signed_transaction}
use counterfactual.Protocols.{InstallVirtualAppParams}
use counterfactual.Engine.{free_balance_update}
use counterfactual.Engine.Runner.{advance}
use counterfactual.Engine.VirtualApp.{
  get_or_create_state_channel_with_users, construct_virtual_app_instance,
  construct_pass_through_app_instance, mediation_channel, agree_on, agreement_transaction,
  initiating_decrements, responding_decrements, commit_to_app,
}
use counterfactual.Engine.VirtualApp.Terms.{UserTerms, MediatorTerms, user_terms, mediator_terms}
use counterfactual.Engine.VirtualApp.Install.{virtual_initiating, virtual_responding}
use counterfactual.Engine.VirtualApp.Mediator.{virtual_mediating}
use counterfactual.Engine.Dispatch.{Context}
use counterfactual.Engine.Session.Agreement.{assert_is_valid_signature-sign_digest, both_signed}
use counterfactual.Engine.Session.Mediated.{mediated_session, mediate, ask, tell}

-- The channels that the parties start from: of all three, of the users, and of each user with the
-- intermediary. The wide one and the one of the users may be new.
pub record Channels (V : Type 0) : Type 0 where
  pub wide : StateChannel V
  pub direct : StateChannel V
  pub initiating : StateChannel V
  pub responding : StateChannel V

-- What comes of them: the two apps, the four channels, and the commitments.
pub record Objects (V : Type 0) : Type 0 where
  pub app : AppInstance V
  pub pass : AppInstance V
  pub next : Channels V
  pub initiating_agreement : Commitment
  pub responding_agreement : Commitment
  pub initiating_hash : String
  pub initiating_balance : Commitment
  pub responding_hash : String
  pub responding_balance : Commitment
  pub app_commitment : Commitment
  pub pass_commitment : Commitment

module _ {V : Type 0} (ctx : Context V) (p : InstallVirtualAppParams V) where
  abbrev pub key : String → String
  key xpub = xkey_kth_address ctx.ethers xpub 0

  -- The users of the wide channel, and of the one between the users.
  abbrev pub all_three : List String
  all_three = p.initiator_xpub ∷ p.responder_xpub ∷ p.intermediary_xpub ∷ []

  abbrev pub both_users : List String
  both_users = p.initiator_xpub ∷ p.responder_xpub ∷ []

  -- The channels are those that a store has, or new ones.
  pub record IsStored (store : Store V) (users : List String) (sc : StateChannel V) : Type 0 where
    pub found :
        get_or_create_state_channel_with_users ctx.ethers ctx.network ctx.mediation store users
        ≡ ok sc

  pub record IsMediated (store : Store V) (user : String) (sc : StateChannel V) : Type 0 where
    pub found : mediation_channel ctx.ethers ctx.network ctx.mediation store p user ≡ ok sc

  -- The objects are those that the parties compute from the channels.
  pub record Computes (c : Channels V) (o : Objects V) : Type 0 where
    pub virtual_app : construct_virtual_app_instance ctx.ethers p ≡ ok o.app
    pub pass_through :
        construct_pass_through_app_instance ctx.ethers ctx.network ctx.mediation c.wide
          (identity_hash ctx.ethers o.app)
          (ctx.mediation.outcome o.app)
          p
        ≡ ok o.pass
    pub wide : add_app_instance ctx.ethers o.pass c.wide ≡ ok o.next.wide
    pub direct : add_app_instance ctx.ethers o.app c.direct ≡ ok o.next.direct
    pub initiating :
        agree_on ctx.ethers ctx.fb_abi p p.initiator_xpub
          (identity_hash ctx.ethers o.app)
          (identity_hash ctx.ethers o.pass)
          (initiating_decrements ctx.ethers p)
          c.initiating
        ≡ ok o.next.initiating
    pub responding :
        agree_on ctx.ethers ctx.fb_abi p p.responder_xpub
          (identity_hash ctx.ethers o.app)
          (identity_hash ctx.ethers o.pass)
          (responding_decrements ctx.ethers p)
          c.responding
        ≡ ok o.next.responding
    pub initiating_agreement :
        agreement_transaction ctx.ethers ctx.network ctx.mediation o.next.initiating o.pass
          (identity_hash ctx.ethers o.app)
        ≡ ok o.initiating_agreement
    pub responding_agreement :
        agreement_transaction ctx.ethers ctx.network ctx.mediation o.next.responding o.pass
          (identity_hash ctx.ethers o.app)
        ≡ ok o.responding_agreement
    pub initiating_balance :
        free_balance_update ctx.ethers ctx.fb_abi ctx.network o.next.initiating
        ≡ ok (o.initiating_hash, o.initiating_balance)
    pub responding_balance :
        free_balance_update ctx.ethers ctx.fb_abi ctx.network o.next.responding
        ≡ ok (o.responding_hash, o.responding_balance)
    pub app_commitment : commit_to_app ctx.ethers ctx.abi ctx.network o.app ≡ ok o.app_commitment
    pub pass_commitment : commit_to_app ctx.ethers ctx.abi ctx.network o.pass ≡ ok o.pass_commitment

  -- Every party is an owner of the multisigs of its channels.
  pub record Owns (o : Objects V) : Type 0 where
    pub initiator :
        get_multisig_owner_addr_of ctx.ethers o.next.initiating p.initiator_xpub
        ≡ ok (key p.initiator_xpub)
    pub initiating_intermediary :
        get_multisig_owner_addr_of ctx.ethers o.next.initiating p.intermediary_xpub
        ≡ ok (key p.intermediary_xpub)
    pub responder :
        get_multisig_owner_addr_of ctx.ethers o.next.responding p.responder_xpub
        ≡ ok (key p.responder_xpub)
    pub responding_intermediary :
        get_multisig_owner_addr_of ctx.ethers o.next.responding p.intermediary_xpub
        ≡ ok (key p.intermediary_xpub)
    pub first_user :
        get_multisig_owner_addr_of ctx.ethers o.next.direct p.initiator_xpub
        ≡ ok (key p.initiator_xpub)
    pub second_user :
        get_multisig_owner_addr_of ctx.ethers o.next.direct p.responder_xpub
        ≡ ok (key p.responder_xpub)

  module _ {c : Channels V} {o : Objects V} (computes : Computes c o) (owns : Owns o) where
    abbrev pub user_terms_of : StateChannel V → String → Commitment → UserTerms V
    user_terms_of mediated other agreement = record {
      wide = o.next.wide;
      direct = o.next.direct;
      mediated = mediated;
      virtual_app = o.app;
      pass_through = o.pass;
      intermediary = key p.intermediary_xpub;
      other = key other;
      agreement = agreement;
    }

    pub initiating_terms :
        (store : Store V)
        → IsStored store all_three c.wide
        → IsStored store both_users c.direct
        → IsMediated store p.initiator_xpub c.initiating
        → user_terms ctx.ethers ctx.fb_abi ctx.network ctx.mediation store p p.initiator_xpub
            p.responder_xpub
            (initiating_decrements ctx.ethers p)
          ≡ ok (user_terms_of o.next.initiating p.responder_xpub o.initiating_agreement)
    unfolding user_terms
    initiating_terms store wide direct mediated =
        rw
          (
            wide.found, direct.found, computes.virtual_app, computes.pass_through, mediated.found,
            computes.initiating, computes.wide, computes.direct, owns.initiating_intermediary,
            owns.second_user, computes.initiating_agreement,
          )
          refl

    pub responding_terms :
        (store : Store V)
        → IsStored store all_three c.wide
        → IsStored store both_users c.direct
        → IsMediated store p.responder_xpub c.responding
        → user_terms ctx.ethers ctx.fb_abi ctx.network ctx.mediation store p p.responder_xpub
            p.initiator_xpub
            (responding_decrements ctx.ethers p)
          ≡ ok (user_terms_of o.next.responding p.initiator_xpub o.responding_agreement)
    unfolding user_terms
    responding_terms store wide direct mediated =
        rw
          (
            wide.found, direct.found, computes.virtual_app, computes.pass_through, mediated.found,
            computes.responding, computes.wide, computes.direct, owns.responding_intermediary,
            owns.first_user, computes.responding_agreement,
          )
          refl

    abbrev pub mediator_terms_of : MediatorTerms V
    mediator_terms_of = record {
      wide = o.next.wide;
      with_initiating = o.next.initiating;
      with_responding = o.next.responding;
      pass_through = o.pass;
      initiator = key p.initiator_xpub;
      responder = key p.responder_xpub;
      agreement = o.initiating_agreement;
    }

    pub mediating_terms :
        (store : Store V)
        → IsStored store all_three c.wide
        → IsMediated store p.initiator_xpub c.initiating
        → IsMediated store p.responder_xpub c.responding
        → mediator_terms ctx.ethers ctx.fb_abi ctx.network ctx.mediation store p
            (identity_hash ctx.ethers o.app)
            (ctx.mediation.outcome o.app)
          ≡ ok mediator_terms_of
    unfolding mediator_terms
    mediating_terms store wide initiating responding =
        rw
          (
            wide.found, computes.pass_through, initiating.found, responding.found, computes.wide,
            computes.initiating, computes.responding, owns.initiator, owns.responder,
            computes.initiating_agreement,
          )
          refl
