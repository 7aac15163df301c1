-- ===== src/Engine/Session/Opening.antt =====
-- Two honest parties open a channel: the setup protocol ends with the same channel at both.
use counterfactual.Prelude.{String, ◌≡◌, refl, sym, true, none, List, [], ◌∷◌, map, All}
use counterfactual.Errors.{ok}
use counterfactual.AppInstance.{identity}
use counterfactual.External.{EthersLaws}
use counterfactual.FreeBalance.{FreeBalance, CoinTransfer, create_free_balance, eth_token_address}
use counterfactual.FreeBalance.WellFormed.{IsToken}
use counterfactual.FreeBalance.Fresh.{
  fresh, fresh_accounts, fresh-IsWellFormed, create_free_balance-fresh,
}
use counterfactual.StateChannel.Holding.{Holds, get_free_balance_class-Holds}
use counterfactual.Xkeys.{xkey_kth_address, xkeys_to_sorted_kth_addresses}
use counterfactual.Xkeys.Sorting.{sort_addresses_two}
use counterfactual.Prelude.Int.{pos}
use counterfactual.StateChannel.{
  StateChannel, all_start_with_xpub, construct, free_balance, multisig_owners,
  get_free_balance_class, get_signing_keys_for,
}
use counterfactual.StateChannel.Funds.{setup_channel, new_channel}
use counterfactual.Store.{Store, save_state_channel}
use counterfactual.Commitments.{SigningLaws, Commitment, multisig_commitment, setup_action}
use counterfactual.Protocols.{SetupParams}
use counterfactual.Engine.Runner.{advance}
use counterfactual.Engine.Setup.{setup_transition, setup_initiating, setup_responding}
use counterfactual.Engine.Uninstall.{Outcomes}
use counterfactual.Engine.Session.{session}
use counterfactual.Engine.Dispatch.{Context}
use counterfactual.Engine.Session.Agreement.{assert_is_valid_signature-sign_digest}

module _ {V : Type 0} (ctx : Context V) (laws : SigningLaws ctx.ethers ctx.signing) where
  -- The channel of the two parties, without apps, and the commitment to its free balance.
  abbrev pub opened : SetupParams → StateChannel V
  opened p =
      new_channel ctx.ethers ctx.network.identity_app p.multisig_address
        (p.initiator_xpub ∷ p.responder_xpub ∷ []) none

  abbrev opening_commitment : SetupParams → Commitment
  opening_commitment p = multisig_commitment (record {
    multisig = p.multisig_address;
    multisig_owners = multisig_owners ctx.ethers (opened p);
    action = setup_action ctx.network (
        identity (
          create_free_balance ctx.ethers (p.initiator_xpub ∷ p.responder_xpub ∷ [])
            ctx.network.identity_app 172800));
  })

  -- A channel as it is opened: the two parties under the multisig's address, no apps, no
  -- proposals, no agreements, and a free balance without active apps, in which the owners of
  -- the multisig, in their order, have an account of zero each in the chain's own coin, and
  -- there is no other token.
  pub record IsOpened (p : SetupParams) (sc : StateChannel V) : Type 0 where
    pub address : sc.multisig_address ≡ p.multisig_address
    pub users : sc.user_neutered_extended_keys ≡ p.initiator_xpub ∷ p.responder_xpub ∷ []
    pub proposals : sc.proposed_app_instances ≡ []
    pub apps : sc.app_instances ≡ []
    pub virtual_agreements : sc.agreements ≡ []
    pub held : FreeBalance
    pub read : get_free_balance_class ctx.ethers sc ≡ ok held
    pub active : held.active_apps_map ≡ []
    pub accounts : List CoinTransfer
    pub funds : held.balances_indexed_by_token ≡ (eth_token_address, accounts) ∷ []
    pub holders : map (λ account. account.to) accounts ≡ multisig_owners ctx.ethers sc
    pub empty : All (λ account. account.amount ≡ pos 0) accounts

  opened-IsOpened :
      (p : SetupParams)
      → EthersLaws ctx.ethers
      → IsToken ctx.ethers eth_token_address
      → all_start_with_xpub (p.initiator_xpub ∷ p.responder_xpub ∷ []) ≡ true
      → IsOpened p (opened p)
  unfolding multisig_owners get_signing_keys_for xkeys_to_sorted_kth_addresses
  opened-IsOpened p ethers_laws token xpubs =
      let users = p.initiator_xpub ∷ p.responder_xpub ∷ [] in
      let (a, b, sorted) =
        sort_addresses_two (xkey_kth_address ctx.ethers p.initiator_xpub 0)
          (xkey_kth_address ctx.ethers p.responder_xpub 0) in
      let holds : Holds ctx.ethers (opened p) (fresh a b) = record {
        app = create_free_balance ctx.ethers users ctx.network.identity_app 172800;
        here = refl;
        state = create_free_balance-fresh ctx.ethers users ctx.network.identity_app 172800 sorted;
        formed = fresh-IsWellFormed ctx.ethers a b token;
        xpubs = xpubs;
      } in
      record {
        address = refl;
        users = refl;
        proposals = refl;
        apps = refl;
        virtual_agreements = refl;
        held = fresh a b;
        read =
            get_free_balance_class-Holds ctx.ethers ethers_laws ctx.fb_abi (opened p) (fresh a b)
              holds;
        active = refl;
        accounts = fresh_accounts a b;
        funds = refl;
        holders = sym sorted;
        empty = (refl, (refl, tt));
      }

  -- If both parties have extended public keys and the address that stands for the chain's own
  -- coin is a checksummed one, the setup protocol ends with both storing the same channel and
  -- changing nothing else in their stores: a channel of their keys under the multisig's address
  -- without apps, proposals and agreements, with a free balance in which the owners of the
  -- multisig have an account of zero each.
  pub session-setup :
      (theirs : Outcomes V) (first second : Store V) (process_id : String) (p : SetupParams)
      → EthersLaws ctx.ethers
      → IsToken ctx.ethers eth_token_address
      → all_start_with_xpub (p.initiator_xpub ∷ p.responder_xpub ∷ []) ≡ true
      → (sc : StateChannel V) × IsOpened p sc
        × (session ctx theirs p.initiator_xpub p.responder_xpub
              (setup_initiating ctx.ethers ctx.network ctx.signing process_id p)
              first
              second
            ≡ ok (save_state_channel ctx.ethers sc first, save_state_channel ctx.ethers sc second))
  unfolding session setup_initiating setup_responding setup_transition advance setup_channel
      construct free_balance
  session-setup theirs first second process_id p ethers_laws token xpubs =
      let valid = assert_is_valid_signature-sign_digest ctx.ethers ctx.signing laws in
      let c = opening_commitment p in
      (
        opened p,
        opened-IsOpened p ethers_laws token xpubs,
        rw (xpubs, xpubs, valid p.initiator_xpub 0 c, valid p.responder_xpub 0 c) refl,
      )
