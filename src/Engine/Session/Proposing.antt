-- ===== src/Engine/Session/Proposing.antt =====
-- Two honest parties that agree on a channel end a proposal with mirrored proposals of one app.
use counterfactual.Prelude.{ℕ, ◌+◌, String, ◌≡◌, refl, some}
use counterfactual.Errors.{ok}
use counterfactual.StateChannel.{
  StateChannel, AppInstanceProposal, most_recently_proposed_app_instance, num_proposed_apps,
}
use counterfactual.StateChannel.Holding.{HasXpubs}
use counterfactual.StateChannel.Proposals.{
  IsNumbered, with_proposal, add_proposal-with_proposal, with_proposal-most_recent,
}
use counterfactual.Store.{Store, save_state_channel}
use counterfactual.Commitments.{SigningLaws, Commitment}
use counterfactual.Protocols.{ProposeInstallParams}
use counterfactual.Engine.Runner.{advance}
use counterfactual.Engine.Propose.{
  pre_protocol_channel, initiator_proposal, responder_proposal, proposal_with, initial_commitment,
  propose_initiating, propose_responding,
}
use counterfactual.Engine.Uninstall.{Outcomes}
use counterfactual.Engine.Session.{session}
use counterfactual.Engine.Dispatch.{Context}
use counterfactual.Engine.Session.Agreement.{assert_is_valid_signature-sign_digest}

-- The proposal with the deposits of the two parties exchanged.
abbrev pub exchanged : {V : Type 0} → AppInstanceProposal V → AppInstanceProposal V
exchanged proposal = record proposal {
  initiator_deposit = proposal.responder_deposit;
  initiator_deposit_token_address = proposal.responder_deposit_token_address;
  responder_deposit = proposal.initiator_deposit;
  responder_deposit_token_address = proposal.initiator_deposit_token_address;
}

module _ {V : Type 0} (ctx : Context V) (laws : SigningLaws ctx.ethers ctx.signing) where
  -- If both parties start from the same numbered channel of extended public keys, the timeout
  -- is a number and the initial state can be encoded, the propose protocol ends with both
  -- storing the channel with one more proposal, its most recent one, and nothing else of it
  -- changed. The proposal of the initiator has the next number, the deposits as they were
  -- proposed and the two parties; that of the responder is the same but for the deposits and
  -- their tokens, which are exchanged.
  pub session-propose :
      (theirs : Outcomes V) (first second : Store V) (process_id : String)
      (p : ProposeInstallParams V) {pre : StateChannel V} {timeout : ℕ} {c : Commitment}
      → HasXpubs pre
      → IsNumbered pre
      → pre_protocol_channel first p ≡ ok pre
      → pre_protocol_channel second p ≡ ok pre
      → ctx.ethers.to_number p.timeout ≡ some timeout
      → initial_commitment ctx.ethers ctx.signing ctx.abi ctx.network pre p timeout ≡ ok c
      → (proposal : AppInstanceProposal V) × (session ctx theirs p.initiator_xpub p.responder_xpub
            (propose_initiating ctx.ethers ctx.signing ctx.abi ctx.network first process_id p)
            first
            second
          ≡ ok (
            save_state_channel ctx.ethers (with_proposal proposal pre) first,
            save_state_channel ctx.ethers (with_proposal (exchanged proposal) pre) second,
          ))
        × (most_recently_proposed_app_instance (with_proposal proposal pre) ≡ ok proposal)
        × (most_recently_proposed_app_instance (with_proposal (exchanged proposal) pre)
            ≡ ok (exchanged proposal))
        × (proposal.app_seq_no ≡ num_proposed_apps pre + 1)
        × (proposal.initiator_deposit ≡ ctx.ethers.to_hex_string p.initiator_deposit)
        × (proposal.responder_deposit ≡ ctx.ethers.to_hex_string p.responder_deposit)
        × (proposal.proposed_by_identifier ≡ p.initiator_xpub)
        × (proposal.proposed_to_identifier ≡ p.responder_xpub)
  unfolding session propose_initiating propose_responding advance initiator_proposal
      responder_proposal proposal_with
  session-propose theirs first second process_id p {pre} {timeout} {c} xpubs numbered at_first
        at_second number committed =
      let valid = assert_is_valid_signature-sign_digest ctx.ethers ctx.signing laws in
      let proposal = initiator_proposal ctx.ethers pre p timeout in
      (
        proposal,
        rw
            (
              at_first,
              number,
              add_proposal-with_proposal pre proposal xpubs,
              committed,
              at_second,
              number,
              committed,
              valid p.initiator_xpub 0 c,
              add_proposal-with_proposal pre (responder_proposal ctx.ethers pre p timeout) xpubs,
              valid p.responder_xpub 0 c,
            )
            refl,
        with_proposal-most_recent pre proposal numbered refl,
        with_proposal-most_recent pre (exchanged proposal) numbered refl,
        refl,
        refl,
        refl,
        refl,
        refl,
      )
