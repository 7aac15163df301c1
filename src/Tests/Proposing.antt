-- ===== src/Tests/Proposing.antt =====
-- The theorem on proposals at two parties that store the same channel.
use counterfactual.Prelude.{ℕ, ◌≡◌, refl, none, some}
use counterfactual.Prelude.Int.{pos}
use counterfactual.Errors.{ok}
use counterfactual.Dict.{lookup, insert, of_entries}
use counterfactual.AppInstance
use counterfactual.FreeBalance.{serialize}
use counterfactual.AppInstance.{two_party_fixed_outcome}
use counterfactual.StateChannel.{
  AppInstanceProposal, most_recently_proposed_app_instance, all_start_with_xpub, construct,
}
use counterfactual.StateChannel.Json.{to_json, from_json}
use counterfactual.Store.{save_state_channel}
use counterfactual.Protocols.{ProposeInstallParams}
use counterfactual.Engine.Propose.{pre_protocol_channel, propose_initiating, initial_commitment}
use counterfactual.Engine.Session.{session}
use counterfactual.Engine.Session.Proposing.{session-propose, exchanged}
use counterfactual.StateChannel.Proposals.{with_proposal}
use counterfactual.Tests.{toy, accept_all, write_number, strokes}
use counterfactual.Tests.Sessions.{active, shared}
use counterfactual.Tests.Parties.{toy_signing, toy_signing_laws, context, toy_network}

-- Alice puts in 3, Bob 2 of some token.
abbrev pub propose_game : ProposeInstallParams ℕ
propose_game = record {
  multisig_address = "0xmultisig";
  initiator_xpub = "xpubA";
  responder_xpub = "xpubB";
  app_definition = "0xapp";
  abi_encodings = record { state_encoding = "tuple()"; action_encoding = none };
  initiator_deposit = pos 3;
  initiator_deposit_token_address = none;
  responder_deposit = pos 2;
  responder_deposit_token_address = some "0xtoken";
  timeout = pos 100;
  initial_state = 7;
  outcome_type = two_party_fixed_outcome;
}

starts_from : pre_protocol_channel shared propose_game ≡ ok active
unfolding pre_protocol_channel lookup insert of_entries to_json from_json construct
    all_start_with_xpub AppInstance.from_json AppInstance.to_json serialize
starts_from = refl

session-propose_example :
    (proposal : AppInstanceProposal ℕ) × (session context context.outcomes "xpubA" "xpubB"
        (propose_initiating toy toy_signing accept_all toy_network shared "process" propose_game)
        shared
        shared
      ≡ ok (
        save_state_channel toy (with_proposal proposal active) shared,
        save_state_channel toy (with_proposal (exchanged proposal) active) shared,
      ))
    × (most_recently_proposed_app_instance (with_proposal proposal active) ≡ ok proposal)
    × (most_recently_proposed_app_instance (with_proposal (exchanged proposal) active)
        ≡ ok (exchanged proposal))
    × (proposal.app_seq_no ≡ 2)
    × (proposal.initiator_deposit ≡ "p111")
    × (proposal.responder_deposit ≡ "p11")
    × (proposal.proposed_by_identifier ≡ "xpubA")
    × (proposal.proposed_to_identifier ≡ "xpubB")
unfolding all_start_with_xpub initial_commitment write_number strokes
session-propose_example =
    session-propose context toy_signing_laws context.outcomes shared shared "process" propose_game
      refl tt starts_from starts_from refl refl
