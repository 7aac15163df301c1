-- ===== src/Tests/Installation.antt =====
-- The theorem on the installation of a proposal, at the game that Alice proposes to Bob.
use counterfactual.Prelude.{ℕ, ◌≡◌, refl}
use counterfactual.Prelude.Int.{pos}
use counterfactual.Errors.{ok}
use counterfactual.AppInstance.{identity_hash}
use counterfactual.Engine.Install.{app_to_be_installed, InterpreterParams}
use counterfactual.Engine.Propose.{responder_proposal}
use counterfactual.Protocols.{InstallParams}
use counterfactual.Installation.{installation_params, installation_params-responder_proposal}
use counterfactual.Tests.{toy, toy_laws, accept_all, channel, playing}
use counterfactual.Tests.Proposing.{propose_game}

installation_params-responder_proposal_example :
    (params : InstallParams ℕ) × (installation_params toy playing
        (responder_proposal toy channel propose_game 100)
      ≡ ok params)
    × (params.initiator_xpub ≡ "xpubB")
    × (params.responder_xpub ≡ "xpubA")
    × (params.initiator_balance_decrement ≡ pos 2)
    × (params.responder_balance_decrement ≡ pos 3)
    × ((interpreter : InterpreterParams)
        → identity_hash toy (app_to_be_installed toy accept_all "max" params interpreter)
          ≡ (responder_proposal toy channel propose_game 100).identity_hash)
installation_params-responder_proposal_example =
    installation_params-responder_proposal toy toy_laws accept_all "max" channel playing
      propose_game 100 refl refl
