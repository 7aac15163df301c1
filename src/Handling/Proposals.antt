-- ===== src/Handling/Proposals.antt =====
-- What a node does with the proposal of the app that the event of an installation names.
use counterfactual.Prelude.{String}
use counterfactual.External.{Ethers}
use counterfactual.Dict.{erase}
use counterfactual.StateChannel.{StateChannel}
use counterfactual.Store.{Store}
use counterfactual.Create2.{Create2}

module _ {V : Type 0} (e : Ethers) where
  abbrev without_proposal : String → StateChannel V → StateChannel V
  without_proposal id sc = record sc { proposed_app_instances = erase id sc.proposed_app_instances }
