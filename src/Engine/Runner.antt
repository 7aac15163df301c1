-- ===== src/Engine/Runner.antt =====
-- `runProtocol` of engine/protocol-runner.ts with the middleware that node.ts registers: a generator
-- is run until it sends a message or ends.
use counterfactual.Prelude.{String}
use counterfactual.Errors.{Error}
use counterfactual.External.{Ethers}
use counterfactual.Dict.{or_else}
use counterfactual.Store
use counterfactual.Store.{Store}
use counterfactual.Commitments.{Signing, hash_to_sign}
use counterfactual.Protocols.{Message}
use counterfactual.Engine.{
  store_withdrawal_commitment, Process, op_sign, io_send, io_send_and_wait, set_commitment,
  save_state_channel, throw, done,
}

-- Where a generator stops, with the store at that point.
pub data Halt (V : Type 0) : Type 0 where
  finished : Store V → Halt V
  sent : Message V → Process V → Store V → Halt V
  waiting : Message V → (Message V → Process V) → Store V → Halt V
  thrown : Error → Store V → Halt V

-- `self` is the extended key of the party that runs the generator.
unfoldable pub advance : {V : Type 0} → Ethers → Signing → String → Process V → Store V → Halt V
advance e s self (op_sign c index next) store =
    advance e s self (next (s.sign_digest self (or_else index 0) (hash_to_sign e s c))) store
advance e s self (io_send m next) store = sent m next store
advance e s self (io_send_and_wait m next) store = waiting m next store
advance e s self (set_commitment args c next) store =
    advance e s self next (Store.set_commitment e args c store)
advance e s self (store_withdrawal_commitment address c next) store =
    advance e s self next (Store.store_withdrawal_commitment address c store)
advance e s self (save_state_channel sc next) store =
    advance e s self next (Store.save_state_channel e sc store)
advance e s self (throw error) store = thrown error store
advance e s self done store = finished store
