-- ===== src/Engine/Session/Mediated.antt =====
-- A protocol between two users and an intermediary, who takes part in every exchange of messages.
use counterfactual.Prelude.{String, ◌==◌, true, false}
use counterfactual.Errors.{Result, ok, err, no_answer}
use counterfactual.Dict.{or_else}
use counterfactual.Store
use counterfactual.Store.{Store}
use counterfactual.Commitments.{hash_to_sign}
use counterfactual.Protocols.{Message}
use counterfactual.Engine.{
  Process, op_sign, io_send, io_send_and_wait, set_commitment, store_withdrawal_commitment,
  save_state_channel, throw, done,
}
use counterfactual.Engine.Runner.{Halt, finished, sent, waiting, thrown, advance}
use counterfactual.Engine.Dispatch.{Context, run_protocol_with_message}

-- A user between two messages: the extended key, what it does with the next message, and its store.
pub record User (V : Type 0) : Type 0 where
  pub xpub : String
  pub plan : Message V → Process V
  pub store : Store V

-- The stores of the first user, the intermediary and the second user.
abbrev pub Stores : Type 0 → Type 0
Stores V = Store V × Store V × Store V

module _ {V : Type 0} (ctx : Context V) where
  -- A user has no use for a message that it does not wait for.
  abbrev pub ended : Message V → Process V
  ended m = throw no_answer

  -- A user that has answered runs to its end.
  unfoldable pub after_message :
      String → Message V → Halt V → (Message V → User V → Result (Stores V)) → Result (Stores V)
  after_message xpub m (finished store) next =
      next m (record { xpub = xpub; plan = ended; store = store })
  after_message xpub m (thrown error store) next = err error
  after_message xpub m _ next = err no_answer

  -- The intermediary waits for the message of a user, by where the user stops.
  unfoldable pub ask :
      String → Halt V → (Message V → User V → Result (Stores V)) → Result (Stores V)
  unfolding after_message
  ask xpub (waiting m plan store) next = next m (record { xpub = xpub; plan = plan; store = store })
  ask xpub (sent m rest store) next =
      after_message xpub m (advance ctx.ethers ctx.signing xpub rest store) next
  ask xpub (thrown error store) next = err error
  ask xpub (finished store) next = err no_answer

  -- The intermediary sends a last message to a user.
  unfoldable pub tell : String → Halt V → (User V → Result (Stores V)) → Result (Stores V)
  tell xpub (finished store) next = next (record { xpub = xpub; plan = ended; store = store })
  tell xpub (thrown error store) next = err error
  tell xpub _ next = err no_answer

  abbrev pub run_user : User V → Message V → Halt V
  run_user u m = advance ctx.ethers ctx.signing u.xpub (u.plan m) u.store

  -- The intermediary `self` runs its generator, and each of its messages reaches the user that it is
  -- for.
  unfoldable pub mediate : String → Process V → Store V → User V → User V → Result (Stores V)
  unfolding ask tell
  mediate self (op_sign c index next) store a b =
      mediate self
        (next
          (ctx.signing.sign_digest self (or_else index 0) (hash_to_sign ctx.ethers ctx.signing c)))
        store a b
  mediate self (io_send_and_wait m next) store a b = elim (m.to_xpub == a.xpub) [
    | true ↦ ask a.xpub (run_user a m) λ reply a'. mediate self (next reply) store a' b
    | false ↦ ask b.xpub (run_user b m) λ reply b'. mediate self (next reply) store a b'
  ]
  mediate self (io_send m next) store a b = elim (m.to_xpub == a.xpub) [
    | true ↦ tell a.xpub (run_user a m) λ a'. mediate self next store a' b
    | false ↦ tell b.xpub (run_user b m) λ b'. mediate self next store a b'
  ]
  mediate self (set_commitment args c next) store a b =
      mediate self next (Store.set_commitment ctx.ethers args c store) a b
  mediate self (store_withdrawal_commitment address c next) store a b =
      mediate self next (Store.store_withdrawal_commitment address c store) a b
  mediate self (save_state_channel sc next) store a b =
      mediate self next (Store.save_state_channel ctx.ethers sc store) a b
  mediate self (throw error) store a b = err error
  mediate self done store a b = ok (a.store, store, b.store)

  -- The first user's request starts the intermediary.
  unfoldable pub request : String → String → Halt V → Store V → User V → Result (Stores V)
  unfolding mediate run_protocol_with_message
  request first self (waiting m plan store) middle b =
      mediate self (run_protocol_with_message ctx middle m) middle
        (record { xpub = first; plan = plan; store = store }) b
  request first self (finished store) middle b = ok (store, middle, b.store)
  request first self (thrown error store) middle b = err error
  request first self (sent m rest store) middle b = err no_answer

  -- A user runs a generator with an intermediary and another user.
  unfoldable pub mediated_session :
      String → String → String → Process V → Store V → Store V → Store V → Result (Stores V)
  unfolding request
  mediated_session first self second process a middle b =
      request first self (advance ctx.ethers ctx.signing first process a) middle
        (record { xpub = second; plan = run_protocol_with_message ctx b; store = b })
