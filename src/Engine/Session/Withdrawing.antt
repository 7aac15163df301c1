-- ===== src/Engine/Session/Withdrawing.antt =====
-- Two honest parties that agree on a channel withdraw from it: both end with the same channel, the
-- signed withdrawal, and the transactions that have guarded it on the way.
use counterfactual.Prelude.{String, [], ◌∷◌}
use counterfactual.AppInstance.{AppInstance, identity_hash}
use counterfactual.StateChannel.{StateChannel}
use counterfactual.Store.{Store, set_commitment, store_withdrawal_commitment}
use counterfactual.Commitments.{SigningLaws, Commitment}
use counterfactual.Protocols.{WithdrawParams}
use counterfactual.Engine.Withdraw.{Refund, construct_withdrawal_commitment}
use counterfactual.Engine.Dispatch.{Context}
use counterfactual.Engine.Session.Agreement.{both_signed}

module _ {V : Type 0} (ctx : Context V) (laws : SigningLaws ctx.ethers ctx.signing) where
  -- The transactions on the refund app and on the free balance that pays it.
  abbrev pub filed_refund : Refund V → Commitment → String → String → String → Store V → Store V
  filed_refund r update hash self other store =
      set_commitment ctx.ethers ("update" ∷ hash ∷ [])
        (both_signed ctx.ethers ctx.signing update self other)
        (set_commitment ctx.ethers ("install" ∷ identity_hash ctx.ethers r.app ∷ [])
          (both_signed ctx.ethers ctx.signing r.conditional self other) store)

  abbrev pub filed_withdrawal : Refund V → WithdrawParams → String → String → Store V → Store V
  filed_withdrawal r p self other store =
      store_withdrawal_commitment p.multisig_address
        (both_signed ctx.ethers ctx.signing (construct_withdrawal_commitment ctx.ethers r.channel p)
          self other)
        store
