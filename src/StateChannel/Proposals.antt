-- ===== src/StateChannel/Proposals.antt =====
-- `addProposal` and `mostRecentlyProposedAppInstance` of models/state-channel.ts.
use counterfactual.Prelude.{
  ℕ, ◌+◌, ◌≤◌, String, ◌==◌, ◌≡◌, refl, List, [], ◌∷◌, foldl, arith, All, Bool-cases, inl, inr,
}
use counterfactual.Errors.{ok}
use counterfactual.Dict.{Dict, insert, values}
use counterfactual.StateChannel.{
  StateChannel, AppInstanceProposal, build, num_proposed_apps, later_proposal,
  most_recently_proposed_app_instance,
}
use counterfactual.StateChannel.Apps.{add_proposal}
use counterfactual.StateChannel.Holding.{HasXpubs}

module _ {V : Type 0} where
  abbrev IsBelow : ℕ → AppInstanceProposal V → Type 0
  IsBelow n p = p.app_seq_no ≤ n

  -- The number of proposals is a bound of their sequence numbers.
  abbrev pub IsNumbered : StateChannel V → Type 0
  IsNumbered sc = All (IsBelow sc.monotonic_num_proposed_apps) (values sc.proposed_app_instances)

  module _ (p : AppInstanceProposal V) (n : ℕ) (next : p.app_seq_no ≡ n + 1) where
    latest_stays :
        (ps : List (AppInstanceProposal V)) → All (IsBelow n) ps → foldl later_proposal p ps ≡ p
    unfolding later_proposal
    latest_stays [] h = refl
    latest_stays (q ∷ ps) h = ground (arith, latest_stays ps h.1)

    latest_inserted :
        (acc : AppInstanceProposal V) (k : String) (d : Dict (AppInstanceProposal V))
        → IsBelow n acc
        → All (IsBelow n) (values d)
        → foldl later_proposal acc (values (insert k p d)) ≡ p
    unfolding later_proposal insert
    latest_inserted acc k [] low h = ground arith
    latest_inserted acc k ((j, q) ∷ d) low h = elim (Bool-cases (j == k)) [
      | inl same ↦ rw same (ground (arith, latest_stays (values d) h.1))
      | inr other ↦ rw other (latest_inserted (later_proposal acc q) k d (ground arith) h.1)
    ]

    latest_of_insert :
        (sc : StateChannel V)
        → All (IsBelow n) (values sc.proposed_app_instances)
        → (k : String) → (d : Dict (AppInstanceProposal V)) → All (IsBelow n) (values d)
        → most_recently_proposed_app_instance (record sc { proposed_app_instances = insert k p d })
          ≡ ok p
    unfolding most_recently_proposed_app_instance insert
    latest_of_insert sc _ k [] h = refl
    latest_of_insert sc _ k ((j, q) ∷ d) h = elim (Bool-cases (j == k)) [
      | inl same ↦ rw same (rw (latest_stays (values d) h.1))
      | inr other ↦ rw other (rw (latest_inserted q k d h.0 h.1))
    ]

  All-insert-values :
      (P : AppInstanceProposal V → Type 0) (k : String) (p : AppInstanceProposal V)
      (d : Dict (AppInstanceProposal V))
      → P p
      → All P (values d)
      → All P (values (insert k p d))
  unfolding insert
  All-insert-values P k p [] x h = (x, tt)
  All-insert-values P k p ((j, q) ∷ d) x h = elim (Bool-cases (j == k)) [
    | inl same ↦ rw same (x, h.1)
    | inr other ↦ rw other (h.0, All-insert-values P k p d x h.1)
  ]

  All-weaken :
      (n : ℕ) (ps : List (AppInstanceProposal V)) → All (IsBelow n) ps → All (IsBelow (n + 1)) ps
  All-weaken n [] h = tt
  All-weaken n (p ∷ ps) h = (omega arith, All-weaken n ps h.1)

  -- The channel with one more proposal.
  abbrev pub with_proposal : AppInstanceProposal V → StateChannel V → StateChannel V
  with_proposal p sc = record sc {
    proposed_app_instances = insert p.identity_hash p sc.proposed_app_instances;
    monotonic_num_proposed_apps = sc.monotonic_num_proposed_apps + 1;
  }

  pub add_proposal-with_proposal :
      (sc : StateChannel V) (p : AppInstanceProposal V)
      → HasXpubs sc
      → add_proposal p sc ≡ ok (with_proposal p sc)
  unfolding add_proposal build
  add_proposal-with_proposal sc p xpubs = ground (arith, xpubs)

  pub with_proposal-most_recent :
      (sc : StateChannel V) (p : AppInstanceProposal V)
      → IsNumbered sc
      → p.app_seq_no ≡ num_proposed_apps sc + 1
      → most_recently_proposed_app_instance (with_proposal p sc) ≡ ok p
  with_proposal-most_recent sc p numbered next =
      latest_of_insert p sc.monotonic_num_proposed_apps next
        (record sc { monotonic_num_proposed_apps = sc.monotonic_num_proposed_apps + 1 }) numbered
        p.identity_hash sc.proposed_app_instances numbered

  -- In a channel of extended public keys whose proposals are numbered, a proposal with the next number is accepted, counted,
  -- and is the most recently proposed one, and the channel stays numbered.
  pub add_proposal-most_recent :
      (sc : StateChannel V) (p : AppInstanceProposal V)
      → HasXpubs sc
      → IsNumbered sc
      → p.app_seq_no ≡ num_proposed_apps sc + 1
      → (sc' : StateChannel V) × (add_proposal p sc ≡ ok sc')
        × (most_recently_proposed_app_instance sc' ≡ ok p)
        × (num_proposed_apps sc' ≡ num_proposed_apps sc + 1)
        × IsNumbered sc'
  add_proposal-most_recent sc p xpubs numbered next = (
    with_proposal p sc,
    add_proposal-with_proposal sc p xpubs,
    with_proposal-most_recent sc p numbered next,
    refl,
    All-insert-values _ p.identity_hash p sc.proposed_app_instances (omega arith)
        (All-weaken sc.monotonic_num_proposed_apps (values sc.proposed_app_instances) numbered),
  )
