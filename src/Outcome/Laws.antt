-- ===== src/Outcome/Laws.antt =====
-- Outcomes pay out what was put in.
use counterfactual.Prelude.{
  ℕ, zero, suc, ◌<◌, String, ◌≡◌, ◌≢◌, refl, true, false, Option, none, some, sym, ◌∙◌, [], ◌∷◌,
  arith, eq_iff, eq_refl,
}
use counterfactual.Prelude.Int.{ℤ, ◌+ℤ◌, ltb_ℤ, +ℤ-zero, zero-+ℤ, +ℤ-split}
use counterfactual.Errors.{ok, err, no_nonzero_deposit, contract_error, or_throw, ◌>>=◌}
use counterfactual.External.{Ethers}
use counterfactual.Dict.{lookup, insert}
use counterfactual.FreeBalanceApp.{TokenIndexedCoinTransferMap, zero_amount}
use counterfactual.FreeBalance.{CoinTransfer}
use counterfactual.FreeBalance.Loop.{amount_for}
use counterfactual.AppInstance.{TwoPartyParams, SingleAssetParams}
use counterfactual.Outcome.{
  OutcomeDecoder, half, under_token, handle_two_party_fixed_outcome,
  handle_single_asset_two_party_coin_transfer, refund_loop,
}

-- Whatever the outcome, if the call returns, two different players together are paid exactly the amount of the app.
pub handle_two_party_fixed_outcome-total :
    (e : Ethers) (d : OutcomeDecoder) (encoded : String) (params : TwoPartyParams) {amount : ℤ}
    {m : TokenIndexedCoinTransferMap}
    → params.player_addrs.0 ≢ params.player_addrs.1
    → e.big_numberify params.amount ≡ some amount
    → handle_two_party_fixed_outcome e d encoded params ≡ ok m
    → amount_for m params.token_address params.player_addrs.0
        +ℤ amount_for m params.token_address params.player_addrs.1
      ≡ amount
unfolding handle_two_party_fixed_outcome lookup insert
handle_two_party_fixed_outcome-total e d encoded params {amount} ne known h =
    let (a, b) = params.player_addrs in
    ground (
      arith,
      eq_refl params.token_address,
      eq_refl a,
      eq_refl b,
      eq_iff a b,
      eq_iff b a,
      +ℤ-split amount (half amount),
      +ℤ-zero amount,
      zero-+ℤ amount,
    )

-- Each of two different recipients of a single asset outcome is paid its amount.
pub handle_single_asset_pays :
    (d : OutcomeDecoder) (encoded : String) (params : SingleAssetParams) {t1 t2 : CoinTransfer}
    → d.two_transfers encoded ≡ some (t1, t2)
    → t1.to ≢ t2.to
    → (m : TokenIndexedCoinTransferMap) × (handle_single_asset_two_party_coin_transfer d encoded
          params
        ≡ ok m)
      × (amount_for m params.token_address t1.to ≡ t1.amount)
      × (amount_for m params.token_address t2.to ≡ t2.amount)
unfolding handle_single_asset_two_party_coin_transfer lookup insert
handle_single_asset_pays d encoded params {t1} {t2} known ne = (
  under_token params.token_address ((t1.to, t1.amount) ∷ (t2.to, t2.amount) ∷ []),
  ground (arith, known, eq_iff t1.to t2.to),
  ground (arith, eq_refl params.token_address, eq_refl t1.to),
  ground (arith, eq_refl params.token_address, eq_refl t2.to, eq_iff t1.to t2.to),
)

-- The outcome that the loop looks at in its round `i`.
abbrev pub observed : String → (ℕ → Option String) → ℕ → Option String
observed outcome next zero = some outcome
observed outcome next (suc i) = next i

observed_shift :
    (outcome answer : String) (next : ℕ → Option String) (j : ℕ)
    → next 0 ≡ some answer
    → observed answer (λ n. next (suc n)) j ≡ observed outcome next (suc j)
observed_shift outcome answer next zero known = sym known
observed_shift outcome answer next (suc j) known = refl

module _ (d : OutcomeDecoder) (token : String) where
  -- The chain answers with an outcome without a deposit.
  abbrev pub IsEmptyAt : Option String → Type 0
  IsEmptyAt seen =
      (outcome : String) × (ts : CoinTransfer × CoinTransfer) × (seen ≡ some outcome)
      × (d.two_transfers outcome ≡ some ts)
      × (ltb_ℤ zero_amount ts.0.amount ≡ false)

  -- After an attempt that finds no deposit and a query that is answered, the loop goes on.
  refund_loop-again :
      (attempts : ℕ) (outcome answer : String) (next : ℕ → Option String)
      → IsEmptyAt (some outcome)
      → next 0 ≡ some answer
      → refund_loop (suc attempts) d token outcome next
        ≡ refund_loop attempts d token answer (λ n. next (suc n))
  unfolding refund_loop
  refund_loop-again attempts outcome answer next (o, ts, same, read, low) known =
      let read' : d.two_transfers outcome ≡ some ts = cc (same, read) in rw (read', low, known) refl

  first_answer :
      (i : ℕ) (outcome o : String) (next : ℕ → Option String)
      → ((j : ℕ) → j < suc i → IsEmptyAt (observed outcome next j))
      → observed outcome next (suc i) ≡ some o
      → (answer : String) × (next 0 ≡ some answer)
  first_answer zero outcome o next empty seen = (o, seen)
  first_answer (suc i) outcome o next empty seen =
      let (answer, _, known, _, _) = empty 1 (omega arith) in (answer, known)

  -- The first outcome with a deposit among those that the attempts reach is the one returned, if the
  -- chain answers until then and the decoder reads the outcomes before it.
  pub refund_loop-first :
      (attempts i : ℕ) (outcome o : String) (next : ℕ → Option String) (t other : CoinTransfer)
      → i < attempts
      → ((j : ℕ) → j < i → IsEmptyAt (observed outcome next j))
      → observed outcome next i ≡ some o
      → d.two_transfers o ≡ some (t, other)
      → ltb_ℤ zero_amount t.amount ≡ true
      → refund_loop attempts d token outcome next ≡ ok (under_token token ((t.to, t.amount) ∷ []))
  unfolding refund_loop
  refund_loop-first zero i outcome o next t other lt empty seen known positive =
      absurd (omega arith)
  refund_loop-first (suc attempts) zero outcome o next t other lt empty seen known positive =
      let known' : d.two_transfers outcome ≡ some (t, other) = cc (seen, known) in
      rw (known', positive) refl
  refund_loop-first (suc attempts) (suc i) outcome o next t other lt empty seen known positive =
      let (answer, there) = first_answer i outcome o next empty seen in
      refund_loop-again attempts outcome answer next (empty 0 (omega arith)) there
      ∙ refund_loop-first attempts i answer o (λ n. next (suc n)) t other (omega arith)
          (λ j below. rw (observed_shift outcome answer next j there) (empty (suc j) (omega arith)))
          (observed_shift outcome answer next i there ∙ seen) known positive

  -- Where no attempt finds a deposit, the last query of the chain decides how the loop throws.
  refund_loop-exhausted :
      (attempts : ℕ) (outcome : String) (next : ℕ → Option String)
      → ((j : ℕ) → j < suc attempts → IsEmptyAt (observed outcome next j))
      → refund_loop (suc attempts) d token outcome next
        ≡ (or_throw (next attempts) contract_error >>= λ _. err no_nonzero_deposit)
  unfolding refund_loop
  refund_loop-exhausted zero outcome next empty =
      let (o, ts, same, read, low) = empty 0 (omega arith) in
      let read' : d.two_transfers outcome ≡ some ts = cc (same, read) in rw (read', low) refl
  refund_loop-exhausted (suc attempts) outcome next empty =
      let (answer, _, there, _, _) = empty 1 (omega arith) in
      refund_loop-again (suc attempts) outcome answer next (empty 0 (omega arith)) there
      ∙ refund_loop-exhausted attempts answer (λ n. next (suc n))
          (λ j below. rw (observed_shift outcome answer next j there) (empty (suc j) (omega arith)))

  -- If the decoder reads every outcome that the attempts reach, none has a deposit, and the query after
  -- the last attempt is answered, the loop throws that it found no deposit.
  pub refund_loop-none :
      (attempts : ℕ) (outcome : String) (next : ℕ → Option String) {last : String}
      → ((j : ℕ) → j < suc attempts → IsEmptyAt (observed outcome next j))
      → next attempts ≡ some last
      → refund_loop (suc attempts) d token outcome next ≡ err no_nonzero_deposit
  refund_loop-none attempts outcome next empty answered =
      refund_loop-exhausted attempts outcome next empty ∙ rw answered refl

  -- The chain is asked once for each attempt, after the last one too: if the decoder reads every
  -- outcome that the attempts reach and none has a deposit, but the query after the last attempt
  -- throws, it is the chain's error that the loop ends with.
  pub refund_loop-unanswered :
      (attempts : ℕ) (outcome : String) (next : ℕ → Option String)
      → ((j : ℕ) → j < suc attempts → IsEmptyAt (observed outcome next j))
      → next attempts ≡ none
      → refund_loop (suc attempts) d token outcome next ≡ err contract_error
  refund_loop-unanswered attempts outcome next empty unanswered =
      refund_loop-exhausted attempts outcome next empty ∙ rw unanswered refl

-- A fixed outcome pays nobody but the two players.
pub handle_two_party_fixed_outcome-strangers :
    (e : Ethers) (d : OutcomeDecoder) (encoded : String) (params : TwoPartyParams) (who : String)
    {m : TokenIndexedCoinTransferMap}
    → who ≢ params.player_addrs.0
    → who ≢ params.player_addrs.1
    → handle_two_party_fixed_outcome e d encoded params ≡ ok m
    → amount_for m params.token_address who ≡ zero_amount
unfolding handle_two_party_fixed_outcome lookup insert
handle_two_party_fixed_outcome-strangers e d encoded params who ne ne' h =
    let (a, b) = params.player_addrs in
    ground (arith, eq_refl params.token_address, eq_iff a who, eq_iff b who, eq_iff a b)
