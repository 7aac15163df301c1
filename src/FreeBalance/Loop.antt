-- ===== src/FreeBalance/Loop.antt =====
-- The loop of `increment`, round by round: balances, success and what it leaves alone.
use mathlib.Core.Path.{subst}
use counterfactual.Prelude.{
  String, ◌==◌, eq_iff, eq_refl, ◌≡◌, refl, ◌∙◌, sym, ap, true, false, some, List, [], ◌∷◌, arith,
  if◌then◌else◌, String-cases, inl, inr,
}
use counterfactual.Prelude.Int.{ℤ, pos, ◌+ℤ◌, ◌≤ℤ◌}
use counterfactual.Errors.{ok, >>=-eq-ok}
use counterfactual.Dict.{Dict, lookup, insert, keys, values, mem, has, IsDict, or_else}
use counterfactual.Dict.Laws.{lookup-insert, insert-IsDict, mem-keys}
use counterfactual.FreeBalanceApp.{CoinTransferMap, TokenIndexedCoinTransferMap, amount_at, merge}
use counterfactual.FreeBalanceApp.Laws.{amount_at-merge, merge-IsDict}
use counterfactual.FreeBalance.{
  FreeBalance, convert_coin_transfers_to_map, convert_map_to_coin_transfers, some_negative,
  increment_token, increment_tokens,
}
use counterfactual.FreeBalance.Conversion.{
  balance_at, convert-convert, some_negative-lookup, some_negative-none,
}

-- The amount by which the increments raise a balance.
abbrev pub amount_for : TokenIndexedCoinTransferMap → String → String → ℤ
amount_for increments token address = amount_at (or_else (lookup token increments) []) address

pub amount_for-absent :
    (increments : TokenIndexedCoinTransferMap) (t a : String)
    → has t increments ≡ false
    → amount_for increments t a ≡ pos 0
unfolding lookup
amount_for-absent increments t a h = ground arith

-- No token stands twice.
abbrev pub Distinct : List String → Type 0
Distinct [] = Unit
Distinct (t ∷ ts) = (mem t ts ≡ false) × Distinct ts

pub keys-Distinct {ℓ} : {V : Type ℓ} (d : Dict V) → IsDict d → Distinct (keys d)
keys-Distinct [] h = tt
keys-Distinct ((k, v) ∷ d) h = (ground (arith, mem-keys k d), keys-Distinct d h.1)

module _ (increments : TokenIndexedCoinTransferMap) (token : String) (fb : FreeBalance) where
  abbrev pub before : CoinTransferMap
  before = convert_coin_transfers_to_map (lookup token fb.balances_indexed_by_token)

  abbrev pub after : CoinTransferMap
  after = merge before (or_else (lookup token increments) [])

  abbrev pub incremented : FreeBalance
  incremented = record fb {
    balances_indexed_by_token =
        insert token (convert_map_to_coin_transfers after) fb.balances_indexed_by_token;
  }

  pub increment_token-inv :
      {fb' : FreeBalance}
      → increment_token increments token fb ≡ ok fb'
      → (some_negative (values after) ≡ false) × (fb' ≡ incremented)
  unfolding increment_token
  increment_token-inv h = ground arith

  balance_at-incremented :
      (t a : String)
      → balance_at incremented t a
        ≡ (if token == t then balance_at fb t a +ℤ amount_for increments t a else balance_at fb t a)
  balance_at-incremented t a = elim (String-cases token t) [
    | inl same ↦
        rw (lookup-insert token t, same, eq_refl t)
          (rw (convert-convert _ (merge-IsDict _ _)) (amount_at-merge a _ _))
    | inr (ne, test) ↦ rw (lookup-insert token t, test) refl
  ]

  -- One round leaves no negative balance of its token.
  incremented_nonneg :
      (a : String)
      → some_negative (values after) ≡ false
      → pos 0 ≤ℤ balance_at fb token a +ℤ amount_for increments token a
  incremented_nonneg a h =
      rw (← amount_at-merge a before (or_else (lookup token increments) []))
        (ground (arith, some_negative-lookup a (amount_at after a) after h))

  increment_token-ok :
      ((a : String) → pos 0 ≤ℤ balance_at fb token a +ℤ amount_for increments token a)
      → increment_token increments token fb ≡ ok incremented
  unfolding increment_token
  increment_token-ok h = rw (some_negative-none after (merge-IsDict _ _) nonneg)
    where
      nonneg : (k : String) (v : ℤ) → lookup k after ≡ some v → pos 0 ≤ℤ v
      nonneg k v e =
          ground (arith, h k, amount_at-merge k before (or_else (lookup token increments) []))

module _ (increments : TokenIndexedCoinTransferMap) where
  pub increment_tokens-balance :
      (tokens : List String) (fb fb' : FreeBalance)
      → Distinct tokens
      → increment_tokens increments tokens fb ≡ ok fb'
      → (t a : String)
      → balance_at fb' t a ≡ (
          if mem t tokens
          then balance_at fb t a +ℤ amount_for increments t a
          else balance_at fb t a)
  unfolding increment_tokens
  increment_tokens-balance [] fb fb' d h t a = ground arith
  increment_tokens-balance (x ∷ xs) fb fb' d h t a =
      let (fb₁, p, q) =
        >>=-eq-ok (increment_token increments x fb) (increment_tokens increments xs) h in
      let step = increment_token-inv increments x fb p in
      ground (
        arith,
        increment_tokens-balance xs fb₁ fb' d.1 q t a,
        ap (λ f. balance_at f t a) step.1,
        balance_at-incremented increments x fb t a,
        eq_iff x t,
      )

  pub increment_tokens-active :
      (tokens : List String) (fb fb' : FreeBalance)
      → increment_tokens increments tokens fb ≡ ok fb'
      → fb'.active_apps_map ≡ fb.active_apps_map
  unfolding increment_tokens
  increment_tokens-active [] fb fb' h = ground arith
  increment_tokens-active (x ∷ xs) fb fb' h =
      let (fb₁, p, q) =
        >>=-eq-ok (increment_token increments x fb) (increment_tokens increments xs) h in
      increment_tokens-active xs fb₁ fb' q
      ∙ ap (λ f. f.active_apps_map) (increment_token-inv increments x fb p).1

  pub increment_tokens-nonneg :
      (tokens : List String) (fb fb' : FreeBalance)
      → Distinct tokens
      → increment_tokens increments tokens fb ≡ ok fb'
      → (t a : String) → mem t tokens ≡ true
      → pos 0 ≤ℤ balance_at fb t a +ℤ amount_for increments t a
  unfolding increment_tokens
  increment_tokens-nonneg [] fb fb' d h t a m = cc
  increment_tokens-nonneg (x ∷ xs) fb fb' d h t a m =
      let (fb₁, p, q) =
        >>=-eq-ok (increment_token increments x fb) (increment_tokens increments xs) h in
      let step = increment_token-inv increments x fb p in
      elim (String-cases x t) [
        | inl same ↦ rw same at (incremented_nonneg increments x fb a step.0)
        | inr (ne, test) ↦
            rw (sym (still fb₁ step.1 test))
              (increment_tokens-nonneg xs fb₁ fb' d.1 q t a (rw test at m))
      ]
    where
      still :
          (f : FreeBalance)
          → f ≡ incremented increments x fb
          → (x == t) ≡ false
          → balance_at f t a ≡ balance_at fb t a
      still f e test =
          ap (λ g. balance_at g t a) e ∙ rw (balance_at-incremented increments x fb t a, test) refl

  pub increment_tokens-ok :
      (tokens : List String) (fb : FreeBalance)
      → Distinct tokens
      → ((t a : String)
          → mem t tokens ≡ true
          → pos 0 ≤ℤ balance_at fb t a +ℤ amount_for increments t a)
      → (fb' : FreeBalance) × (increment_tokens increments tokens fb ≡ ok fb')
  unfolding increment_tokens
  increment_tokens-ok [] fb d h = (fb, refl)
  increment_tokens-ok (x ∷ xs) fb d h =
      rw (increment_token-ok increments x fb (λ a. h x a (rw eq_refl refl)))
        (increment_tokens-ok xs (incremented increments x fb) d.1 rest)
    where
      rest :
          (t a : String)
          → mem t xs ≡ true
          → pos 0 ≤ℤ balance_at (incremented increments x fb) t a +ℤ amount_for increments t a
      rest t a m = elim (String-cases x t) [
        | inl same ↦ absurd (clash same)
        | inr (ne, test) ↦ rw (balance_at-incremented increments x fb t a, test) (h t a (rw test m))
      ]
        where
          clash : x ≡ t → ⊥
          clash same = cc (ap (λ s. mem s xs) same, d.0)

  pub increment_tokens-IsDict :
      (tokens : List String) (fb fb' : FreeBalance)
      → IsDict fb.balances_indexed_by_token
      → increment_tokens increments tokens fb ≡ ok fb'
      → IsDict fb'.balances_indexed_by_token
  unfolding increment_tokens
  increment_tokens-IsDict [] fb fb' d h =
      let same : fb ≡ fb' = ground arith in
      subst (λ (f : FreeBalance). IsDict f.balances_indexed_by_token) same d
  increment_tokens-IsDict (x ∷ xs) fb fb' d h =
      let (fb₁, p, q) =
        >>=-eq-ok (increment_token increments x fb) (increment_tokens increments xs) h in
      increment_tokens-IsDict xs fb₁ fb'
        (subst (λ (f : FreeBalance). IsDict f.balances_indexed_by_token)
          (sym (increment_token-inv increments x fb p).1)
          (insert-IsDict x _ fb.balances_indexed_by_token d))
        q
