-- ===== src/FreeBalance/WellFormed.antt =====
-- Free balances that their JSON form keeps: no key stands twice and tokens are checksummed.
use mathlib.Core.Path.{subst}
use counterfactual.Prelude.{String, ◌≡◌, sym, some, List, [], ◌∷◌, All, arith}
use counterfactual.Errors.{ok, >>=-eq-ok}
use counterfactual.External.{Ethers, EthersLaws}
use counterfactual.Dict.{keys, IsDict}
use counterfactual.Dict.Laws.{insert-IsDict, erase-IsDict}
use counterfactual.Dict.Build.{All-insert}
use counterfactual.FreeBalanceApp.{TokenIndexedCoinTransferMap}
use counterfactual.FreeBalance.{
  FreeBalance, serialize, deserialize, add_active_app, remove_active_app, increment_tokens,
  increment_token, increment,
}
use counterfactual.FreeBalance.Loop.{
  increment_tokens-active, increment_tokens-IsDict, increment_token-inv,
}
use counterfactual.FreeBalance.RoundTrip.{deserialize-serialize}

increment_tokens-All :
    (P : String → Type 0) (increments : TokenIndexedCoinTransferMap) (tokens : List String)
    (fb fb' : FreeBalance)
    → All P tokens
    → All P (keys fb.balances_indexed_by_token)
    → increment_tokens increments tokens fb ≡ ok fb'
    → All P (keys fb'.balances_indexed_by_token)
unfolding increment_tokens
increment_tokens-All P increments [] fb fb' p h e =
    let same : fb ≡ fb' = ground arith in
    subst (λ (f : FreeBalance). All P (keys f.balances_indexed_by_token)) same h
increment_tokens-All P increments (x ∷ xs) fb fb' p h e =
    let (fb₁, s, q) =
      >>=-eq-ok (increment_token increments x fb) (increment_tokens increments xs) e in
    increment_tokens-All P increments xs fb₁ fb' p.1
      (subst (λ (f : FreeBalance). All P (keys f.balances_indexed_by_token))
        (sym (increment_token-inv increments x fb s).1)
        (All-insert P x _ fb.balances_indexed_by_token p.0 h))
      q

module _ (e : Ethers) where
  -- `getAddress` leaves the token as it is.
  abbrev pub IsToken : String → Type 0
  IsToken t = e.get_address t ≡ some t

  pub record IsWellFormed (fb : FreeBalance) : Type 0 where
    pub active : IsDict fb.active_apps_map
    pub distinct : IsDict fb.balances_indexed_by_token
    pub checksummed : All IsToken (keys fb.balances_indexed_by_token)

  pub IsWellFormed-deserialize :
      {fb : FreeBalance} → EthersLaws e → IsWellFormed fb → deserialize e (serialize e fb) ≡ ok fb
  IsWellFormed-deserialize {fb} laws w =
      deserialize-serialize e laws fb w.active w.distinct w.checksummed

  pub add_active_app-IsWellFormed :
      (app : String) {fb : FreeBalance} → IsWellFormed fb → IsWellFormed (add_active_app app fb)
  unfolding add_active_app
  add_active_app-IsWellFormed app {fb} w = record {
    active = insert-IsDict app tt fb.active_apps_map w.active;
    distinct = w.distinct;
    checksummed = w.checksummed;
  }

  pub remove_active_app-IsWellFormed :
      (app : String) {fb : FreeBalance} → IsWellFormed fb → IsWellFormed (remove_active_app app fb)
  unfolding remove_active_app
  remove_active_app-IsWellFormed app {fb} w = record {
    active = erase-IsDict app fb.active_apps_map w.active;
    distinct = w.distinct;
    checksummed = w.checksummed;
  }

  pub increment-IsWellFormed :
      (increments : TokenIndexedCoinTransferMap) {fb fb' : FreeBalance}
      → All IsToken (keys increments)
      → IsWellFormed fb
      → increment increments fb ≡ ok fb'
      → IsWellFormed fb'
  unfolding increment
  increment-IsWellFormed increments {fb} {fb'} tokens w h = record {
    active =
        subst IsDict (sym (increment_tokens-active increments (keys increments) fb fb' h)) w.active;
    distinct = increment_tokens-IsDict increments (keys increments) fb fb' w.distinct h;
    checksummed =
        increment_tokens-All IsToken increments (keys increments) fb fb' tokens w.checksummed h;
  }
