-- ===== src/StateChannel/Holding.antt =====
-- The free balance that a channel holds, through the JSON in which its app keeps it.
use counterfactual.Prelude.{String, ◌≡◌, refl, true, some, none, arith}
use counterfactual.Errors.{ok, ◌>>=◌, >>=-eq-ok}
use counterfactual.External.{Ethers, EthersLaws, AbiCoder}
use counterfactual.FreeBalanceApp.{TokenIndexedCoinTransferMap}
use counterfactual.AppInstance
use counterfactual.AppInstance.Laws.{updated, set_state-ok, set_state-inv}
use counterfactual.FreeBalance
use counterfactual.FreeBalance.{
  FreeBalance, FreeBalanceApp, FreeBalanceStateJson, serialize, from_app_instance, to_app_instance,
  increment,
}
use counterfactual.FreeBalance.WellFormed.{IsWellFormed, IsWellFormed-deserialize}
use counterfactual.StateChannel.{
  StateChannel, all_start_with_xpub, free_balance, get_free_balance_class, build,
}
use counterfactual.StateChannel.Funds.{
  set_free_balance, increment_free_balance, add_active_app, remove_active_app,
}

-- The app after one more state.
abbrev pub next_app : Ethers → FreeBalanceApp → FreeBalance → FreeBalanceApp
next_app e app fb = updated app (serialize e fb) app.default_timeout

module _ {V : Type 0} where
  -- The constructor accepts the channel's keys.
  abbrev pub HasXpubs : StateChannel V → Type 0
  HasXpubs sc = all_start_with_xpub sc.user_neutered_extended_keys ≡ true

  -- The channel's free balance app keeps `fb`.
  pub record Holds (e : Ethers) (sc : StateChannel V) (fb : FreeBalance) : Type 0 where
    pub app : FreeBalanceApp
    pub here : sc.free_balance_app_instance ≡ some app
    pub state : app.latest_state ≡ serialize e fb
    pub formed : IsWellFormed e fb
    pub xpubs : HasXpubs sc

  abbrev pub with_app : StateChannel V → FreeBalanceApp → StateChannel V
  with_app sc app = record sc { free_balance_app_instance = some app }

module _ {V : Type 0} (e : Ethers) (laws : EthersLaws e) (abi : AbiCoder FreeBalanceStateJson)
    (sc : StateChannel V) (fb : FreeBalance) (h : Holds e sc fb) where
  free_balance-Holds : free_balance sc ≡ ok h.app
  unfolding free_balance
  free_balance-Holds = ground (arith, h.here)

  pub get_free_balance_class-Holds : get_free_balance_class e sc ≡ ok fb
  unfolding get_free_balance_class from_app_instance
  get_free_balance_class-Holds =
      ground (arith, h.here, h.state, IsWellFormed-deserialize e laws h.formed)

  pub set_free_balance-inv :
      (fb' : FreeBalance) {sc' : StateChannel V}
      → set_free_balance e abi sc fb' ≡ ok sc'
      → sc' ≡ with_app sc (next_app e h.app fb')
  unfolding set_free_balance to_app_instance build
  set_free_balance-inv fb' {sc'} p =
      let step = rw free_balance-Holds at p in
      let (app, q, r) =
        >>=-eq-ok (AppInstance.set_state e abi h.app (serialize e fb') none) _ step in
      ground (arith, set_state-inv e abi h.app (serialize e fb') q, h.xpubs)

  pub set_free_balance-ok :
      (fb' : FreeBalance) {bytes : String}
      → abi.encode h.app.app_interface.state_encoding (serialize e fb') ≡ some bytes
      → set_free_balance e abi sc fb' ≡ ok (with_app sc (next_app e h.app fb'))
  unfolding set_free_balance to_app_instance build
  set_free_balance-ok fb' p =
      rw free_balance-Holds
        (rw (set_state-ok e abi h.app (serialize e fb') p) (ground (arith, h.xpubs)))

  abbrev pub Holds-with_app :
      (fb' : FreeBalance) → IsWellFormed e fb' → Holds e (with_app sc (next_app e h.app fb')) fb'
  Holds-with_app fb' formed = record {
    app = next_app e h.app fb';
    here = refl;
    state = refl;
    formed = formed;
    xpubs = h.xpubs;
  }

  pub increment_free_balance-Holds :
      (increments : TokenIndexedCoinTransferMap)
      → increment_free_balance e abi sc increments
        ≡ (increment increments fb >>= λ fb'. set_free_balance e abi sc fb')
  unfolding increment_free_balance set_free_balance
  increment_free_balance-Holds increments = rw get_free_balance_class-Holds

  pub add_active_app-Holds :
      (hash : String)
      → add_active_app e abi sc hash
        ≡ set_free_balance e abi sc (FreeBalance.add_active_app hash fb)
  unfolding add_active_app set_free_balance
  add_active_app-Holds hash = rw get_free_balance_class-Holds

  pub remove_active_app-Holds :
      (hash : String)
      → remove_active_app e abi sc hash
        ≡ set_free_balance e abi sc (FreeBalance.remove_active_app hash fb)
  unfolding remove_active_app set_free_balance
  remove_active_app-Holds hash = rw get_free_balance_class-Holds
