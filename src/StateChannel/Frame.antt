-- ===== src/StateChannel/Frame.antt =====
-- Installing an app leaves the other apps of the channel as they are.
use counterfactual.Prelude.{
  ◌<◌, String, ◌==◌, ◌≡◌, ◌∙◌, refl, some, List, [], ◌∷◌, foldl, arith, All, Bool-cases, inl, inr,
}
use counterfactual.Errors.{
  ok, invalid_extended_keys, incorrect_participants, guard->>-eq-ok, >>=-eq-ok,
}
use counterfactual.External.{Ethers, AbiCoder}
use counterfactual.Dict.{Dict, insert, values}
use counterfactual.FreeBalance
use counterfactual.FreeBalance.{FreeBalanceApp, FreeBalanceStateJson, to_app_instance, increment}
use counterfactual.FreeBalanceApp.{TokenIndexedCoinTransferMap, flip_token_indexed_balances}
use counterfactual.AppInstance.{AppInstance, identity_hash}
use counterfactual.StateChannel.{
  StateChannel, no_args, build, construct, all_start_with_xpub, free_balance,
  get_free_balance_class, get_signing_keys_for, later_app, most_recently_installed_app_instance,
}
use counterfactual.StateChannel.Apps.{install_app, every_at}
use counterfactual.StateChannel.Funds.{
  increment_free_balance, add_active_app, add_active_app_and_increment_free_balance,
}

module _ {V : Type 0} where
  build-apps :
      (sc : StateChannel V) (app : FreeBalanceApp) {sc' : StateChannel V}
      → build (record no_args { free_balance_app_instance = some app }) sc ≡ ok sc'
      → sc'.app_instances ≡ sc.app_instances
  unfolding build construct
  build-apps sc app h =
      let (_, same) =
        guard->>-eq-ok (all_start_with_xpub sc.user_neutered_extended_keys) invalid_extended_keys _
          h in
      cc same

  module _ (e : Ethers) (abi : AbiCoder FreeBalanceStateJson) where
    increment_free_balance-apps :
        (sc : StateChannel V) (increments : TokenIndexedCoinTransferMap) {sc' : StateChannel V}
        → increment_free_balance e abi sc increments ≡ ok sc'
        → sc'.app_instances ≡ sc.app_instances
    unfolding increment_free_balance
    increment_free_balance-apps sc increments h =
        let (fb, _, h1) = >>=-eq-ok (get_free_balance_class e sc) _ h in
        let (fb', _, h2) = >>=-eq-ok (increment increments fb) _ h1 in
        let (old, _, h3) = >>=-eq-ok (free_balance sc) _ h2 in
        let (app, _, h4) = >>=-eq-ok (to_app_instance e abi fb' old) _ h3 in build-apps sc app h4

    add_active_app-apps :
        (sc : StateChannel V) (hash : String) {sc' : StateChannel V}
        → add_active_app e abi sc hash ≡ ok sc'
        → sc'.app_instances ≡ sc.app_instances
    unfolding add_active_app
    add_active_app-apps sc hash h =
        let (fb, _, h1) = >>=-eq-ok (get_free_balance_class e sc) _ h in
        let (old, _, h2) = >>=-eq-ok (free_balance sc) _ h1 in
        let (app, _, h3) =
          >>=-eq-ok (to_app_instance e abi (FreeBalance.add_active_app hash fb) old) _ h2 in
        build-apps sc app h3

    -- An installation puts the app under its hash.
    pub install_app-apps :
        (app : AppInstance V) (decrements : TokenIndexedCoinTransferMap) (sc : StateChannel V)
        {sc' : StateChannel V}
        → install_app e abi app decrements sc ≡ ok sc'
        → sc'.app_instances ≡ insert (identity_hash e app) app sc.app_instances
    unfolding install_app build construct add_active_app_and_increment_free_balance
    install_app-apps app decrements sc h =
        let (_, h1) =
          guard->>-eq-ok (every_at (get_signing_keys_for e sc app.app_seq_no) app.participants)
            incorrect_participants _ h in
        let (with_app, made, h2) =
          >>=-eq-ok
            (build
              (record no_args {
                app_instances = some (insert (identity_hash e app) app sc.app_instances);
              })
              sc)
            _ h1 in
        let (_, same) =
          guard->>-eq-ok (all_start_with_xpub sc.user_neutered_extended_keys) invalid_extended_keys
            _ made in
        let there : with_app.app_instances ≡ insert (identity_hash e app) app sc.app_instances =
          cc same in
        let (moved, first, h3) =
          >>=-eq-ok (increment_free_balance e abi with_app (flip_token_indexed_balances decrements))
            _ h2 in
        add_active_app-apps moved (identity_hash e app) h3
        ∙ increment_free_balance-apps with_app (flip_token_indexed_balances decrements) first
        ∙ there

  module _ (app : AppInstance V) where
    -- The app has a smaller number.
    abbrev pub IsEarlier : AppInstance V → Type 0
    IsEarlier other = other.app_seq_no < app.app_seq_no

    later_app-stays :
        (apps : List (AppInstance V)) → All IsEarlier apps → foldl later_app app apps ≡ app
    unfolding later_app
    later_app-stays [] h = refl
    later_app-stays (other ∷ apps) h = ground (arith, later_app-stays apps h.1)

    later_app-inserted :
        (acc : AppInstance V) (k : String) (d : Dict (AppInstance V))
        → IsEarlier acc
        → All IsEarlier (values d)
        → foldl later_app acc (values (insert k app d)) ≡ app
    unfolding later_app insert
    later_app-inserted acc k [] low h = ground arith
    later_app-inserted acc k ((j, other) ∷ d) low h = elim (Bool-cases (j == k)) [
      | inl same ↦ rw same (ground (arith, later_app-stays (values d) h.1))
      | inr ne ↦ rw ne (later_app-inserted (later_app acc other) k d (ground arith) h.1)
    ]

    -- An app with a greater number than all others is the most recently installed one.
    pub insert-most_recent :
        (k : String) (d : Dict (AppInstance V)) (sc : StateChannel V)
        → All IsEarlier (values d)
        → sc.app_instances ≡ insert k app d
        → most_recently_installed_app_instance sc ≡ ok app
    unfolding most_recently_installed_app_instance insert
    insert-most_recent k [] sc h same = rw same refl
    insert-most_recent k ((j, other) ∷ d) sc h same = elim (Bool-cases (j == k)) [
      | inl hit ↦ rw (same, hit, later_app-stays (values d) h.1) refl
      | inr miss ↦ rw (same, miss, later_app-inserted other k d h.0 h.1) refl
    ]
