-- ===== src/Engine/VirtualApp/Payouts.antt =====
-- What the users of a virtual app get when it is uninstalled (packages/node/src/engine/
-- uninstall-virtual-app.ts), as the app was made by engine/install-virtual-app.ts.
use counterfactual.StateChannel.Agreements.{remove_agreement-nothing}
use mathlib.Core.Path.{subst}
use counterfactual.AppInstance.{identity_hash}
use counterfactual.Prelude.{
  ap, sym, ℕ, Bool, false, List, [], ◌∷◌, ◌==◌, if◌then◌else◌, String, ◌≡◌, ◌≢◌, refl, arith, inl,
  inr, Option, Option-cases, none, some,
}
use counterfactual.Prelude.Int.{◌+ℤ◌}
use counterfactual.Errors.{Result, ok, ok-injective}
use counterfactual.External.{Ethers}
use counterfactual.Dict.{lookup, insert}
use counterfactual.FreeBalanceApp.{
  CoinTransferMap, TokenIndexedCoinTransferMap, amount_at, zero_amount,
}
use counterfactual.FreeBalance.Loop.{amount_for}
use counterfactual.AppInstance.{
  AppInstance, TwoPartyParams, two_party_fixed_outcome, two_party_params,
}
use counterfactual.Outcome.{OutcomeDecoder, compute_token_indexed_free_balance_increments}
use counterfactual.Outcome.Laws.{handle_two_party_fixed_outcome-strangers}
use counterfactual.Xkeys.{xkey_kth_address}
use counterfactual.Protocols.{InstallVirtualAppParams}
use counterfactual.Engine.VirtualApp.{
  construct_virtual_app_instance, virtual_interpreter_parameters,
}
use counterfactual.Engine.VirtualApp.Settling.{
  shares, Settlement, SettledUser, settle_user, has_expired, increments_of, settle_pass_through,
  get_state_channel_from_map_with_owners,
}
use counterfactual.Engine.Uninstall.{Outcomes}
use counterfactual.External.{EthersLaws, AbiCoder}
use counterfactual.Errors.{
  >>=-known, or_throw, contract_error, >>=-eq-ok, guard->>-eq-ok, unexpected_outcome,
}
use counterfactual.FreeBalance.{FreeBalance, FreeBalanceStateJson}
use counterfactual.FreeBalance.Conversion.{balance_at}
use counterfactual.FreeBalance.WellFormed.{IsToken}
use counterfactual.StateChannel.{
  StateChannel, Agreement, get_app_instance, get_agreement_from_virtual_app,
}
use counterfactual.StateChannel.Apps.{remove_agreement, remove_app_instance}
use counterfactual.StateChannel.Holding.{Holds}
use counterfactual.Store.{Store}
use counterfactual.Commitments.{NetworkContext}
use counterfactual.Protocols.{UninstallVirtualAppParams}

module _ {V : Type 0} (e : Ethers) (p : InstallVirtualAppParams V) where
  -- The players of a virtual app: the users' keys under the number of the app.
  abbrev pub players : TwoPartyParams
  players = record {
    player_addrs = (
      xkey_kth_address e p.initiator_xpub p.app_seq_no,
      xkey_kth_address e p.responder_xpub p.app_seq_no,
    );
    amount = e.to_hex_string (p.initiator_balance_decrement +ℤ p.responder_balance_decrement);
    token_address = p.token_address;
  }

  construct_virtual_app_instance-players :
      {app : AppInstance V}
      → p.outcome_type ≡ two_party_fixed_outcome
      → construct_virtual_app_instance e p ≡ ok app
      → (app.two_party_internal ≡ some players) × (app.outcome_type ≡ two_party_fixed_outcome)
  unfolding construct_virtual_app_instance virtual_interpreter_parameters
  construct_virtual_app_instance-players fixed made =
      let made' = rw fixed at made in (cc made', cc made')

  -- Amounts that are both missing make a share of nothing.
  shares-nothing :
      (increments : TokenIndexedCoinTransferMap) (token k k' f f' who : String)
      {m : CoinTransferMap}
      → amount_for increments token f ≡ zero_amount
      → amount_for increments token f' ≡ zero_amount
      → shares increments token (k, f) (k', f') ≡ ok m
      → amount_at m who ≡ zero_amount
  unfolding shares lookup insert
  shares-nothing increments token k k' f f' who nothing nothing' h =
      elim (Option-cases (lookup token increments)) [
        | inl missing ↦ cc (rw missing at h)
        | inr (of_token, there) ↦
            rw (← ok-injective (rw there at h), rw there at nothing, rw there at nothing')
              (ground arith)
      ]

  -- What the outcome of such an app gives to those that are not its players is nothing.
  fixed_outcome-nothing :
      (d : OutcomeDecoder) (refund_token : V → Option String) (chain : ℕ → Option String)
      (override : String) (now : AppInstance V) {app : AppInstance V}
      {increments : TokenIndexedCoinTransferMap} {given : CoinTransferMap}
      (intermediary user other who : String)
      → p.outcome_type ≡ two_party_fixed_outcome
      → construct_virtual_app_instance e p ≡ ok app
      → now.outcome_type ≡ app.outcome_type
      → now.two_party_internal ≡ app.two_party_internal
      → refund_token now.latest_state ≡ none
      → user ≢ players.player_addrs.0
      → user ≢ players.player_addrs.1
      → other ≢ players.player_addrs.0
      → other ≢ players.player_addrs.1
      → compute_token_indexed_free_balance_increments e d refund_token now chain override
        ≡ ok increments
      → shares increments p.token_address (intermediary, other) (user, user) ≡ ok given
      → amount_at given who ≡ zero_amount
  unfolding compute_token_indexed_free_balance_increments two_party_params
  fixed_outcome-nothing d refund_token chain override now {app} {increments} {given} intermediary
        user other who fixed made kind kept plain u0 u1 o0 o1 computed shared =
      let (made_players, made_kind) = construct_virtual_app_instance-players fixed made in
      let now_kind : now.outcome_type ≡ two_party_fixed_outcome = cc (kind, made_kind) in
      let now_players : now.two_party_internal ≡ some players = cc (kept, made_players) in
      let params : two_party_params now ≡ ok (some players) =
        rw (now_kind, two_party_params, now_players) refl in
      let (outcome, _, paid) =
        >>=-eq-ok (if override == "" then or_throw (chain 0) contract_error else ok override) _ (
          rw (plain, compute_token_indexed_free_balance_increments, now_kind, params) at
            computed) in
      let nothing =
        λ (x : String) (ne : x ≢ players.player_addrs.0) (ne' : x ≢ players.player_addrs.1).
          handle_two_party_fixed_outcome-strangers e d outcome players x ne ne' paid in
      shares-nothing increments p.token_address intermediary user other user who
        (nothing other o0 o1) (nothing user u0 u1) shared

module _ {V : Type 0} (e : Ethers) (laws : EthersLaws e) (abi : AbiCoder V)
    (fb_abi : AbiCoder FreeBalanceStateJson) (outcomes : Outcomes V) (network : NetworkContext)
    (parts : Settlement V) (store : Store V) where
  -- The stored channel of these users.
  abbrev pub stored : List String → Result (StateChannel V)
  stored users =
      get_state_channel_from_map_with_owners e abi fb_abi outcomes network parts store users

  -- A user uninstalls a virtual app with a fixed outcome before it has expired, and computes
  -- the next channels without an error. The token is a checksummed address, and the user's
  -- channel with the intermediary holds a free balance. The app was made for `p`, may have
  -- moved on but keeps its kind and its parameters, and its state is not that of a refund app.
  -- If the 0th addresses of the two users are none of their addresses under the number of the
  -- app, then whatever the outcome is, what the user computes leaves every balance of its
  -- channel with the intermediary as it is: no stake comes back there.
  pub settle_user-unpaid :
      (p : InstallVirtualAppParams V) (q : UninstallVirtualAppParams) (user other : String)
      (expects : AppInstance V → Bool) {t : SettledUser V} {wide mediated direct : StateChannel V}
      {agreement : Agreement} {pass now app : AppInstance V} {fb : FreeBalance}
      → stored (q.initiator_xpub ∷ q.responder_xpub ∷ q.intermediary_xpub ∷ []) ≡ ok wide
      → stored (user ∷ q.intermediary_xpub ∷ []) ≡ ok mediated
      → stored (q.initiator_xpub ∷ q.responder_xpub ∷ []) ≡ ok direct
      → get_agreement_from_virtual_app mediated q.target_app_identity_hash ≡ ok agreement
      → get_app_instance wide agreement.time_locked_pass_through_identity_hash ≡ ok pass
      → get_app_instance direct (parts.target_app pass.latest_state) ≡ ok now
      → has_expired e abi fb_abi outcomes network parts pass ≡ ok false
      → agreement.token_address ≡ p.token_address
      → IsToken e p.token_address
      → Holds e mediated fb
      → p.outcome_type ≡ two_party_fixed_outcome
      → construct_virtual_app_instance e p ≡ ok app
      → now.outcome_type ≡ app.outcome_type
      → now.two_party_internal ≡ app.two_party_internal
      → outcomes.refund_token now.latest_state ≡ none
      → xkey_kth_address e user 0 ≢ xkey_kth_address e p.initiator_xpub p.app_seq_no
      → xkey_kth_address e user 0 ≢ xkey_kth_address e p.responder_xpub p.app_seq_no
      → xkey_kth_address e other 0 ≢ xkey_kth_address e p.initiator_xpub p.app_seq_no
      → xkey_kth_address e other 0 ≢ xkey_kth_address e p.responder_xpub p.app_seq_no
      → settle_user e abi fb_abi outcomes network parts store q user other expects ≡ ok t
      → (fb' : FreeBalance) × Holds e t.mediated fb'
        × ((token who : String) → balance_at fb' token who ≡ balance_at fb token who)
  unfolding settle_user increments_of
  settle_user-unpaid p q user other expects {t} {wide} {mediated} {direct} {agreement} {pass} {now}
        {app} {fb} at_wide at_mediated at_direct agreed passing found fresh token checksummed holds
        fixed made kind kept plain u0 u1 o0 o1 settled =
      let s1 = >>=-known _ _ at_wide settled in
      let s2 = >>=-known _ _ at_mediated s1 in
      let s3 = >>=-known _ _ at_direct s2 in
      let s4 = >>=-known _ _ agreed s3 in
      let s5 = >>=-known _ _ passing s4 in
      let s6 = >>=-known _ _ found s5 in
      let (_, s7) = guard->>-eq-ok (expects now) unexpected_outcome _ s6 in
      let h1 = >>=-known _ _ fresh s7 in
      let (increments, computed, h2) =
        >>=-eq-ok (increments_of e abi fb_abi outcomes network parts now "") _ h1 in
      let (wide', _, h3) = >>=-eq-ok (remove_app_instance (identity_hash e pass) wide) _ h2 in
      let (given, shared, h4) =
        >>=-eq-ok
          (shares increments agreement.token_address
            (xkey_kth_address e q.intermediary_xpub 0, xkey_kth_address e other 0)
            (xkey_kth_address e user 0, xkey_kth_address e user 0))
          _ h3 in
      let (mediated', removed, h5) =
        >>=-eq-ok
          (remove_agreement e fb_abi (identity_hash e now) given agreement.token_address mediated) _
          h4 in
      let (direct', _, h6) = >>=-eq-ok (remove_app_instance (identity_hash e now) direct) _ h5 in
      let (settled_pass, _, h7) =
        >>=-eq-ok (settle_pass_through e abi fb_abi outcomes network parts pass q.target_outcome) _
          h6 in
      let nothing = λ (who : String).
        fixed_outcome-nothing e p outcomes.decoder outcomes.refund_token (outcomes.chain now) "" now
          (xkey_kth_address e q.intermediary_xpub 0) (xkey_kth_address e user 0)
          (xkey_kth_address e other 0) who fixed made kind kept plain u0 u1 o0 o1 computed
          (subst
            (λ k.
              shares increments k
                (xkey_kth_address e q.intermediary_xpub 0, xkey_kth_address e other 0)
                (xkey_kth_address e user 0, xkey_kth_address e user 0)
              ≡ ok given)
            token shared) in
      let (fb', held, same) =
        remove_agreement-nothing e laws fb_abi mediated fb holds (identity_hash e now)
          agreement.token_address given (subst (IsToken e) (sym token) checksummed) nothing
          removed in
      let result : mediated' ≡ t.mediated =
        ap (λ computed_by. computed_by.mediated) (ok-injective h7) in
      (fb', subst (λ sc. Holds e sc fb') result held, same)
