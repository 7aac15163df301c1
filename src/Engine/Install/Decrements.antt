-- ===== src/Engine/Install/Decrements.antt =====
-- What the install protocol takes from the two parties.
use counterfactual.Prelude.{
  String, ◌==◌, ◌≡◌, ◌≢◌, refl, false, some, arith, eq_iff, eq_refl, ◌∙◌, ap, String-cases, inl,
  inr, sym,
}
use counterfactual.Prelude.Int.{ℤ, ◌-ℤ◌}
use counterfactual.Errors.{ok, >>=-eq-ok}
use counterfactual.External.{Ethers, EthersLaws, AbiCoder}
use counterfactual.Dict.{lookup, insert}
use counterfactual.FreeBalanceApp.{TokenIndexedCoinTransferMap}
use counterfactual.FreeBalance.{FreeBalance, FreeBalanceStateJson}
use counterfactual.FreeBalance.Conversion.{balance_at}
use counterfactual.FreeBalance.Loop.{amount_for}
use counterfactual.FreeBalance.Increment.{IsSolvent}
use counterfactual.StateChannel.{StateChannel, get_free_balance_addr_of}
use counterfactual.AppInstance.{AppInstance}
use counterfactual.StateChannel.Apps.{install_app}
use counterfactual.StateChannel.Holding.{Holds}
use counterfactual.StateChannel.Installing.{AreAmounts, install_app_lem}
use counterfactual.Xkeys.{xkey_kth_address}
use counterfactual.Protocols.{InstallParams}
use counterfactual.Engine.Install.{
  compute_interpreter_parameters, token_indexed_balance_decrement, app_to_be_installed,
  compute_state_channel_transition,
}

differ : (a b : String) → a ≢ b → (a == b) ≡ false
differ a b ne = elim (String-cases a b) [ inl same ↦ absurd (ne same) | inr (_, test) ↦ test ]

module _ (initiator_token responder_token initiator responder : String) (m n : ℤ) where
  -- Each of two different parties is charged its own decrement, whether the tokens are the same or not.
  charged :
      initiator ≢ responder
      → (amount_for
            (token_indexed_balance_decrement initiator_token responder_token initiator responder m
              n)
            initiator_token
            initiator
          ≡ m)
        × (amount_for
              (token_indexed_balance_decrement initiator_token responder_token initiator responder m
                n)
              responder_token
              responder
            ≡ n)
  unfolding token_indexed_balance_decrement lookup insert
  charged ne = (
    ground (
      arith,
      eq_iff initiator responder,
      eq_iff initiator_token responder_token,
      eq_refl initiator_token,
      eq_refl initiator,
    ),
    ground (
      arith,
      eq_iff initiator responder,
      eq_iff initiator_token responder_token,
      eq_refl initiator_token,
      eq_refl responder,
      eq_refl responder_token,
    ),
  )

  token_indexed_balance_decrement-AreAmounts :
      (e : Ethers)
      → e.get_address initiator_token ≡ some initiator_token
      → e.get_address responder_token ≡ some responder_token
      → initiator ≢ responder
      → AreAmounts e
          (token_indexed_balance_decrement initiator_token responder_token initiator responder m n)
  unfolding token_indexed_balance_decrement lookup insert
  token_indexed_balance_decrement-AreAmounts e t u ne =
      let apart = differ initiator responder ne in
      let back = differ responder initiator (λ same. ne (sym same)) in
      elim (String-cases responder_token initiator_token) [
        | inl same ↦
            rw (same, eq_refl initiator_token, apart)
              (record {
                distinct = (refl, tt);
                inner = ((rw back refl, (refl, tt)), tt);
                tokens = (t, tt);
              })
        | inr (other, test) ↦
            rw (differ initiator_token responder_token (λ same. other (sym same))) (record {
              distinct = (rw test refl, (refl, tt));
              inner = ((refl, tt), ((refl, tt), tt));
              tokens = (t, (u, tt));
            })
      ]

module _ {V : Type 0} (e : Ethers) (laws : EthersLaws e) (fb_abi : AbiCoder FreeBalanceStateJson)
    (max_uint256 : String) (sc : StateChannel V) (fb : FreeBalance) (h : Holds e sc fb)
    (p : InstallParams V) where
  get_free_balance_addr_of-xkey_kth_address :
      (xpub : String) {a : String}
      → get_free_balance_addr_of e sc xpub ≡ ok a
      → a ≡ xkey_kth_address e xpub 0
  unfolding get_free_balance_addr_of
  get_free_balance_addr_of-xkey_kth_address xpub found = ground (arith, found)

  abbrev decrements : String → String → TokenIndexedCoinTransferMap
  decrements initiator responder =
      token_indexed_balance_decrement p.initiator_deposit_token_address
        p.responder_deposit_token_address initiator responder p.initiator_balance_decrement
        p.responder_balance_decrement

  install_app-charges :
      (initiator responder : String) (app : AppInstance V) {sc' : StateChannel V}
      → e.get_address p.initiator_deposit_token_address ≡ some p.initiator_deposit_token_address
      → e.get_address p.responder_deposit_token_address ≡ some p.responder_deposit_token_address
      → initiator ≢ responder
      → IsSolvent fb
      → install_app e fb_abi app (decrements initiator responder) sc ≡ ok sc'
      → (fb' : FreeBalance) × Holds e sc' fb'
        × IsSolvent fb'
        × (balance_at fb' p.initiator_deposit_token_address initiator
            ≡ balance_at fb p.initiator_deposit_token_address initiator
              -ℤ p.initiator_balance_decrement)
        × (balance_at fb' p.responder_deposit_token_address responder
            ≡ balance_at fb p.responder_deposit_token_address responder
              -ℤ p.responder_balance_decrement)
  install_app-charges initiator responder app t u ne solvent installed =
      let token_i = p.initiator_deposit_token_address in
      let token_r = p.responder_deposit_token_address in
      let m = p.initiator_balance_decrement in
      let n = p.responder_balance_decrement in
      let amounts =
        token_indexed_balance_decrement-AreAmounts token_i token_r initiator responder m n e t u
          ne in
      let (_, fb', _, holds, lowered, solvent', _) =
        install_app_lem e laws fb_abi sc fb h app (decrements initiator responder) amounts solvent
          installed in
      let (first, second) = charged token_i token_r initiator responder m n ne in
      (
        fb',
        holds,
        solvent',
        lowered token_i initiator ∙ ap (λ z. balance_at fb token_i initiator -ℤ z) first,
        lowered token_r responder ∙ ap (λ z. balance_at fb token_r responder -ℤ z) second,
      )

  -- In a channel whose balances are zero or above, and for two parties with different addresses and
  -- checksummed tokens: an installation that returns has taken from each party exactly its own
  -- decrement, in its own token, and no balance is below zero after it.
  pub compute_state_channel_transition-charges :
      {sc' : StateChannel V}
      → e.get_address p.initiator_deposit_token_address ≡ some p.initiator_deposit_token_address
      → e.get_address p.responder_deposit_token_address ≡ some p.responder_deposit_token_address
      → xkey_kth_address e p.initiator_xpub 0 ≢ xkey_kth_address e p.responder_xpub 0
      → IsSolvent fb
      → compute_state_channel_transition e fb_abi max_uint256 sc p ≡ ok sc'
      → (fb' : FreeBalance) × Holds e sc' fb'
        × IsSolvent fb'
        × (balance_at fb' p.initiator_deposit_token_address (xkey_kth_address e p.initiator_xpub 0)
            ≡ balance_at fb p.initiator_deposit_token_address
                (xkey_kth_address e p.initiator_xpub 0)
              -ℤ p.initiator_balance_decrement)
        × (balance_at fb' p.responder_deposit_token_address (xkey_kth_address e p.responder_xpub 0)
            ≡ balance_at fb p.responder_deposit_token_address
                (xkey_kth_address e p.responder_xpub 0)
              -ℤ p.responder_balance_decrement)
  unfolding compute_state_channel_transition
  compute_state_channel_transition-charges {sc'} t u ne solvent computed =
      let (i, found_i, rest_i) =
        >>=-eq-ok (get_free_balance_addr_of e sc p.initiator_xpub) _ computed in
      let (r, found_r, rest_r) =
        >>=-eq-ok (get_free_balance_addr_of e sc p.responder_xpub) _ rest_i in
      let (interpreter, _, ran) =
        >>=-eq-ok
          (compute_interpreter_parameters e max_uint256 p.outcome_type
            p.initiator_deposit_token_address p.responder_deposit_token_address
            p.initiator_balance_decrement p.responder_balance_decrement i r p.disable_limit)
          _ rest_r in
      install_app-charges (xkey_kth_address e p.initiator_xpub 0)
        (xkey_kth_address e p.responder_xpub 0)
        (app_to_be_installed e fb_abi max_uint256 p interpreter) t u ne solvent
        (rw
          (
            get_free_balance_addr_of-xkey_kth_address p.initiator_xpub found_i,
            get_free_balance_addr_of-xkey_kth_address p.responder_xpub found_r,
          )
          at ran)
