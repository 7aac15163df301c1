-- ===== src/FreeBalance/RoundTrip.antt =====
-- The state of the free balance app, written and read back.
use mathlib.Core.List.{append_assoc}
use counterfactual.Prelude.{
  suc, ◌≡◌, refl, ◌∙◌, ap, some, List, [], ◌∷◌, ◌++◌, map, foldl, length, get_elem?, All,
}
use counterfactual.Errors.{ok}
use counterfactual.External.{Ethers, EthersLaws}
use counterfactual.Dict.{Dict, insert, keys, values, IsDict, of_entries}
use counterfactual.Dict.Build.{of_entries-IsDict}
use counterfactual.FreeBalance.{
  CoinTransfer, CoinTransferJson, FreeBalance, serialize, deserialize, deserialize_transfers,
  deserialize_balances,
}

get_elem?-middle {ℓ} :
    {A : Type ℓ} (pre : List A) (x : A) (post : List A)
    → get_elem? (pre ++ x ∷ post) (length pre) ≡ some x
get_elem?-middle [] x post = refl
get_elem?-middle (y ∷ pre) x post = get_elem?-middle pre x post

length-snoc {ℓ} : {A : Type ℓ} (pre : List A) (x : A) → length (pre ++ x ∷ []) ≡ suc (length pre)
length-snoc [] x = refl
length-snoc (y ∷ pre) x = ap suc (length-snoc pre x)

build_active :
    (acc d : Dict (Unit {0}))
    → foldl (λ r h. insert h tt r) acc (keys d) ≡ foldl (λ r e. insert e.0 e.1 r) acc d
build_active acc [] = refl
build_active acc ((k, v) ∷ d) = build_active (insert k tt acc) d

module _ (e : Ethers) (laws : EthersLaws e) where
  abbrev row : List CoinTransfer → List CoinTransferJson
  row ts = map (λ t. record { to = t.to; amount = e.to_hex_string t.amount }) ts

  deserialize_transfers-row : (ts : List CoinTransfer) → deserialize_transfers e (row ts) ≡ ok ts
  unfolding deserialize_transfers
  deserialize_transfers-row [] = refl
  deserialize_transfers-row (t ∷ ts) =
      rw (laws.big_numberify-to_hex_string t.amount, deserialize_transfers-row ts) refl

  deserialize_balances-rows :
      (pre : List (List CoinTransferJson)) (acc d : Dict (List CoinTransfer))
      → All (λ t. e.get_address t ≡ some t) (keys d)
      → deserialize_balances e (pre ++ map row (values d)) (length pre) acc (keys d)
        ≡ ok (foldl (λ r e. insert e.0 e.1 r) acc d)
  unfolding deserialize_balances
  deserialize_balances-rows pre acc [] h = refl
  deserialize_balances-rows pre acc ((k, ts) ∷ d) h =
      let rest = deserialize_balances-rows (pre ++ row ts ∷ []) (insert k ts acc) d h.1 in
      rw (h.0, get_elem?-middle pre (row ts) (map row (values d)), deserialize_transfers-row ts)
        (rw (append_assoc, length-snoc) at rest)

  -- A free balance without a key twice and with checksummed tokens, written as the state of its app,
  -- is read back as it was.
  pub deserialize-serialize :
      (fb : FreeBalance)
      → IsDict fb.active_apps_map
      → IsDict fb.balances_indexed_by_token
      → All (λ t. e.get_address t ≡ some t) (keys fb.balances_indexed_by_token)
      → deserialize e (serialize e fb) ≡ ok fb
  unfolding deserialize serialize of_entries
  deserialize-serialize fb active distinct checksummed =
      rw (deserialize_balances-rows [] [] fb.balances_indexed_by_token checksummed) (
        let built = of_entries-IsDict fb.balances_indexed_by_token distinct in
        let listed =
          build_active [] fb.active_apps_map ∙ of_entries-IsDict fb.active_apps_map active in
        cc (built, listed))
