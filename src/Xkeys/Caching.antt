-- ===== src/Xkeys/Caching.antt =====
-- The cache of `xkeyKthAddress` never shows.
use counterfactual.Prelude.{
  ℕ, String, ◌≡◌, refl, some, List, arith, eq_refl, Option-cases, String-cases, inl, inr, ◌==◌,
  if◌then◌else◌,
}
use counterfactual.Dict.{insert}
use counterfactual.Dict.Laws.{lookup-insert}
use counterfactual.External.{Ethers}
use counterfactual.Xkeys.{Cache, xkey_kth_address, cached_kth_address, lookup_index, row_of}

module _ (e : Ethers) where
  -- Every address in the cache is the one that would be computed.
  pub record IsCacheOf (cache : Cache) : Type 0 where
    pub agrees :
        (xkey : String) (k : ℕ) (a : String)
        → lookup_index k (row_of xkey cache) ≡ some a
        → a ≡ xkey_kth_address e xkey k

  -- The row of `other` after a write of the row of `xkey`.
  row_of-insert :
      (xkey other : String) (row : List (ℕ × String)) (cache : Cache)
      → row_of other (insert xkey row cache) ≡ (if xkey == other then row else row_of other cache)
  unfolding row_of
  row_of-insert xkey other row cache = ground (arith, lookup-insert xkey other row cache)

  IsCacheOf-insert :
      (xkey : String) (row : List (ℕ × String)) (cache : Cache)
      → IsCacheOf cache
      → ((j : ℕ) (a : String) → lookup_index j row ≡ some a → a ≡ xkey_kth_address e xkey j)
      → IsCacheOf (insert xkey row cache)
  IsCacheOf-insert xkey row cache valid fits = record {
    agrees = λ other j a found. elim (String-cases xkey other) [
      | inl same ↦ rw (← same) (fits j a (row_found other j a found same))
      | inr (ne, test) ↦
          valid.agrees other j a (rw (row_of-insert xkey other row cache, test) at found)
    ];
  }
    where
      row_found :
          (other : String) (j : ℕ) (a : String)
          → lookup_index j (row_of other (insert xkey row cache)) ≡ some a
          → xkey ≡ other
          → lookup_index j row ≡ some a
      row_found other j a found same = cc (row_of-insert xkey other row cache, same, eq_refl xkey)

  module _ (xkey : String) (k : ℕ) (cache : Cache) (valid : IsCacheOf cache) where
    -- The cached function returns what the uncached one computes, and the cache stays right.
    pub cached_kth_address_lem :
        ((cached_kth_address e xkey k cache).0 ≡ xkey_kth_address e xkey k)
        × IsCacheOf (cached_kth_address e xkey k cache).1
    unfolding cached_kth_address xkey_kth_address lookup_index
    cached_kth_address_lem = elim (Option-cases (lookup_index k (row_of xkey cache))) [
      | inl missing ↦
          rw (missing, cached_kth_address)
            (
              refl,
              IsCacheOf-insert xkey _ cache valid
                  λ j a found. ground (arith, valid.agrees xkey j a),
            )
      | inr (a, there) ↦
          rw (there, cached_kth_address)
            (
              valid.agrees xkey k a there,
              IsCacheOf-insert xkey (row_of xkey cache) cache valid (valid.agrees xkey),
            )
    ]
