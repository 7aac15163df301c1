-- ===== src/Dict/Laws.antt =====
-- What reading a dictionary gives after a write, and that writes keep its keys distinct.
use counterfactual.Prelude.{
  String, ◌==◌, eq_iff, eq_refl, ◌≡◌, ◌≢◌, refl, none, some, [], ◌∷◌, ◌++◌, arith, if◌then◌else◌,
}
use counterfactual.Dict.{Dict, lookup, insert, erase, keys, mem, has, IsDict}

module _ {ℓ} {V : Type ℓ} where
  -- Reading after a write.
  pub lookup-insert :
      (k j : String) (v : V) (d : Dict V)
      → lookup j (insert k v d) ≡ (if k == j then some v else lookup j d)
  unfolding lookup insert
  lookup-insert k j v [] = refl
  lookup-insert k j v ((i, w) ∷ d) =
      ground (arith, eq_iff k j, eq_iff i k, eq_iff i j, lookup-insert k j v d)

  pub lookup-insert_self : (k : String) (v : V) (d : Dict V) → lookup k (insert k v d) ≡ some v
  lookup-insert_self k v d = simp (lookup-insert, eq_refl)

  pub lookup-insert_ne :
      (k j : String) (v : V) (d : Dict V) → k ≢ j → lookup j (insert k v d) ≡ lookup j d
  lookup-insert_ne k j v d h = ground (arith, lookup-insert k j v d, eq_iff k j)

  -- Reading after a removal, where no key stands twice.
  pub lookup-erase :
      (k j : String) (d : Dict V)
      → IsDict d
      → lookup j (erase k d) ≡ (if k == j then none else lookup j d)
  unfolding lookup erase
  lookup-erase k j [] h = ground arith
  lookup-erase k j ((i, w) ∷ d) h =
      ground (arith, eq_iff k j, eq_iff i k, eq_iff i j, lookup-erase k j d h.1)

  pub insert-IsDict : (k : String) (v : V) (d : Dict V) → IsDict d → IsDict (insert k v d)
  unfolding insert lookup
  insert-IsDict k v [] h = (refl, tt)
  insert-IsDict k v ((i, w) ∷ d) h =
      ground (arith, eq_iff i k, eq_iff k i, insert-IsDict k v d h.1, lookup-insert k i v d)

  pub erase-IsDict : (k : String) (d : Dict V) → IsDict d → IsDict (erase k d)
  unfolding erase
  erase-IsDict k [] h = tt
  erase-IsDict k ((i, w) ∷ d) h = ground (arith, erase-IsDict k d h.1, lookup-erase k i d h.1)

  -- A key that is absent is appended.
  pub insert-new :
      (k : String) (v : V) (d : Dict V) → lookup k d ≡ none → insert k v d ≡ d ++ (k, v) ∷ []
  unfolding insert lookup
  insert-new k v [] h = refl
  insert-new k v ((i, w) ∷ d) h = ground (arith, insert-new k v d)

  -- Removing a key that was just appended gives the dictionary back.
  pub erase-insert_new :
      (k : String) (v : V) (d : Dict V) → lookup k d ≡ none → erase k (insert k v d) ≡ d
  unfolding insert erase lookup
  erase-insert_new k v [] h = rw eq_refl
  erase-insert_new k v ((i, w) ∷ d) h = ground (arith, erase-insert_new k v d)

  -- The list of the keys and the dictionary agree on what is there.
  pub mem-keys : (k : String) (d : Dict V) → mem k (keys d) ≡ has k d
  unfolding lookup
  mem-keys k [] = refl
  mem-keys k ((i, w) ∷ d) = ground (arith, mem-keys k d)
