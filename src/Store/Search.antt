-- ===== src/Store/Search.antt =====
-- Finding the channel of an app.
use mathlib.Core.Path.{subst}
use counterfactual.Prelude.{
  String, ◌==◌, ◌≡◌, refl, ◌⊎◌, inl, inr, ap, ◌∙◌, sym, true, some, List, [], ◌∷◌, arith, eq_refl,
  eq_iff, Bool-cases,
}
use counterfactual.Errors.{ok, >>=-eq-ok}
use counterfactual.External.{Ethers}
use counterfactual.Dict.{Dict, lookup, insert, values, IsDict}
use counterfactual.StateChannel.{StateChannel, construct}
use counterfactual.StateChannel.Json.{StateChannelJson, from_json}
use counterfactual.Store.{
  Store, by_address, read_channels, get_state_channels_map, get_state_channel, knows_app,
  first_knowing, get_multisig_address_from_app_instance,
}

-- `a` is an element.
abbrev Among : {A : Type 0} → A → List A → Type 0
Among a [] = ⊥
Among a (x ∷ xs) = (x ≡ a) ⊎ Among a xs

-- To put one more alternative behind the first.
behind {ℓ} : {A B C : Type ℓ} → A ⊎ C → A ⊎ (B ⊎ C)
behind (inl a) = inl a
behind (inr c) = inr (inr c)

insert_cases {ℓ} : {A B C D : Type ℓ} → (C → A ⊎ D) → B ⊎ C → A ⊎ (B ⊎ D)
insert_cases rest (inl b) = inr (inl b)
insert_cases rest (inr c) = behind (rest c)

Among-insert :
    {A : Type 0} (a : A) (k : String) (v : A) (d : Dict A)
    → Among a (values (insert k v d))
    → (v ≡ a) ⊎ Among a (values d)
unfolding insert
Among-insert a k v [] m = m
Among-insert a k v ((j, w) ∷ d) m = elim (Bool-cases (j == k)) [
  | inl same ↦ behind (rw same at m)
  | inr other ↦ insert_cases (Among-insert a k v d) (rw other at m)
]

Among-lookup :
    {A : Type 0} (a : A) (d : Dict A)
    → IsDict d
    → Among a (values d)
    → (k : String) × (lookup k d ≡ some a)
unfolding lookup
Among-lookup a [] h m = absurd m
Among-lookup a ((k, v) ∷ d) h (inl e) = (k, ground (arith, eq_refl k))
Among-lookup a ((k, v) ∷ d) h (inr m) =
    let (j, found) = Among-lookup a d h.1 m in (j, ground (arith, eq_iff k j))

module _ {V : Type 0} where
  -- Every channel stands under its own address, and no address stands twice.
  pub record IsConsistent (s : Store V) : Type 0 where
    pub distinct : IsDict s.shared_data.state_channels_map
    pub addressed :
        (k : String) (j : StateChannelJson V)
        → lookup k s.shared_data.state_channels_map ≡ some j
        → k ≡ j.multisig_address

  from_json-multisig_address :
      (j : StateChannelJson V) {sc : StateChannel V}
      → from_json j ≡ ok sc
      → sc.multisig_address ≡ j.multisig_address
  unfolding from_json construct
  from_json-multisig_address j h = ground arith

  Among-by_address :
      (sc : StateChannel V) (scs : List (StateChannel V)) (acc : Dict (StateChannel V))
      → Among sc (values (by_address scs acc))
      → Among sc scs ⊎ Among sc (values acc)
  unfolding by_address
  Among-by_address sc [] acc m = inr m
  Among-by_address sc (x ∷ scs) acc m =
      sort_out (Among-by_address sc scs (insert x.multisig_address x acc) m)
    where
      split : (x ≡ sc) ⊎ Among sc (values acc) → ((x ≡ sc) ⊎ Among sc scs) ⊎ Among sc (values acc)
      split (inl e) = inl (inl e)
      split (inr n) = inr n

      sort_out :
          Among sc scs ⊎ Among sc (values (insert x.multisig_address x acc))
          → ((x ≡ sc) ⊎ Among sc scs) ⊎ Among sc (values acc)
      sort_out (inl n) = inl (inr n)
      sort_out (inr n) = split (Among-insert sc x.multisig_address x acc n)

  read_channels-inv :
      (js : List (StateChannelJson V)) (scs : List (StateChannel V)) (sc : StateChannel V)
      → read_channels js ≡ ok scs
      → Among sc scs
      → (j : StateChannelJson V) × Among j js × (from_json j ≡ ok sc)
  unfolding read_channels
  read_channels-inv [] [] sc h m = absurd m
  read_channels-inv [] (x ∷ scs) sc h m = cc
  read_channels-inv (j ∷ js) scs sc h m =
      let (first, p, q) = >>=-eq-ok (from_json j) _ h in
      let (rest, r, t) = >>=-eq-ok (read_channels js) _ q in
      choose rest first p (read_channels-inv js rest sc r) (split first rest t)
    where
      split :
          (first : StateChannel V) (rest : List (StateChannel V))
          → ok (first ∷ rest) ≡ ok scs
          → (first ≡ sc) ⊎ Among sc rest
      split first rest t = let same : scs ≡ first ∷ rest = cc t in subst (Among sc) same m

      choose :
          (rest : List (StateChannel V)) (first : StateChannel V)
          → from_json j ≡ ok first
          → (Among sc rest → (i : StateChannelJson V) × Among i js × (from_json i ≡ ok sc))
          → (first ≡ sc) ⊎ Among sc rest
          → (i : StateChannelJson V) × ((j ≡ i) ⊎ Among i js) × (from_json i ≡ ok sc)
      choose rest first p ih (inl e) = (j, inl refl, p ∙ ap ok e)
      choose rest first p ih (inr n) = let (i, there, reads) = ih n in (i, inr there, reads)

  first_knowing-inv :
      (e : Ethers) (id a : String) (scs : List (StateChannel V))
      → first_knowing e id scs ≡ ok a
      → (sc : StateChannel V) × Among sc scs
        × (knows_app e id sc ≡ true)
        × (sc.multisig_address ≡ a)
  unfolding first_knowing
  first_knowing-inv e id a [] h = cc
  first_knowing-inv e id a (sc ∷ scs) h = elim (Bool-cases (knows_app e id sc)) [
    | inl known ↦ (sc, inl refl, known, ground arith)
    | inr unknown ↦
        let (found, there, known, named) = first_knowing-inv e id a scs (ground arith) in
        (found, inr there, known, named)
  ]

  stored_read :
      (s : Store V) {k a : String} {j : StateChannelJson V} {sc : StateChannel V}
      → k ≡ a
      → lookup k s.shared_data.state_channels_map ≡ some j
      → from_json j ≡ ok sc
      → get_state_channel a s ≡ ok sc
  unfolding get_state_channel
  stored_read s same found reads = rw (← same) (rw found reads)

  module _ (e : Ethers) (id : String) (s : Store V) (consistent : IsConsistent s) where
    -- In a consistent store the address that the search for an app gives is that of a stored channel that knows the app.
    pub get_multisig_address_from_app_instance_lem :
        (address : String)
        → get_multisig_address_from_app_instance e id s ≡ ok address
        → (sc : StateChannel V) × (get_state_channel address s ≡ ok sc)
          × (sc.multisig_address ≡ address)
          × (knows_app e id sc ≡ true)
    unfolding get_multisig_address_from_app_instance get_state_channels_map get_state_channel
    get_multisig_address_from_app_instance_lem address h =
        let (channels, p, q) = >>=-eq-ok (get_state_channels_map s) _ h in
        let (scs, r, t) = >>=-eq-ok (read_channels (values s.shared_data.state_channels_map)) _ p in
        let (sc, among, known, named) = first_knowing-inv e id address (values channels) q in
        let j =
          read_channels-inv (values s.shared_data.state_channels_map) scs sc r
            (listed channels scs t sc among) in
        let (k, found) =
          Among-lookup j.0 s.shared_data.state_channels_map consistent.distinct j.1 in
        let key : k ≡ address =
          consistent.addressed k j.0 found ∙ sym (from_json-multisig_address j.0 j.2) ∙ named in
        (sc, stored_read s key found j.2, named, known)
      where
        listed :
            (channels : Dict (StateChannel V)) (scs : List (StateChannel V))
            → ok (by_address scs []) ≡ ok channels
            → (sc : StateChannel V) → Among sc (values channels)
            → Among sc scs
        listed channels scs t sc among =
            let same : channels ≡ by_address scs [] = cc t in
            elim (Among-by_address sc scs [] (subst (λ c. Among sc (values c)) same among)) [
              | inl n ↦ n
              | inr none_there ↦ absurd none_there
            ]
