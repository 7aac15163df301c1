-- ===== src/Dict/Build.antt =====
-- Dictionaries and sets that a loop builds: `new Map(entries)`, `new Set(list)`, a `reduce` of spreads.
use counterfactual.Prelude.{
  String, ◌==◌, eq_iff, ◌≡◌, refl, sym, ◌∙◌, ◌||◌, none, some, List, [], ◌∷◌, ◌++◌, foldl, arith,
  if◌then◌else◌, Bool-cases, inl, inr, All,
}
use counterfactual.Dict.{
  Dict, lookup, insert, keys, mem, add, set_of, IsDict, or_else, of_entries, values,
}
use counterfactual.Dict.Laws.{lookup-insert, insert-IsDict, insert-new}
use mathlib.Core.List.{append-nil, append_assoc}

mem-append : (k : String) (xs ys : List String) → mem k (xs ++ ys) ≡ (mem k xs || mem k ys)
mem-append k [] ys = refl
mem-append k (x ∷ xs) ys = ground (arith, mem-append k xs ys)

mem-add : (k j : String) (s : List String) → mem k (add s j) ≡ (mem k s || j == k)
mem-add k j s = elim (Bool-cases (mem j s)) [
  | inl there ↦ rw there (ground (arith, eq_iff j k))
  | inr new ↦ rw new (rw mem-append (ground arith))
]

mem-foldl : (k : String) (s ks : List String) → mem k (foldl add s ks) ≡ (mem k s || mem k ks)
mem-foldl k s [] = ground arith
mem-foldl k s (j ∷ ks) = mem-foldl k (add s j) ks ∙ rw mem-add (ground arith)

-- A set holds what the list holds.
pub mem-set_of : (k : String) (ks : List String) → mem k (set_of ks) ≡ mem k ks
unfolding set_of
mem-set_of k ks = mem-foldl k [] ks

pub mem-union :
    (k : String) (xs ys : List String) → mem k (set_of (xs ++ ys)) ≡ (mem k xs || mem k ys)
mem-union k xs ys = mem-set_of k (xs ++ ys) ∙ mem-append k xs ys

module _ {ℓ} {V : Type ℓ} where
  -- A loop that sets `f key` for each key of a list, last to first or first to last alike.
  abbrev pub fill : (String → V) → Dict V → List String → Dict V
  fill f d ks = foldl (λ r k. insert k (f k) r) d ks

  pub lookup-fill :
      (f : String → V) (j : String) (d : Dict V) (ks : List String)
      → lookup j (fill f d ks) ≡ (if mem j ks then some (f j) else lookup j d)
  lookup-fill f j d [] = refl
  lookup-fill f j d (k ∷ ks) =
      lookup-fill f j (insert k (f k) d) ks ∙ rw lookup-insert (ground (arith, eq_iff k j))

  pub fill-IsDict :
      (f : String → V) (d : Dict V) (ks : List String) → IsDict d → IsDict (fill f d ks)
  fill-IsDict f d [] h = h
  fill-IsDict f d (k ∷ ks) h = fill-IsDict f (insert k (f k) d) ks (insert-IsDict k (f k) d h)

  lookup-append :
      (k : String) (d e : Dict V)
      → lookup k (d ++ e) ≡ elim (lookup k d) [ none ↦ lookup k e | some v ↦ some v ]
  unfolding lookup
  lookup-append k [] e = refl
  lookup-append k ((j, w) ∷ d) e = ground (arith, lookup-append k d e)

  absent-of_append :
      (k : String) (v : V) (acc es : Dict V) → IsDict (acc ++ (k, v) ∷ es) → lookup k acc ≡ none
  unfolding lookup
  absent-of_append k v [] es h = refl
  absent-of_append k v ((j, w) ∷ acc) es h =
      ground (arith, eq_iff j k, absent-of_append k v acc es h.1, lookup-append j acc ((k, v) ∷ es))

  build-append :
      (acc es : Dict V) → IsDict (acc ++ es) → foldl (λ d e. insert e.0 e.1 d) acc es ≡ acc ++ es
  build-append acc [] h = sym (append-nil acc)
  build-append acc ((k, v) ∷ es) h =
      rw (insert-new k v acc (absent-of_append k v acc es h)) (
        build-append (acc ++ (k, v) ∷ []) es (rw append_assoc h)
        ∙ append_assoc acc ((k, v) ∷ []) es)

  -- Entries with distinct keys are kept as they stand.
  pub of_entries-IsDict : (es : Dict V) → IsDict es → of_entries es ≡ es
  unfolding of_entries
  of_entries-IsDict es h = build-append [] es h

module _ {ℓ κ} {V : Type ℓ} {W : Type κ} where
  -- A `reduce` over the entries that sets `g value` under each key.
  abbrev pub build : (V → W) → Dict W → Dict V → Dict W
  build g acc d = foldl (λ r e. insert e.0 (g e.1) r) acc d

  pub lookup-build :
      (g : V → W) (j : String) (acc : Dict W) (d : Dict V)
      → IsDict d
      → lookup j (build g acc d) ≡ elim (lookup j d) [ none ↦ lookup j acc | some v ↦ some (g v) ]
  unfolding lookup
  lookup-build g j acc [] h = refl
  lookup-build g j acc ((k, v) ∷ d) h =
      lookup-build g j (insert k (g v) acc) d h.1
      ∙ ground (arith, eq_iff k j, lookup-insert k j (g v) acc)

  pub build-IsDict : (g : V → W) (acc : Dict W) (d : Dict V) → IsDict acc → IsDict (build g acc d)
  build-IsDict g acc [] h = h
  build-IsDict g acc ((k, v) ∷ d) h =
      build-IsDict g (insert k (g v) acc) d (insert-IsDict k (g v) acc h)

-- A predicate of the keys, under a write and under a loop of writes.
pub All-insert {ℓ} :
    {A : Type ℓ} (P : String → Type 0) (k : String) (v : A) (d : Dict A)
    → P k
    → All P (keys d)
    → All P (keys (insert k v d))
unfolding insert
All-insert P k v [] p h = (p, tt)
All-insert P k v ((j, w) ∷ d) p h = elim (Bool-cases (j == k)) [
  | inl same ↦ rw same h
  | inr other ↦ rw other (h.0, All-insert P k v d p h.1)
]

pub All-build {ℓ κ} :
    {V : Type ℓ} {W : Type κ} (P : String → Type 0) (g : V → W) (acc : Dict W) (d : Dict V)
    → All P (keys acc)
    → All P (keys d)
    → All P (keys (build g acc d))
All-build P g acc [] h k = h
All-build P g acc ((j, v) ∷ d) h k =
    All-build P g (insert j (g v) acc) d (All-insert P j (g v) acc k.0 h) k.1

-- What is read from a dictionary whose values all have a property has it.
pub All-lookup {ℓ κ} :
    {V : Type ℓ} (P : V → Type κ) (k : String) (d : Dict V) (default : V)
    → All P (values d)
    → P default
    → P (or_else (lookup k d) default)
unfolding lookup
All-lookup P k [] default h p = p
All-lookup P k ((j, v) ∷ d) default h p = elim (Bool-cases (j == k)) [
  | inl same ↦ rw same h.0
  | inr other ↦ rw other (All-lookup P k d default h.1 p)
]
