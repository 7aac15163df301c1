-- ===== src/Dict.antt =====
-- JavaScript objects with string keys, `Map`s and `Set`s of strings: entries in insertion order.
-- No key of the program is an array index, so an object too lists its keys as they were added.
pub mod Laws
pub mod Build
use counterfactual.Prelude.{
  String, ◌==◌, Bool, true, false, not, ◌||◌, Option, none, some, List, [], ◌∷◌, ◌++◌, foldl, ◌≡◌,
  if◌then◌else◌,
}

abbrev pub Dict {ℓ} : Type ℓ → Type ℓ
Dict V = List (String × V)

-- `new Set(list)`: the first of equal strings stays.
abbrev pub mem : String → List String → Bool
mem k [] = false
mem k (j ∷ ks) = j == k || mem k ks

abbrev pub add : List String → String → List String
add s k = if mem k s then s else s ++ k ∷ []

unfoldable pub set_of : List String → List String
set_of ks = foldl add [] ks

module _ {ℓ} {V : Type ℓ} where
  -- `d[k]`, `d.get(k)`
  unfoldable pub lookup : String → Dict V → Option V
  lookup k [] = none
  lookup k ((j, v) ∷ d) = if j == k then some v else lookup k d

  -- `d.has(k)`, `!!d[k]` where the values are objects
  abbrev pub has : String → Dict V → Bool
  has k d = elim (lookup k d) [ none ↦ false | some _ ↦ true ]

  -- `d[k] = v`, `d.set(k, v)`, `{ ...d, [k]: v }`: a key that is there keeps its place.
  unfoldable pub insert : String → V → Dict V → Dict V
  insert k v [] = (k, v) ∷ []
  insert k v ((j, w) ∷ d) = if j == k then (j, v) ∷ d else (j, w) ∷ insert k v d

  -- `delete d[k]`, `d.delete(k)`
  unfoldable pub erase : String → Dict V → Dict V
  erase k [] = []
  erase k ((j, w) ∷ d) = if j == k then d else (j, w) ∷ erase k d

  -- `Object.keys(d)`
  abbrev pub keys : Dict V → List String
  keys [] = []
  keys ((j, _) ∷ d) = j ∷ keys d

  -- `Object.values(d)`, `[...d.values()]`
  abbrev pub values : Dict V → List V
  values [] = []
  values ((_, v) ∷ d) = v ∷ values d

  -- No key stands twice.
  abbrev pub IsDict : Dict V → Type ℓ
  IsDict [] = Unit
  IsDict ((j, _) ∷ d) = (lookup j d ≡ none) × IsDict d

  -- `o || d`
  abbrev pub or_else : Option V → V → V
  or_else none d = d
  or_else (some v) d = v

  -- `new Map(entries)`, and a `reduce` that spreads the accumulator and sets one key a round
  unfoldable pub of_entries : List (String × V) → Dict V
  of_entries es = foldl (λ d e. insert e.0 e.1 d) [] es
