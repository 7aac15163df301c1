-- ===== src/Xkeys/Sorting.antt =====
-- Sorting addresses keeps them, and orders them by the numbers that they are read as.
use mathlib.Core.List.{Perm, append-nil, perm_middle}
use mathlib.Core.List.Perm
use counterfactual.Prelude.{
  ℕ, ◌≤◌, String, ◌≡◌, refl, true, false, some, List, [], ◌∷◌, ◌++◌, arith, Bool-cases, inl, inr,
  All,
}
use counterfactual.Xkeys.{parse_int, precedes, insert_sorted, sort_into, sort_addresses}

-- `precedes` is a strict order.
pub precedes_asymm : (a b : String) → precedes a b ≡ true → precedes b a ≡ false
unfolding precedes
precedes_asymm a b h = ground arith

-- Of two addresses, one of which precedes the other, the order of the arguments is forgotten.
pub sort_addresses_pair :
    (a b : String)
    → precedes a b ≡ true
    → (sort_addresses (a ∷ b ∷ []) ≡ a ∷ b ∷ []) × (sort_addresses (b ∷ a ∷ []) ≡ a ∷ b ∷ [])
unfolding sort_addresses
sort_addresses_pair a b h = (rw (precedes_asymm a b h), rw h)

-- Two addresses are sorted into two.
pub sort_addresses_two :
    (a b : String) → (x : String) × (y : String) × (sort_addresses (a ∷ b ∷ []) ≡ x ∷ y ∷ [])
unfolding sort_addresses
sort_addresses_two a b = elim (Bool-cases (precedes b a)) [
  | inl before ↦ (b, a, rw before refl)
  | inr after ↦ (a, b, rw after refl)
]

insert_sorted-perm : (a : String) (bs : List String) → Perm (insert_sorted a bs) (a ∷ bs)
unfolding insert_sorted
insert_sorted-perm a [] = Perm.refl (a ∷ [])
insert_sorted-perm a (b ∷ bs) = elim (Bool-cases (precedes a b)) [
  | inl before ↦ rw before (Perm.refl (a ∷ b ∷ bs))
  | inr after ↦ rw after (Perm.trans (Perm.cons b (insert_sorted-perm a bs)) (Perm.swap a b bs))
]

sort_into-perm : (sorted rest : List String) → Perm (sort_into sorted rest) (rest ++ sorted)
unfolding sort_into
sort_into-perm sorted [] = Perm.refl sorted
sort_into-perm sorted (a ∷ rest) = Perm.trans (sort_into-perm (insert_sorted a sorted) rest) (
    Perm.trans (Perm.append (Perm.refl rest) (insert_sorted-perm a sorted))
      (perm_middle rest sorted))

-- Sorting loses no address and adds none.
pub sort_addresses-perm : (addrs : List String) → Perm (sort_addresses addrs) addrs
unfolding sort_addresses
sort_addresses-perm addrs = rw append-nil at (sort_into-perm [] addrs)

-- The text is read as a number, as every address is.
abbrev pub IsNumber : String → Type 0
IsNumber a = (n : ℕ) × (parse_int a ≡ some n)

-- No address precedes one that stands before it.
abbrev IsSorted : List String → Type 0
IsSorted [] = Unit
IsSorted (a ∷ bs) = All (λ b. precedes b a ≡ false) bs × IsSorted bs

All-insert_sorted :
    (P : String → Type 0) (a : String) (bs : List String)
    → P a
    → All P bs
    → All P (insert_sorted a bs)
unfolding insert_sorted
All-insert_sorted P a [] p h = (p, tt)
All-insert_sorted P a (b ∷ bs) p h = elim (Bool-cases (precedes a b)) [
  | inl before ↦ rw before (p, h)
  | inr after ↦ rw after (h.0, All-insert_sorted P a bs p h.1)
]

not-precedes_trans :
    (a b c : String)
    → IsNumber a
    → IsNumber b
    → precedes b a ≡ false
    → precedes c b ≡ false
    → precedes c a ≡ false
unfolding precedes
not-precedes_trans a b c (l, pa) (m, pb) h k = ground arith

All-not_precedes :
    (a b : String) (cs : List String)
    → IsNumber a
    → IsNumber b
    → precedes b a ≡ false
    → All (λ c. precedes c b ≡ false) cs
    → All (λ c. precedes c a ≡ false) cs
All-not_precedes a b [] na nb h k = tt
All-not_precedes a b (c ∷ cs) na nb h k =
    (not-precedes_trans a b c na nb h k.0, All-not_precedes a b cs na nb h k.1)

insert_sorted-IsSorted :
    (a : String) (bs : List String)
    → IsNumber a
    → All IsNumber bs
    → IsSorted bs
    → IsSorted (insert_sorted a bs)
unfolding insert_sorted
insert_sorted-IsSorted a [] na nbs h = (tt, tt)
insert_sorted-IsSorted a (b ∷ bs) na nbs h = elim (Bool-cases (precedes a b)) [
  | inl before ↦
      let later = precedes_asymm a b before in
      rw before ((later, All-not_precedes a b bs na nbs.0 later h.0), h)
  | inr after ↦ rw after (
    All-insert_sorted (λ c. precedes c b ≡ false) a bs after h.0,
    insert_sorted-IsSorted a bs na nbs.1 h.1,
  )
]

sort_into-IsSorted :
    (sorted rest : List String)
    → All IsNumber sorted
    → All IsNumber rest
    → IsSorted sorted
    → IsSorted (sort_into sorted rest)
unfolding sort_into
sort_into-IsSorted sorted [] ns nr h = h
sort_into-IsSorted sorted (a ∷ rest) ns nr h =
    sort_into-IsSorted (insert_sorted a sorted) rest (All-insert_sorted IsNumber a sorted nr.0 ns)
      nr.1 (insert_sorted-IsSorted a sorted nr.0 ns h)

-- The second address is read as a number that is not smaller.
abbrev pub IsBelow : String → String → Type 0
IsBelow a b = (m : ℕ) × (n : ℕ) × (parse_int a ≡ some m) × (parse_int b ≡ some n) × (m ≤ n)

-- Every address is read as a number that is not greater than those after it.
abbrev pub IsAscending : List String → Type 0
IsAscending [] = Unit
IsAscending (a ∷ bs) = All (IsBelow a) bs × IsAscending bs

precedes-IsBelow : (a b : String) → IsNumber a → IsNumber b → precedes b a ≡ false → IsBelow a b
unfolding precedes
precedes-IsBelow a b (m, read) (n, read') h = (m, n, read, read', ground arith)

precedes-All :
    (a : String) (bs : List String)
    → IsNumber a
    → All IsNumber bs
    → All (λ b. precedes b a ≡ false) bs
    → All (IsBelow a) bs
precedes-All a [] na nbs h = tt
precedes-All a (b ∷ bs) na nbs h =
    (precedes-IsBelow a b na nbs.0 h.0, precedes-All a bs na nbs.1 h.1)

IsSorted-IsAscending :
    (addrs : List String) → All IsNumber addrs → IsSorted addrs → IsAscending addrs
IsSorted-IsAscending [] ns h = tt
IsSorted-IsAscending (a ∷ bs) ns h =
    (precedes-All a bs ns.0 ns.1 h.0, IsSorted-IsAscending bs ns.1 h.1)

sort_into-All :
    (P : String → Type 0) (sorted rest : List String)
    → All P sorted
    → All P rest
    → All P (sort_into sorted rest)
unfolding sort_into
sort_into-All P sorted [] ps qs = ps
sort_into-All P sorted (a ∷ rest) ps qs =
    sort_into-All P (insert_sorted a sorted) rest (All-insert_sorted P a sorted qs.0 ps) qs.1

-- Addresses that are read as numbers are sorted into a permutation of them in which these numbers
-- ascend: each is at most every later one.
pub sort_addresses-IsAscending :
    (addrs : List String)
    → All IsNumber addrs
    → Perm (sort_addresses addrs) addrs × IsAscending (sort_addresses addrs)
unfolding sort_addresses
sort_addresses-IsAscending addrs h = (
  sort_addresses-perm addrs,
  IsSorted-IsAscending (sort_into [] addrs) (sort_into-All IsNumber [] addrs tt h)
      (sort_into-IsSorted [] addrs tt h tt),
)
