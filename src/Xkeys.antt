-- ===== src/Xkeys.antt =====
-- packages/node/src/engine/xkeys.ts: the k-th address of an extended key, with its cache, and the
-- order of addresses, which compares them as JavaScript numbers.
pub mod Sorting
pub mod Caching
use Prim.Native.Char.{code}
use Prim.Native.String
use counterfactual.Prelude.{
  ℕ, zero, suc, ◌+◌, ◌-◌, ◌*◌, ◌/◌, ◌%◌, String, Bool, true, false, ◌&&◌, Option, none, some, List,
  [], ◌∷◌, map, ltb, leb, eqb, if◌then◌else◌,
}
use counterfactual.Dict.{Dict, lookup, insert}
use counterfactual.External.{Ethers}
use Prim.Native.Nat.{◌^◌}

hex_digit : ℕ → Option ℕ
hex_digit c =
    if leb b'0' c && leb c b'9'
    then some (c - b'0')
    else if leb b'a' c && leb c b'f'
    then some (c - b'a' + 10)
    else if leb b'A' c && leb c b'F'
    then some (c - b'A' + 10)
    else none

-- The digits up to the first character that is none; `none` while no digit was read (`NaN`).
hex_value : Option ℕ → String → Option ℕ
unfolding hex_digit
hex_value acc String.[] = acc
hex_value acc (String.◌∷◌ c s) =
    let digit = hex_digit (code c) in
    let sum = λ (d : ℕ). (elim acc [ none ↦ 0 | some n ↦ n ]) * 16 + d in
    elim digit [ none ↦ acc | some d ↦ hex_value (some (sum d)) s ]

-- `parseInt(text, 16)` before rounding: a prefix `0x` is passed over.
parse_int_exact : String → Option ℕ
unfolding hex_value
parse_int_exact (String.◌∷◌ z (String.◌∷◌ x s)) =
    if eqb (code z) b'0' && (eqb (code x) b'x')
    then hex_value none s
    else hex_value none (String.◌∷◌ z (String.◌∷◌ x s))
parse_int_exact s = hex_value none s

-- A number of 53 bits is kept; a longer one is rounded to 53 bits, ties to even.
round_at : ℕ → ℕ → ℕ
round_at shift n =
    let quotient = n / 2 ^ shift in
    let rest = n % 2 ^ shift in
    let up =
      if ltb (2 ^ shift) (2 * rest)
      then 1
      else if ltb (2 * rest) (2 ^ shift)
      then 0
      else quotient % 2 in
    (quotient + up) * 2 ^ shift

to_double : ℕ → ℕ → ℕ → ℕ
unfolding round_at
to_double zero shift n = round_at shift n
to_double (suc fuel) shift n =
    let more = to_double fuel (suc shift) n in
    if ltb (n / 2 ^ shift) (2 ^ 53) then (if eqb shift 0 then n else round_at shift n) else more

-- `parseInt(address, 16)`: an address has 160 bits, so 128 rounds find its 53 leading bits.
unfoldable pub parse_int : String → Option ℕ
unfolding parse_int_exact to_double
parse_int s = elim (parse_int_exact s) [ none ↦ none | some n ↦ some (to_double 128 0 n) ]

-- `parseInt(a, 16) < parseInt(b, 16)`; a comparison with `NaN` is false.
unfoldable pub precedes : String → String → Bool
precedes a b = elim (parse_int a) [
  | none ↦ false
  | some m ↦ elim (parse_int b) [ none ↦ false | some n ↦ ltb m n ]
]

pub insert_sorted : String → List String → List String
insert_sorted a [] = a ∷ []
insert_sorted a (b ∷ bs) = if precedes a b then a ∷ b ∷ bs else b ∷ insert_sorted a bs

pub sort_into : List String → List String → List String
unfolding insert_sorted
sort_into sorted [] = sorted
sort_into sorted (a ∷ rest) = sort_into (insert_sorted a sorted) rest

-- `addrs.sort(...)`: each address in turn is put behind those that it does not precede.
unfoldable pub sort_addresses : List String → List String
unfolding sort_into
sort_addresses addrs = sort_into [] addrs

-- What the cached function computes.
unfoldable pub xkey_kth_address : Ethers → String → ℕ → String
xkey_kth_address e xkey k = e.compute_address xkey k

unfoldable pub xkeys_to_sorted_kth_addresses : Ethers → List String → ℕ → List String
unfolding xkey_kth_address
xkeys_to_sorted_kth_addresses e xkeys k = sort_addresses (map (λ x. xkey_kth_address e x k) xkeys)

-- `xkeyKthAddressCache`: for each key the addresses by their index.
abbrev pub Cache : Type 0
Cache = Dict (List (ℕ × String))

unfoldable pub lookup_index : ℕ → List (ℕ × String) → Option String
lookup_index k [] = none
lookup_index k ((j, a) ∷ row) = if eqb j k then some a else lookup_index k row

unfoldable pub row_of : String → Cache → List (ℕ × String)
row_of xkey cache = elim (lookup xkey cache) [ none ↦ [] | some row ↦ row ]

-- `xkeyKthAddress` with the cache that it reads and writes.
pub cached_kth_address : Ethers → String → ℕ → Cache → String × Cache
cached_kth_address e xkey k cache =
    let row = row_of xkey cache in
    elim (lookup_index k row) [
      | some a ↦ (a, insert xkey row cache)
      | none ↦ let a = e.compute_address xkey k in (a, insert xkey ((k, a) ∷ row) cache)
    ]
