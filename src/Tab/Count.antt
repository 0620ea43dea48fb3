-- ===== src/Tab/Count.antt =====
-- countint and counthash of src/lj_tab.c: the bins of integer keys in the hash part.
-- A bin and a count are uint32_t, and wrap.
use luavela.Base.{ℕ, zero, suc, ◌+◌, ◌-◌, ◌/◌, ◌%◌, ◌^◌}
use luavela.Base.{Bool, true, false, not, ◌&&◌}
use luavela.Base.{ltb, leb, ◌==◌, if◌then◌else◌}
use luavela.Tab.{Values, TValue, num, GcTab, tvisnil}
use luavela.Tab.Access.{is_int}
use luavela.Tab.Create.{lj_max_asize}

-- `lj_bsr`, the index of the highest bit that is set, for numbers below `2 ^ fuel`.
unfoldable pub lj_bsr : ℕ → ℕ → ℕ
lj_bsr zero n = 0
lj_bsr (suc fuel) n = let rest = lj_bsr fuel (n / 2) + 1 in if ltb n 2 then 0 else rest

-- The bin of an integer key.
unfoldable pub bin_of : ℕ → ℕ
bin_of k = if ltb 2 k then lj_bsr 32 (k - 1) else 0

abbrev pub increment : (ℕ → ℕ) → ℕ → ℕ → ℕ
increment bins b i = if i == b then (bins i + 1) % 2 ^ 32 else bins i

-- `countint`: the bins, and whether the key counts.
unfoldable pub countint : Values → TValue → (ℕ → ℕ) → ℕ × (ℕ → ℕ)
countint values key bins = elim key [
  | num n ↦
      if ltb (values.num2int n) lj_max_asize && is_int values n
      then (1, increment bins (bin_of (values.num2int n)))
      else (0, bins)
  | _ ↦ (0, bins)
]

-- The loop of `counthash` over `n` nodes from `i` on: the total, the integer keys, and the bins.
unfoldable pub counthash : Values → GcTab → ℕ → ℕ → (ℕ → ℕ) → ℕ × ℕ × (ℕ → ℕ)
counthash values t zero i bins = (0, 0, bins)
counthash values t (suc n) i bins =
    let counted = countint values (t.node i).key bins in
    let empty = tvisnil (t.node i).val in
    let bins' = if empty then bins else counted.1 in
    let rest = counthash values t n (i + 1) bins' in
    if empty then rest else ((rest.0 + 1) % 2 ^ 32, (rest.1 + counted.0) % 2 ^ 32, rest.2)

-- The keys of the bins from 0 to `b`.
unfoldable pub keys_below : (ℕ → ℕ) → ℕ → ℕ
keys_below bins zero = 0
keys_below bins (suc b) = keys_below bins b + bins b

-- The numbers of a bin: 0 to 2, and then those above 2 ^ b up to 2 ^ (b + 1).
abbrev pub in_bin : ℕ → ℕ → Bool
in_bin zero k = leb k 2
in_bin (suc b) k = ltb (2 ^ suc b) k && leb k (2 ^ suc (suc b))

-- The test of the integer that a key is, if it is one.
abbrev pub int_key : Values → (ℕ → Bool) → TValue → Bool
int_key values test key = elim key [
  | num n ↦ values.num_eq n (values.int2num (values.num2int n)) && test (values.num2int n)
  | _ ↦ false
]

-- How many of `n` numbers from `i` on pass the test.
unfoldable pub count_if : (ℕ → Bool) → ℕ → ℕ → ℕ
count_if test zero i = 0
count_if test (suc n) i = let rest = count_if test n (i + 1) in if test i then rest + 1 else rest

-- The nodes with a value, with one for an integer key that an array part can have, and with one
-- for such a key of a bin.
unfoldable pub has_value : GcTab → ℕ → Bool
has_value t j = not (tvisnil (t.node j).val)

unfoldable pub has_index : Values → GcTab → ℕ → Bool
has_index values t j = has_value t j && int_key values (λ k. leb k (2 ^ 27)) (t.node j).key

unfoldable pub has_bin : Values → GcTab → ℕ → ℕ → Bool
has_bin values t b j =
    has_value t j && int_key values (λ k. leb k (2 ^ 27) && in_bin b k) (t.node j).key

abbrev one_if : Bool → ℕ
one_if true = 1
one_if false = 0
