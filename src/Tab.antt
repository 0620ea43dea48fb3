-- ===== src/Tab.antt =====
-- src/lj_tab.c and lj_tab.h: tables, with an array part and a hash part. An array of the source
-- is a function of the index, below the size that the table keeps; a pointer to a node is its
-- index. The arithmetic of doubles is a parameter; a number is its 64 bits.
pub mod Chain
pub mod Wellformed
pub mod Fresh
pub mod Grown
pub mod Stored
pub mod Written
pub mod Place
pub mod Free
pub mod Link
pub mod Move
pub mod Moved
pub mod Newkey
pub mod Access
pub mod Getters
pub mod Setters
pub mod Map
pub mod Assign
pub mod Errors
pub mod Length
pub mod Boundary
pub mod Traverse
pub mod Count
pub mod Best
pub mod Next
pub mod Pairs
pub mod Create
use luavela.Base.{ℕ, zero, suc, ◌+◌, ◌-◌, ◌*◌, ◌/◌, ◌%◌, ◌^◌, ◌<◌, ◌≤◌, ◌≡◌, bit_and, bit_xor}
use luavela.Base.{Bool, true, false, not, ◌&&◌, ◌||◌, Option, none, some, List, [], ◌∷◌}
use luavela.Base.{ltb, leb, ◌==◌, if◌then◌else◌}

-- What the processor gives for doubles: `==`, lj_num2int, and the conversion of an int32_t; and
-- the hash that a string object keeps.
pub record Values : Type 0 where
  pub num_eq : ℕ → ℕ → Bool
  pub num2int : ℕ → ℕ
  pub int2num : ℕ → ℕ
  pub string_hash : ℕ → ℕ
  -- Equal numbers differ at most in the sign of 0, and `==` is symmetric and transitive.
  pub num_eq_bits : (a b : ℕ) → num_eq a b ≡ true → a % 2 ^ 63 ≡ b % 2 ^ 63
  pub num_eq_sym : (a b : ℕ) → num_eq a b ≡ true → num_eq b a ≡ true
  pub num_eq_trans : (a b c : ℕ) → num_eq a b ≡ true → num_eq b c ≡ true → num_eq a c ≡ true
  pub num_eq_zero : num_eq 0 (2 ^ 63) ≡ true
  pub num_eq_int : (k : ℕ) → num_eq (int2num k) (int2num k) ≡ true
  pub num2int_same : (a b : ℕ) → num_eq a b ≡ true → num2int a ≡ num2int b
  pub int2num-num2int : (k : ℕ) → k < 2 ^ 32 → num2int (int2num k) ≡ k

-- A `TValue`: a string is its object, and `other` is a value that is compared and hashed by its pointer, with its tag.
pub data TValue : Type 0 where
  nil : TValue
  bool : Bool → TValue
  num : ℕ → TValue
  str : ℕ → TValue
  other : ℕ → ℕ → TValue

pub record Node : Type 0 where
  pub val : TValue
  pub key : TValue
  pub next : Option ℕ

pub record GcTab : Type 0 where
  pub array : ℕ → TValue
  pub asize : ℕ
  pub node : ℕ → Node
  pub hmask : ℕ
  pub freetop : ℕ
  pub nomm : ℕ
  pub immutable : Bool

abbrev pub tvisnil : TValue → Bool
tvisnil v = elim v [ nil ↦ true | _ ↦ false ]

abbrev pub bool_eq : Bool → Bool → Bool
bool_eq true b = b
bool_eq false b = not b

abbrev pub lj_rol : ℕ → ℕ → ℕ
lj_rol x n = x * 2 ^ n % 2 ^ 32 + x / 2 ^ (32 - n)

unfoldable pub hashrot : ℕ → ℕ → ℕ
hashrot lo hi =
    let lo = bit_xor lo hi in
    let hi = lj_rol hi 14 in
    let lo = (lo + 2 ^ 32 - hi) % 2 ^ 32 in
    let hi = lj_rol hi 5 in let hi = bit_xor hi lo in (hi + 2 ^ 32 - lj_rol lo 13) % 2 ^ 32

abbrev pub hash_bias : ℕ
hash_bias = 2 ^ 32 - 0x04c11db7

-- `uj_obj_equal`.
unfoldable pub uj_obj_equal : Values → TValue → TValue → Bool
uj_obj_equal values nil nil = true
uj_obj_equal values (bool a) (bool b) = bool_eq a b
uj_obj_equal values (num a) (num b) = values.num_eq a b
uj_obj_equal values (str a) (str b) = a == b
uj_obj_equal values (other tag a) (other tag' b) = tag == tag' && a == b
uj_obj_equal values _ _ = false

-- The hash of a key, before it is masked.
unfoldable pub key_hash : Values → TValue → ℕ
key_hash values nil = hashrot 0 hash_bias
key_hash values (bool false) = 0
key_hash values (bool true) = 1
key_hash values (num n) = hashrot (n % 2 ^ 32) (n / 2 ^ 32 * 2 % 2 ^ 32)
key_hash values (str s) = values.string_hash s
key_hash values (other tag ptr) = hashrot (ptr % 2 ^ 32) ((ptr + hash_bias) % 2 ^ 32)

-- The main position of a key.
unfoldable pub hashkey : Values → ℕ → TValue → ℕ
hashkey values hmask key = bit_and (key_hash values key) hmask

-- Where the next pointers lead from the node `i`, the first node whose key passes the test.
unfoldable pub find_node : (TValue → Bool) → ℕ → (ℕ → Node) → ℕ → Option ℕ
find_node test zero node i = none
find_node test (suc fuel) node i =
    let rest : Option ℕ = elim (node i).next [
      | none ↦ none
      | some j ↦ find_node test fuel node j
    ] in
    if test (node i).key then some i else rest

-- The loop of the lookups; a chain has no more than `hmask + 1` nodes.
unfoldable pub find_key : Values → GcTab → TValue → Option ℕ
find_key values t key =
    find_node (λ k. uj_obj_equal values k key) (t.hmask + 2) t.node (hashkey values t.hmask key)

-- What a pointer to a value of the hash part points to; NULL stands for nil.
abbrev pub node_value : GcTab → Option ℕ → TValue
node_value t none = nil
node_value t (some i) = (t.node i).val

-- `*p = value`, for the node with the index `i`.
abbrev pub set_node : (ℕ → Node) → ℕ → Node → ℕ → Node
set_node node i value j = if j == i then value else node j

-- The loop that looks for a free node below `freenode`.
unfoldable pub free_node : (ℕ → Node) → ℕ → Option ℕ
free_node node zero = none
free_node node (suc freenode) =
    let lower = free_node node freenode in
    if tvisnil (node freenode).key then some freenode else lower

-- The node before `n` on the chain of `collide`.
unfoldable pub predecessor : ℕ → (ℕ → Node) → ℕ → ℕ → Option ℕ
predecessor zero node n collide = none
predecessor (suc fuel) node n collide = elim (node collide).next [
  | none ↦ none
  | some next ↦ elim (next == n) [ true ↦ some collide | false ↦ predecessor fuel node n next ]
]

abbrev pub is_str : TValue → Bool
is_str v = elim v [ str s ↦ true | _ ↦ false ]

abbrev pub set_next : (ℕ → Node) → ℕ → Option ℕ → ℕ → Node
set_next node i next = set_node node i (record (node i) { next = next })

-- The loop that rechains strings of the chain behind `freenode` whose main position is `n`.
unfoldable pub rechain : Values → ℕ → ℕ → (ℕ → Node) → ℕ → ℕ → (ℕ → Node)
rechain values zero hmask node n freenode = node
rechain values (suc fuel) hmask node n freenode = elim (node freenode).next [
  | none ↦ node
  | some nn ↦
      let moved = set_next node freenode (node nn).next in
      let moved = set_next moved nn (moved n).next in
      let moved = set_next moved n (some nn) in
      elim (is_str (node nn).key
        && not (tvisnil (node nn).val)
        && hashkey values hmask (node nn).key == n) [
          | true ↦ rechain values fuel hmask moved n freenode
          | false ↦ rechain values fuel hmask node n nn
        ]
]

-- Where a value stands: in the array part, or in a node.
pub data Slot : Type 0 where
  array_slot node_slot : ℕ → Slot

pub data TabError : Type 0 where
  immut_modif nanidx nilidx tabov : TabError

-- The caller of a setter writes the value.
unfoldable pub store : GcTab → Slot → TValue → GcTab
store t (array_slot i) v = record t { array = λ j. if j == i then v else t.array j }
store t (node_slot i) v = record t { node = set_node t.node i (record (t.node i) { val = v }) }

-- What a setter does: it gives a place to write to, throws, or wants the table rehashed.
-- `astray` is a chain that ends before the node that is searched on it.
pub data Setting : Type 0 where
  place : Slot → GcTab → Setting
  fails : TabError → Setting
  rehash astray : Setting

-- `n->key = *key`, where the key -0 becomes 0.
abbrev pub canonical : TValue → TValue
canonical nil = nil
canonical (bool b) = bool b
canonical (num n) = if n == 2 ^ 63 then num 0 else num n
canonical (str s) = str s
canonical (other tag ptr) = other tag ptr

abbrev pub place_key : GcTab → ℕ → TValue → Setting
place_key t n key =
    let keyed : GcTab = record t {
      node = set_node t.node n (record (t.node n) { key = canonical key });
    } in
    place (node_slot n) keyed

-- The colliding node `n` makes place for the key: it moves to `freenode`, behind `collide`.
unfoldable pub move_out : Values → ℕ → (ℕ → Node) → ℕ → ℕ → ℕ → (ℕ → Node)
move_out values hmask node n freenode collide =
    let node = set_next node collide (some freenode) in
    let node = set_node node freenode (node n) in
    let node = set_node node n (record (node n) { next = none; val = nil }) in
    rechain values (hmask + 2) hmask node n freenode

-- `freenode` is linked behind the node `n`.
abbrev pub link_behind : (ℕ → Node) → ℕ → ℕ → ℕ → Node
link_behind node n freenode = set_next (set_next node freenode (node n).next) n (some freenode)

-- What `lj_tab_newkey` does with the free node.
unfoldable pub use_free : Values → GcTab → TValue → ℕ → ℕ → Setting
use_free values t key n freenode =
    let lowered : GcTab = record t { freetop = freenode } in
    let collide = hashkey values t.hmask (t.node n).key in
    if not (collide == n)
    then elim (predecessor (t.hmask + 2) t.node n collide) [
      | none ↦ astray
      | some before ↦
          let moved : GcTab = record lowered {
            node = move_out values t.hmask t.node n freenode before;
          } in
          place_key moved n key
    ]
    else (let linked : GcTab = record lowered { node = link_behind t.node n freenode } in
        place_key linked freenode key)

unfoldable pub lj_tab_newkey : Values → GcTab → TValue → Setting
lj_tab_newkey values t key =
    let n = hashkey values t.hmask key in
    if t.immutable
    then fails immut_modif
    else if not (tvisnil (t.node n).val) || t.hmask == 0
    then elim (free_node t.node t.freetop) [
      | none ↦ rehash
      | some freenode ↦ use_free values t key n freenode
    ]
    else place_key t n key
