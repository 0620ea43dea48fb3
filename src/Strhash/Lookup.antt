-- ===== src/Strhash/Lookup.antt =====
-- Looking a string up: the table answers for all its chains, though it searches only one.
use luavela.Base.{ℕ, zero, suc, ◌+◌, ◌≤◌, ◌≡◌, ◌≢◌, refl, sym, ap, ◌∙◌, arith}
use luavela.Base.{Bool, true, false, not, ◌&&◌, Bool-cases, inl, inr, Option, none, some}
use luavela.Base.{List, [], ◌∷◌, ◌==◌, length, get_or}
use luavela.Strhash.{GcStr, StrHash, GcState, strhash_index, bytes_eq, has_payload}
use luavela.Strhash.{strhash_find_in_bucket, uj_strhash_find, uj_strhash_add}
use luavela.Strhash.Totals.{one_if, passing, total}
use luavela.Strhash.Resize.{ChainAt, IsValid, uj_strhash_add-IsValid}

pub bytes_eq→eq : (xs ys : List ℕ) → bytes_eq xs ys ≡ true → xs ≡ ys
unfolding bytes_eq
bytes_eq→eq [] [] h = refl
bytes_eq→eq [] (y ∷ ys) h = cc
bytes_eq→eq (x ∷ xs) [] h = cc
bytes_eq→eq (x ∷ xs) (y ∷ ys) h = ground (arith, bytes_eq→eq xs ys)

pub bytes_eq_self : (xs : List ℕ) → bytes_eq xs xs ≡ true
unfolding bytes_eq
bytes_eq_self [] = refl
bytes_eq_self (x ∷ xs) = ground (arith, bytes_eq_self xs)

pub has_payload→eq : (str : List ℕ) (s : GcStr) → has_payload str s ≡ true → s.payload ≡ str
has_payload→eq str s h = ground (arith, bytes_eq→eq str s.payload)

pub has_payload_of_eq : (str : List ℕ) (s : GcStr) → s.payload ≡ str → has_payload str s ≡ true
has_payload_of_eq str s e = rw e (ground (arith, bytes_eq_self str))

pub has_payload_self : (s : GcStr) → has_payload s.payload s ≡ true
has_payload_self s = ground (arith, bytes_eq_self s.payload)

-- What a search for `str` may answer, for a table with the given totals: a string with this
-- payload that is in the table, or nothing if no string of the table has it.
abbrev pub Answers : List ℕ → ((GcStr → Bool) → ℕ) → Option GcStr → Type 0
Answers str totals none = totals (has_payload str) ≡ 0
Answers str totals (some s) = (s.payload ≡ str) × ((p : GcStr → Bool) → p s ≡ true → 1 ≤ totals p)

later_answer :
    (str : List ℕ) (s : GcStr) (c : List GcStr) (r : Option GcStr)
    → has_payload str s ≡ false
    → Answers str (λ p. passing p c) r
    → Answers str (λ p. one_if (p s) + passing p c) r
later_answer str s c none other h = rw other (omega (arith, h))
later_answer str s c (some t) other (e, h) = (e, λ p q. omega (arith, h p q))

bucket-Answers :
    (c : List GcStr) (str : List ℕ) → Answers str (λ p. passing p c) (strhash_find_in_bucket c str)
unfolding strhash_find_in_bucket passing
bucket-Answers [] str = refl
bucket-Answers (s ∷ c) str = elim (Bool-cases (has_payload str s)) [
  | inl here ↦ rw here (has_payload→eq str s here, λ p h. rw h (omega arith))
  | inr other ↦
      rw other (later_answer str s c (strhash_find_in_bucket c str) other (bucket-Answers c str))
]

passing-le-total :
    (p : GcStr → Bool) (hash : List (List GcStr)) (i : ℕ)
    → passing p (get_or hash i []) ≤ total p hash
unfolding total passing
passing-le-total p [] i = omega arith
passing-le-total p (c ∷ hash) zero = omega arith
passing-le-total p (c ∷ hash) (suc i) = omega (arith, passing-le-total p hash i)

-- If no other chain has a string that passes, one chain decides.
total_only :
    (p : GcStr → Bool) (hash : List (List GcStr)) (i : ℕ)
    → ((j : ℕ) → j ≢ i → passing p (get_or hash j []) ≡ 0)
    → total p hash ≡ passing p (get_or hash i [])
unfolding total passing
total_only p [] i others = refl
total_only p (c ∷ hash) zero others = omega (
  arith,
  total_only p hash (length hash) (λ j _. others (suc j) (omega arith)),
  total_beyond p hash,
)
  where
    total_beyond :
        (p : GcStr → Bool) (hash : List (List GcStr)) → passing p (get_or hash (length hash) []) ≡ 0
    total_beyond p [] = refl
    total_beyond p (d ∷ hash) = total_beyond p hash
total_only p (c ∷ hash) (suc i) others =
    omega
      (arith, others 0 (omega arith), total_only p hash i (λ j ne. others (suc j) (omega arith)))

-- A chain whose index is not that of `str` has no string with this payload.
chain_without :
    (hashf : List ℕ → ℕ) (mask j : ℕ) (str : List ℕ) (c : List GcStr)
    → ChainAt hashf mask j c
    → j ≢ strhash_index (hashf str) mask
    → passing (has_payload str) c ≡ 0
unfolding passing
chain_without hashf mask j str [] at ne = refl
chain_without hashf mask j str (s ∷ c) at ne = elim (Bool-cases (has_payload str s)) [
  | inl here ↦
      let same = ap hashf (has_payload→eq str s here) in
      absurd (ne (sym at.0.0 ∙ ap (λ n. strhash_index n mask) (at.0.1 ∙ same)))
  | inr other ↦ rw other (omega (arith, chain_without hashf mask j str c at.1 ne))
]

widen_answer :
    (str : List ℕ) (hash : List (List GcStr)) (i : ℕ) (r : Option GcStr)
    → ((j : ℕ) → j ≢ i → passing (has_payload str) (get_or hash j []) ≡ 0)
    → Answers str (λ p. passing p (get_or hash i [])) r
    → Answers str (λ p. total p hash) r
widen_answer str hash i none others h = total_only (has_payload str) hash i others ∙ h
widen_answer str hash i (some t) others (e, h) =
    (e, λ p q. omega (arith, h p q, passing-le-total p hash i))

-- `uj_strhash_find` with the hash of the text answers for the whole table: the string that it
-- returns has the text as its payload and is in the table, and if it returns none, then no
-- string of the table has this payload.
pub uj_strhash_find-Answers :
    (hashf : List ℕ → ℕ) (h : StrHash) (str : List ℕ)
    → IsValid hashf h
    → Answers str (λ p. total p h.hash) (uj_strhash_find h str (hashf str))
unfolding uj_strhash_find
uj_strhash_find-Answers hashf h str v =
    let i = strhash_index (hashf str) h.mask in
    let c = get_or h.hash i [] in
    widen_answer str h.hash i (strhash_find_in_bucket c str)
      (λ j ne. chain_without hashf h.mask j str (get_or h.hash j []) (v.placed j) ne)
      (bucket-Answers c str)

passing_mono :
    (p q : GcStr → Bool) (c : List GcStr)
    → ((s : GcStr) → p s ≡ true → q s ≡ true)
    → passing p c ≤ passing q c
unfolding passing
passing_mono p q [] h = omega arith
passing_mono p q (s ∷ c) h = ground (arith, h s, passing_mono p q c h)

-- The same object: in a table that is the same identity, hash and payload.
same : GcStr → GcStr → Bool
same s t = has_payload s.payload t && (s.id == t.id && s.hash == t.hash)

same→eq : (s t : GcStr) → same s t ≡ true → t ≡ s
unfolding same
same→eq s t h = ground (arith, bytes_eq→eq s.payload t.payload)

pub total_mono :
    (p q : GcStr → Bool) (hash : List (List GcStr))
    → ((s : GcStr) → p s ≡ true → q s ≡ true)
    → total p hash ≤ total q hash
unfolding total
total_mono p q [] h = omega arith
total_mono p q (c ∷ hash) h = omega (arith, passing_mono p q c h, total_mono p q hash h)

same_self : (s : GcStr) → same s s ≡ true
unfolding same
same_self s = ground (arith, bytes_eq_self s.payload)

-- Another object with the payload of `s`.
rival : GcStr → GcStr → Bool
rival s t = has_payload s.payload t && not (same s t)

rival-has_payload : (s t : GcStr) → rival s t ≡ true → has_payload s.payload t ≡ true
unfolding rival
rival-has_payload s t h = ground arith

rival_self : (s : GcStr) → rival s s ≡ false
unfolding rival
rival_self s = rw same_self (ground arith)

-- A string with the payload of `s`, in a table where `s` is the only one, is `s`.
only_answer :
    (s : GcStr) (r : Option GcStr) (before after : (GcStr → Bool) → ℕ)
    → ((p : GcStr → Bool) → after p ≡ before p + one_if (p s))
    → before (has_payload s.payload) ≡ 0
    → before (rival s) ≤ before (has_payload s.payload)
    → Answers s.payload after r
    → r ≡ some s
only_answer s none before after totals empty less h =
    absurd (omega (arith, totals (has_payload s.payload), ap one_if (has_payload_self s)))
only_answer s (some t) before after totals empty less (e, members) = elim (Bool-cases (same s t)) [
  | inl yes_same ↦ ap some (same→eq s t yes_same)
  | inr other ↦
      let has : has_payload s.payload t ≡ true = has_payload_of_eq s.payload t e in
      let rivals : rival s t ≡ true = unfold rival in rw (has, other) in
      absurd (omega (arith, members (rival s) rivals, totals (rival s), ap one_if (rival_self s)))
]

-- A string that is added to a table without its payload is the one that is found from then on.
pub find-add :
    (hashf : List ℕ → ℕ) (state : GcState) (h : StrHash) (s : GcStr)
    → IsValid hashf h
    → s.hash ≡ hashf s.payload
    → uj_strhash_find h s.payload (hashf s.payload) ≡ none
    → uj_strhash_find (uj_strhash_add state s h) s.payload (hashf s.payload) ≡ some s
find-add hashf state h s v hs absent =
    let (valid, totals, _) = uj_strhash_add-IsValid hashf state s h v hs in
    let empty = rw absent at (uj_strhash_find-Answers hashf h s.payload v) in
    only_answer s _ (λ p. total p h.hash) (λ p. total p (uj_strhash_add state s h).hash) totals
      empty (total_mono (rival s) (has_payload s.payload) h.hash (rival-has_payload s))
      (uj_strhash_find-Answers hashf (uj_strhash_add state s h) s.payload valid)
