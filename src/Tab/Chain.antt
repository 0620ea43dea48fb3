-- ===== src/Tab/Chain.antt =====
-- Chains of nodes, and what is found on them.
use luavela.Base.{ℕ, zero, suc, ◌<◌, ◌≡◌, ◌≢◌, refl, sym, ap, ◌∙◌, subst, arith}
use luavela.Base.{Bool, true, false, Bool-cases, inl, inr, Option, none, some, Option-cases}
use luavela.Base.{◌==◌, eqb→eq}
use luavela.Tab.{Node, TValue, find_node, predecessor}

-- The node `j` is reached from `i`.
pub data Chain (node : ℕ → Node) (j : ℕ) : ℕ → Type 0 where
  here : Chain node j j
  step : {i : ℕ} (x : ℕ) → (node i).next ≡ some x → Chain node j x → Chain node j i

-- Along a chain, `rank` falls.
abbrev pub Falls : (ℕ → Node) → (ℕ → ℕ) → Type 0
Falls node rank = (i x : ℕ) → (node i).next ≡ some x → rank x < rank i

find_again :
    (test : TValue → Bool) (fuel : ℕ) (node : ℕ → Node) (i x : ℕ)
    → test (node i).key ≡ false
    → (node i).next ≡ some x
    → find_node test (suc fuel) node i ≡ find_node test fuel node x
unfolding find_node
find_again test fuel node i x other e = rw (other, e) refl

find_here :
    (test : TValue → Bool) (fuel : ℕ) (node : ℕ → Node) (i : ℕ)
    → test (node i).key ≡ true
    → find_node test (suc fuel) node i ≡ some i
unfolding find_node
find_here test fuel node i same = rw same refl

find_end :
    (test : TValue → Bool) (fuel : ℕ) (node : ℕ → Node) (i : ℕ)
    → test (node i).key ≡ false
    → (node i).next ≡ none
    → find_node test (suc fuel) node i ≡ none
unfolding find_node
find_end test fuel node i other e = rw (other, e) refl

-- The only node that passes the test is found from each node that reaches it.
pub find-Chain :
    (test : TValue → Bool) (node : ℕ → Node) (rank : ℕ → ℕ) (j : ℕ)
    → Falls node rank
    → test (node j).key ≡ true
    → ((i : ℕ) → test (node i).key ≡ true → i ≡ j)
    → {i : ℕ} → (fuel : ℕ) → Chain node j i
    → rank i < fuel
    → find_node test fuel node i ≡ some j
find-Chain test node rank j falls same only zero c lt = absurd (omega arith)
find-Chain test node rank j falls same only (suc fuel) here lt = find_here test fuel node j same
find-Chain test node rank j falls same only {i} (suc fuel) (step x e c) lt =
    elim (Bool-cases (test (node i).key)) [
      | inl t ↦ find_here test fuel node i t ∙ ap (λ n. let o : Option ℕ = some n in o) (only i t)
      | inr f ↦
          find_again test fuel node i x f e
          ∙ find-Chain test node rank j falls same only fuel c (omega (arith, falls i x e))
    ]

-- What is found passes the test.
pub find_sound :
    (test : TValue → Bool) (node : ℕ → Node) (fuel i j : ℕ)
    → find_node test fuel node i ≡ some j
    → test (node j).key ≡ true
unfolding find_node
find_sound test node zero i j e = cc
find_sound test node (suc fuel) i j e = elim (Bool-cases (test (node i).key)) [
  | inl t ↦ let same : i ≡ j = ground arith in subst (λ n. test (node n).key ≡ true) same t
  | inr f ↦ elim (Option-cases (node i).next) [
    | inl end ↦ let nothing = find_end test fuel node i f end in cc
    | inr (x, link) ↦ find_sound test node fuel x j (sym (find_again test fuel node i x f link) ∙ e)
  ]
]

predecessor_again :
    (fuel : ℕ) (node : ℕ → Node) (n i x : ℕ)
    → (node i).next ≡ some x
    → x == n ≡ false
    → predecessor (suc fuel) node n i ≡ predecessor fuel node n x
unfolding predecessor
predecessor_again fuel node n i x e other = rw (e, predecessor) (rw other refl)

predecessor_here :
    (fuel : ℕ) (node : ℕ → Node) (n i x : ℕ)
    → (node i).next ≡ some x
    → x == n ≡ true
    → predecessor (suc fuel) node n i ≡ some i
unfolding predecessor
predecessor_here fuel node n i x e same = rw (e, predecessor) (rw same refl)

-- The node before `n` is found from each other node that reaches `n`.
pub predecessor-Chain :
    (node : ℕ → Node) (rank : ℕ → ℕ) (n : ℕ)
    → Falls node rank
    → {i : ℕ} → (fuel : ℕ) → Chain node n i
    → i ≢ n
    → rank i < fuel
    → (p : ℕ) × (predecessor fuel node n i ≡ some p) × ((node p).next ≡ some n)
predecessor-Chain node rank n falls zero c ne lt = absurd (omega arith)
predecessor-Chain node rank n falls (suc fuel) here ne lt = absurd (ne refl)
predecessor-Chain node rank n falls {i} (suc fuel) (step x e c) ne lt = elim (Bool-cases (x == n)) [
  | inl same ↦ (
    i,
    predecessor_here fuel node n i x e same,
    e ∙ ap (λ k. let o : Option ℕ = some k in o) (eqb→eq x n same),
  )
  | inr other ↦
      let (p, found, link) =
        predecessor-Chain node rank n falls fuel c (ground arith) (omega (arith, falls i x e)) in
      (p, predecessor_again fuel node n i x e other ∙ found, link)
]

pub append-Chain : (node : ℕ → Node) {j k i : ℕ} → Chain node j i → Chain node k j → Chain node k i
append-Chain node here d = d
append-Chain node (step x e c) d = step x e (append-Chain node c d)

-- Chains follow their links where the links are mapped.
pub map-Chain :
    (node node' : ℕ → Node) (f : ℕ → ℕ)
    → ((i x : ℕ) → (node i).next ≡ some x → Chain node' (f x) (f i))
    → (j : ℕ) → {i : ℕ} → Chain node j i
    → Chain node' (f j) (f i)
map-Chain node node' f links j here = here
map-Chain node node' f links j (step x e c) =
    append-Chain node' (links _ x e) (map-Chain node node' f links j c)
