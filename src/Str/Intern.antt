-- ===== src/Str/Intern.antt =====
-- One object for each text: what the two tables of strings and the empty string hold together.
use luavela.Base.{ℕ, ◌+◌, ◌%◌, ◌^◌, ◌≤◌, ◌<◌, ◌≡◌, ◌≢◌, refl, sym, ap, ◌∙◌, arith}
use luavela.Base.{Bool, true, false, Bool-cases, inl, inr, Option, none, some}
use luavela.Base.{List, [], ◌∷◌, ◌==◌, leb, length}
use luavela.Strhash.{GcStr, has_payload}
use luavela.Strhash.Totals.{one_if, total}
use luavela.Strhash.Resize.{IsValid, uj_strhash_add-IsValid}
use luavela.Strhash.Lookup.{Answers, uj_strhash_find-Answers, total_mono, has_payload→eq}
use luavela.Str.{
  GlobalState, hit, miss, or_find, hit_or_miss, intern, uj_str_new, lj_max_str, mark_new, flipwhite,
  isdead,
}

-- How many strings pass a test, the empty one among them.
abbrev pub population : GlobalState → (GcStr → Bool) → ℕ
population g p = one_if (p g.strempty) + total p g.strhash.hash + total p g.strhash_sealed.hash

abbrev pub with_id : ℕ → GcStr → Bool
with_id n s = s.id == n

-- The strings that are not allocated yet.
abbrev pub unborn : ℕ → GcStr → Bool
unborn n s = leb n s.id

-- Both tables are valid, and no two strings have the same text or the same identity.
pub record IsInterned (hashf : List ℕ → ℕ) (g : GlobalState) : Type 0 where
  pub regular : IsValid hashf g.strhash
  pub sealed : IsValid hashf g.strhash_sealed
  pub empty : g.strempty.payload ≡ []
  pub payloads : (str : List ℕ) → population g (has_payload str) ≤ 1
  pub ids : (n : ℕ) → population g (with_id n) ≤ 1
  pub born : population g (unborn g.next_id) ≡ 0

abbrev pub IsMember : GlobalState → GcStr → Type 0
IsMember g s = (p : GcStr → Bool) → p s ≡ true → 1 ≤ population g p

-- What a call for `str` leaves: the object with this text, and all strings that there were.
pub record Interns (hashf : List ℕ → ℕ) (g : GlobalState) (str : List ℕ) (r : GcStr × GlobalState)
    : Type 0 where
  pub valid : IsInterned hashf r.1
  pub payload : r.0.payload ≡ str
  pub member : IsMember r.1 r.0
  pub kept : (p : GcStr → Bool) → population g p ≤ population r.1 p

one_if_mono : (a b : Bool) → (a ≡ true → b ≡ true) → one_if a ≤ one_if b
one_if_mono true b h = rw (h refl) (omega arith)
one_if_mono false b h = omega arith

population_mono :
    (g : GlobalState) (p q : GcStr → Bool)
    → ((s : GcStr) → p s ≡ true → q s ≡ true)
    → population g p ≤ population g q
population_mono g p q h = omega (
  arith,
  one_if_mono (p g.strempty) (q g.strempty) (h g.strempty),
  total_mono p q g.strhash.hash h,
  total_mono p q g.strhash_sealed.hash h,
)

-- A string found in one of the tables, or the text in none of them.
abbrev Located : GlobalState → List ℕ → Option GcStr → Type 0
Located g str none =
    (total (has_payload str) g.strhash.hash ≡ 0)
    × (total (has_payload str) g.strhash_sealed.hash ≡ 0)
Located g str (some s) = (s.payload ≡ str) × IsMember g s

or_find-Located :
    (g : GlobalState) (str : List ℕ) (a b : Option GcStr)
    → Answers str (λ p. total p g.strhash.hash) a
    → Answers str (λ p. total p g.strhash_sealed.hash) b
    → Located g str (or_find a b)
or_find-Located g str (some s) b (e, h) h' = (e, λ p q. omega (arith, h p q))
or_find-Located g str none (some s) h (e, h') = (e, λ p q. omega (arith, h' p q))
or_find-Located g str none none h h' = (h, h')

module _ (hashf : List ℕ → ℕ) where
  -- Marks and counters do not matter.
  remarked-Interns :
      (g : GlobalState) (str : List ℕ) (s : GcStr) (n : ℕ) (marked : ℕ → ℕ)
      → IsInterned hashf g
      → s.payload ≡ str
      → IsMember g s
      → Interns hashf g str (s, record g { strhash_hit = n; marked = marked })
  remarked-Interns g str s n marked v e m = record {
    valid = record {
      regular = v.regular;
      sealed = v.sealed;
      empty = v.empty;
      payloads = v.payloads;
      ids = v.ids;
      born = v.born;
    };
    payload = e;
    member = m;
    kept = λ p. omega arith;
  }

  hit-Interns :
      (g : GlobalState) (str : List ℕ) (s : GcStr)
      → IsInterned hashf g
      → s.payload ≡ str
      → IsMember g s
      → Interns hashf g str (hit g s)
  unfolding hit flipwhite
  hit-Interns g str s v e m =
      let n = (g.strhash_hit + 1) % 2 ^ 64 in
      let counted : GlobalState = record g { strhash_hit = n } in
      elim (Bool-cases (isdead counted s)) [
        | inl dead ↦ rw dead (remarked-Interns g str s n _ v e m)
        | inr alive ↦ rw alive (remarked-Interns g str s n _ v e m)
      ]

  -- The population after a new string.
  population-miss :
      (g : GlobalState) (str : List ℕ)
      → IsInterned hashf g
      → (p : GcStr → Bool)
      → population (miss g str (hashf str)).1 p
        ≡ population g p + one_if (p (miss g str (hashf str)).0)
  unfolding miss mark_new
  population-miss g str v p =
      let s : GcStr = record { id = g.next_id; hash = hashf str; payload = str } in
      let (_, totals, _) = uj_strhash_add-IsValid hashf g.state s g.strhash v.regular refl in
      omega (arith, totals p)

  new_payload :
      (g : GlobalState) (str other : List ℕ) (s : GcStr)
      → IsInterned hashf g
      → s.payload ≡ str
      → length str ≢ 0
      → total (has_payload str) g.strhash.hash ≡ 0
      → total (has_payload str) g.strhash_sealed.hash ≡ 0
      → population g (has_payload other) + one_if (has_payload other s) ≤ 1
  new_payload g str other s v e long none_in none_sealed = elim (Bool-cases (has_payload other s)) [
    | inr differs ↦ rw differs (omega (arith, v.payloads other))
    | inl same ↦
        let eq : other ≡ str = sym (has_payload→eq other s same) ∙ e in
        let not_empty : has_payload str g.strempty ≡ false = rw v.empty (ground arith) in
        rw (same, eq, not_empty) (omega (arith, none_in, none_sealed))
  ]

  new_id :
      (g : GlobalState) (s : GcStr) (n : ℕ)
      → IsInterned hashf g
      → s.id ≡ g.next_id
      → population g (with_id n) + one_if (with_id n s) ≤ 1
  new_id g s n v e = elim (Bool-cases (with_id n s)) [
    | inr differs ↦ rw differs (omega (arith, v.ids n))
    | inl same ↦
        let none_yet = population_mono g (with_id n) (unborn g.next_id) (λ t h. ground arith) in
        rw same (omega (arith, none_yet, v.born))
  ]

  miss-Interns :
      (g : GlobalState) (str : List ℕ)
      → IsInterned hashf g
      → length str ≢ 0
      → total (has_payload str) g.strhash.hash ≡ 0
      → total (has_payload str) g.strhash_sealed.hash ≡ 0
      → Interns hashf g str (miss g str (hashf str))
  unfolding miss mark_new
  miss-Interns g str v long none_in none_sealed =
      let s : GcStr = record { id = g.next_id; hash = hashf str; payload = str } in
      let added = uj_strhash_add-IsValid hashf g.state s g.strhash v.regular refl in
      let totals = population-miss g str v in
      let older =
        population_mono g (unborn (g.next_id + 1)) (unborn g.next_id) (λ t h. ground arith) in
      let not_new : unborn (g.next_id + 1) s ≡ false = ground arith in
      record {
        valid = record {
          regular = added.0;
          sealed = v.sealed;
          empty = v.empty;
          payloads = λ other. omega (
            arith,
            totals (has_payload other),
            new_payload g str other s v refl long none_in none_sealed,
          );
          ids = λ n. omega (arith, totals (with_id n), new_id g s n v refl);
          born = omega (arith, totals (unborn (g.next_id + 1)), ap one_if not_new, older, v.born);
        };
        payload = refl;
        member = λ p h. omega (arith, totals p, ap one_if h);
        kept = λ p. omega (arith, totals p);
      }

  hit_or_miss-Interns :
      (g : GlobalState) (str : List ℕ) (o : Option GcStr)
      → IsInterned hashf g
      → length str ≢ 0
      → Located g str o
      → Interns hashf g str (hit_or_miss g str (hashf str) o)
  hit_or_miss-Interns g str (some s) v long (e, m) = hit-Interns g str s v e m
  hit_or_miss-Interns g str none v long (regular, sealed) = miss-Interns g str v long regular sealed

  empty-Interns :
      (g : GlobalState) (str : List ℕ)
      → IsInterned hashf g
      → length str ≡ 0
      → Interns hashf g str (g.strempty, g)
  empty-Interns g [] v e = record {
    valid = v;
    payload = v.empty;
    member = λ p h. rw h (omega arith);
    kept = λ p. omega arith;
  }
  empty-Interns g (c ∷ str) v e = absurd (omega arith)

  -- For a text below LJ_MAX_STR, `uj_str_new` gives a string with this text that is in one of the
  -- tables or is the empty one, keeps all others, and leaves no two strings with the same text.
  pub uj_str_new-Interns :
      (g : GlobalState) (str : List ℕ)
      → IsInterned hashf g
      → length str < lj_max_str
      → (r : GcStr × GlobalState) × (uj_str_new hashf g str ≡ some r) × Interns hashf g str r
  unfolding uj_str_new intern
  uj_str_new-Interns g str v short =
      let long : leb lj_max_str (length str) ≡ false = ground arith in
      elim (Bool-cases (length str == 0)) [
        | inl none_at_all ↦
            ((g.strempty, g), rw (long, none_at_all) refl, empty-Interns g str v (ground arith))
        | inr more ↦ (
          intern hashf g str,
          rw (long, more) refl,
          hit_or_miss-Interns g str _ v (ground arith) (
              or_find-Located g str _ _ (uj_strhash_find-Answers hashf g.strhash str v.regular)
                (uj_strhash_find-Answers hashf g.strhash_sealed str v.sealed)),
        )
      ]
