-- ===== src/QueueGetters/Totals.antt =====
-- What the counts of src/classes/queue-getters.ts add up to.
use bullmq.Shared.{
  ℕ, ◌+◌, ◌===◌, ===_iff, ◌||◌, false, List, [], ◌∷◌, ◌++◌, map, Option, some, String, Dict, put,
  keys, has, has-keys-put, IsDistinct, Bool-cases, inl, inr, ◌≡◌, ◌≢◌, refl, ◌∙◌, arith,
}
use bullmq.QueueGetters.{
  insert, insert_all, sanitize_job_types, set_counts, get_job_counts, sum_values,
  get_job_count_by_types,
}

has-append : (xs : List String) (s j : String) → has (xs ++ s ∷ []) j ≡ has xs j || (s === j)
has-append [] s j = ground arith
has-append (x ∷ xs) s j = ground (arith, has-append xs s j)

append-IsDistinct :
    (xs : List String) (s : String) → has xs s ≡ false → IsDistinct xs → IsDistinct (xs ++ s ∷ [])
append-IsDistinct [] s h d = (refl, tt)
append-IsDistinct (x ∷ xs) s h d = (
  ground (arith, has-append xs s x, ===_iff x s, ===_iff s x, h, d.0),
  append-IsDistinct xs s (ground (arith, h)) d.1,
)

pub insert-IsDistinct : (s : String) (xs : List String) → IsDistinct xs → IsDistinct (insert s xs)
unfolding insert
insert-IsDistinct s xs d = elim (Bool-cases (has xs s)) [
  | inl e ↦ rw e d
  | inr e ↦ rw e (append-IsDistinct xs s e d)
]

pub insert_all-IsDistinct : (ss xs : List String) → IsDistinct xs → IsDistinct (insert_all ss xs)
insert_all-IsDistinct [] xs d = d
insert_all-IsDistinct (s ∷ ss) xs d =
    insert_all-IsDistinct ss (insert s xs) (insert-IsDistinct s xs d)

has-insert : (s t : String) (xs : List String) → has (insert s xs) t ≡ has xs t || (s === t)
unfolding insert
has-insert s t xs = elim (Bool-cases (has xs s)) [
  | inl e ↦ rw e (elim (Bool-cases (s === t)) [
    | inl same ↦ rw (same, ← (===_iff s t).0 same, e) refl
    | inr other ↦ rw other (ground arith)
  ])
  | inr e ↦ rw e (has-append xs s t)
]

pub has-insert_all :
    (ss xs : List String) (t : String) → has (insert_all ss xs) t ≡ has xs t || has ss t
has-insert_all [] xs t = ground arith
has-insert_all (s ∷ ss) xs t = ground (arith, has-insert_all ss (insert s xs) t, has-insert s t xs)

has-sanitize :
    (types : List String)
    → types ≢ []
    → (t : String) → has (sanitize_job_types types) t ≡ has types t
unfolding sanitize_job_types
has-sanitize [] h t = absurd (h refl)
has-sanitize (s ∷ ss) h t = has-insert_all (s ∷ ss) [] t

sanitize-IsDistinct : (types : List String) → IsDistinct (sanitize_job_types types)
unfolding sanitize_job_types
sanitize-IsDistinct [] = (refl, (refl, (refl, (refl, (refl, (refl, (refl, tt)))))))
sanitize-IsDistinct (t ∷ ts) = insert_all-IsDistinct (t ∷ ts) [] tt

sum_values-put :
    (t : String) (n : ℕ) (m : Dict ℕ)
    → has (keys m) t ≡ false
    → sum_values (put t n m) ≡ sum_values m + n
unfolding sum_values put keys
sum_values-put t n [] h = omega arith
sum_values-put t n ((u, k) ∷ m) h = ground (arith, sum_values-put t n m, h)

abbrev pub sum : List ℕ → ℕ
sum [] = 0
sum (n ∷ ns) = n + sum ns

-- None of the texts is a key.
abbrev Misses : List String → Dict ℕ → Type 0
Misses [] m = Unit
Misses (t ∷ ts) m = (has (keys m) t ≡ false) × Misses ts m

Misses-put :
    (ts : List String) (t : String) (n : ℕ) (m : Dict ℕ)
    → has ts t ≡ false
    → Misses ts m
    → Misses ts (put t n m)
Misses-put [] t n m h k = tt
Misses-put (u ∷ ts) t n m h k = (
  ground (arith, has-keys-put t u n m, ===_iff t u, ===_iff u t, h, k.0),
  Misses-put ts t n m (ground (arith, h)) k.1,
)

Misses-nil : (ts : List String) → Misses ts []
unfolding keys
Misses-nil [] = tt
Misses-nil (t ∷ ts) = (refl, Misses-nil ts)

sum-set_counts :
    (count : String → ℕ) (ts : List String) (m : Dict ℕ)
    → IsDistinct ts
    → Misses ts m
    → sum_values (set_counts (map (λ t. some (count t)) ts) ts m)
      ≡ sum_values m + sum (map count ts)
unfolding set_counts
sum-set_counts count [] m d k = omega arith
sum-set_counts count (t ∷ ts) m d k =
    sum-set_counts count ts (put t (count t) m) d.1 (Misses-put ts t (count t) m d.0 k.1)
    ∙ omega (arith, sum_values-put t (count t) m k.0)

zero_lem : (n : ℕ) → sum_values [] + n ≡ n
unfolding sum_values
zero_lem n = omega arith

-- If the backend counts the jobs of each type that it is asked for, in the order of the types, then
-- the total is the sum of its counts over the types that are given, each counted once however often
-- it is named: the types of that sum have no type twice, and if any is given they are those given.
pub get_job_count_by_types_lem :
    (backend : List String → List (Option ℕ)) (count : String → ℕ) (types : List String)
    → ((ts : List String) → backend ts ≡ map (λ t. some (count t)) ts)
    → (get_job_count_by_types backend types ≡ sum (map count (sanitize_job_types types)))
      × IsDistinct (sanitize_job_types types)
      × (types ≢ [] → (t : String) → has (sanitize_job_types types) t ≡ has types t)
unfolding get_job_count_by_types get_job_counts
get_job_count_by_types_lem backend count types h =
    let ts = sanitize_job_types types in
    (
      rw (h ts) (
          sum-set_counts count ts [] (sanitize-IsDistinct types) (Misses-nil ts)
          ∙ zero_lem (sum (map count ts))),
      sanitize-IsDistinct types,
      has-sanitize types,
    )
