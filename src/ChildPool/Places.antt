-- ===== src/ChildPool/Places.antt =====
-- Where a child of src/classes/child-pool.ts is.
use bullmq.Shared.{
  ℕ, suc, ◌+◌, ◌≤◌, ◌==◌, if◌then◌else◌, Bool, true, false, List, [], ◌∷◌, ◌++◌, Option, none, some,
  Option-cases, inl, inr, String, Dict, get, put, ◌≡◌, refl, arith,
}
use bullmq.ChildPool.{
  Child, ChildPool, new, or_nil, get_free, delete_retained, set_retained, pop, splice, remove,
  start_child, reuse, retain, release, clean, remove_all, get_all_free,
}

-- How many entries of a list have that process id.
abbrev pub count : ℕ → List Child → ℕ
count n [] = 0
count n (c ∷ cs) = let rest = count n cs in if c.pid == n then suc rest else rest

abbrev pub count_free : ℕ → Dict (List Child) → ℕ
count_free n [] = 0
count_free n ((file, cs) ∷ m) = count n cs + count_free n m

-- The number of places that a child has in the pool.
abbrev pub places : ℕ → ChildPool → ℕ
places n p = count n p.retained + count_free n p.free

count-append : (n : ℕ) (xs ys : List Child) → count n (xs ++ ys) ≡ count n xs + count n ys
count-append n [] ys = omega arith
count-append n (x ∷ xs) ys = ground (arith, count-append n xs ys)

count-delete_retained :
    (n : ℕ) (c : Child) (cs : List Child)
    → count n (delete_retained c cs) ≡ (if c.pid == n then 0 else count n cs)
unfolding delete_retained
count-delete_retained n c [] = ground arith
count-delete_retained n c (d ∷ ds) = ground (arith, count-delete_retained n c ds)

count-splice : (n : ℕ) (c : Child) (cs : List Child) → count n (splice c cs) ≤ count n cs
unfolding splice
count-splice n c [] = omega arith
count-splice n c (d ∷ ds) = ground (arith, count-splice n c ds)

count_free-put :
    (n : ℕ) (file : String) (cs : List Child) (m : Dict (List Child))
    → count_free n (put file cs m) + count n (or_nil (get file m)) ≡ count_free n m + count n cs
unfolding get put
count_free-put n file cs [] = omega arith
count_free-put n file cs ((f, ds) ∷ m) = ground (arith, count_free-put n file cs m)

-- The count of what `pop` gives.
abbrev popped : ℕ → Option (Child × List Child) → ℕ
popped n none = 0
popped n (some (d, ds)) = count n ds + (if d.pid == n then 1 else 0)

count-pop : (n : ℕ) (cs : List Child) → count n cs ≡ popped n (pop cs)
unfolding pop
count-pop n [] = refl
count-pop n (c ∷ cs) = elim (Option-cases (pop cs)) [
  | inl e ↦ let rest = count-pop n cs in rw e (ground (arith, rest, e))
  | inr ((d, ds), e) ↦ let rest = count-pop n cs in rw e (ground (arith, rest, e))
]

-- A step of the pool: others may come between the two parts of a call of `retain`. A new child's
-- process id is not in the pool when it is initialized, and only a retained child is released.
pub data Step : ChildPool → ChildPool → Type 0 where
  retains : (file : String) (p : ChildPool) → Step p (retain file p).1
  starts :
      (c : Child) (ok : Bool) (p : ChildPool) → places c.pid p ≡ 0 → Step p (start_child c ok p).1
  releases : (c : Child) (p : ChildPool) → count c.pid p.retained ≡ 1 → Step p (release c p)
  exits : (c : Child) (p : ChildPool) → Step p (remove c p)
  cleans : (p : ChildPool) → Step p (clean p)

pub data Reaches (p : ChildPool) : ChildPool → Type 0 where
  here : Reaches p p
  onward : (q r : ChildPool) → Reaches p q → Step q r → Reaches p r

abbrev IsSound : ChildPool → Type 0
IsSound p = (n : ℕ) → places n p ≤ 1

remove-IsSound : (c : Child) (p : ChildPool) → IsSound p → IsSound (remove c p)
unfolding remove get_free
remove-IsSound c p h n = ground (
  arith,
  h n,
  count-delete_retained n c p.retained,
  count-splice n c (or_nil (get c.process_file p.free)),
  count_free-put n c.process_file (splice c (or_nil (get c.process_file p.free))) p.free,
)

release-IsSound :
    (c : Child) (p : ChildPool) → count c.pid p.retained ≡ 1 → IsSound p → IsSound (release c p)
unfolding release get_free
release-IsSound c p one h n =
    let cs = or_nil (get c.process_file p.free) in
    ground (
      arith,
      h n,
      one,
      count-delete_retained n c p.retained,
      count-append n cs (c ∷ []),
      count_free-put n c.process_file (cs ++ c ∷ []) p.free,
    )

start_child-IsSound :
    (c : Child) (ok : Bool) (p : ChildPool)
    → places c.pid p ≡ 0
    → IsSound p
    → IsSound (start_child c ok p).1
unfolding start_child set_retained
start_child-IsSound c true p fresh h n =
    ground (arith, h n, fresh, count-delete_retained n c p.retained)
start_child-IsSound c false p fresh h n = remove-IsSound c p h n

reuse-IsSound :
    (file : String) (o : Option (Child × List Child)) (p : ChildPool)
    → ((n : ℕ) → count n (get_free file p) ≡ popped n o)
    → IsSound p
    → IsSound (reuse file o p).1
unfolding set_retained get_free
reuse-IsSound file none p e h n = h n
reuse-IsSound file (some (d, ds)) p e h n =
    ground (arith, h n, e n, count-delete_retained n d p.retained, count_free-put n file ds p.free)

retain-IsSound : (file : String) (p : ChildPool) → IsSound p → IsSound (retain file p).1
unfolding retain
retain-IsSound file p h =
    reuse-IsSound file (pop (get_free file p)) p (λ n. count-pop n (get_free file p)) h

remove_all-IsSound : (cs : List Child) (p : ChildPool) → IsSound p → IsSound (remove_all cs p)
remove_all-IsSound [] p h n = h n
remove_all-IsSound (c ∷ cs) p h n = remove_all-IsSound cs (remove c p) (remove-IsSound c p h) n

new-IsSound : IsSound new
unfolding new
new-IsSound n = omega arith

Step-IsSound : (p q : ChildPool) → Step p q → IsSound p → IsSound q
unfolding clean
Step-IsSound _ _ (retains file p) h = retain-IsSound file p h
Step-IsSound _ _ (starts c ok p fresh) h = start_child-IsSound c ok p fresh h
Step-IsSound _ _ (releases c p one) h = release-IsSound c p one h
Step-IsSound _ _ (exits c p) h = remove-IsSound c p h
Step-IsSound _ _ (cleans p) h =
    remove_all-IsSound (p.retained ++ get_all_free p.free) new new-IsSound

-- However children are retained and released, exit and are cleaned away, also while calls of
-- `retain` wait for new children, if a new child has a process id that is not in the pool when it
-- is initialized and only retained children are released, no child is in two places: none is
-- retained while it is free, and none is free twice, for the same or for two files.
pub one_place :
    (p : ChildPool) → Reaches new p → (n : ℕ) → count n p.retained + count_free n p.free ≤ 1
one_place _ here n = new-IsSound n
one_place _ (onward q r reach s) n = Step-IsSound q r s (one_place q reach) n
