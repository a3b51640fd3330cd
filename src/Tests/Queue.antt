-- ===== src/Tests/Queue.antt =====
-- Runs of the models of src/classes/queue.ts.
use bullmq.Shared.{ℕ, zero, suc, ◌+◌, ◌≤◌, ◌≡◌, refl, [], ◌∷◌, some, length, arith}
use bullmq.Queue.{Cleaned, CleanCall, cleaned, clean, clean_loop}
use bullmq.Queue.Cleaning.{IsLimited, most, clean-bounds}

-- A backend with so many jobs, which deletes one of them with each call.
abbrev singly : CleanCall ℕ
singly n zero = ([], 0)
singly zero (suc s) = ([], suc s)
singly (suc n) (suc s) = ("j" ∷ [], s)

singly-IsLimited : IsLimited singly
singly-IsLimited n zero = omega arith
singly-IsLimited zero (suc s) = omega arith
singly-IsLimited (suc n) (suc s) = omega arith

clean-bounds_example :
    (d : Cleaned ℕ) × (clean 2 singly 1 "waiting" 5 ≡ some d) × (length d.ids ≤ most 1)
clean-bounds_example = clean-bounds singly 1 "waiting" 5 singly-IsLimited (omega arith)

-- A backend that always deletes two jobs when asked for two.
abbrev by_twos : CleanCall ℕ
by_twos n s = ("a" ∷ "b" ∷ [], s + 2)

-- With 2 jobs in a call and a limit of 3, 4 jobs are deleted.
passes_limit :
    clean_loop 3 by_twos "wait" (some 3) 2 0 (record { ids = []; events = []; backend = 0 })
    ≡ some (record {
      ids = "a" ∷ "b" ∷ "a" ∷ "b" ∷ [];
      events = cleaned ("a" ∷ "b" ∷ []) "wait" ∷ cleaned ("a" ∷ "b" ∷ []) "wait" ∷ [];
      backend = 4;
    })
unfolding clean_loop
passes_limit = refl
