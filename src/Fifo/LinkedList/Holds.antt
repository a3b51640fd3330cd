-- ===== src/Fifo/LinkedList/Holds.antt =====
-- What a list of nodes of src/classes/async-fifo-queue.ts holds, and that `push` and `shift` are
-- those of a first-in first-out list.
use bullmq.Shared.{
  ℕ, suc, ◌+◌, ◌≤◌, ◌<◌, ◌≡◌, refl, List, [], ◌∷◌, ◌++◌, Option, none, some, arith, length,
  length-append,
}
use bullmq.Fifo.LinkedList.{Node, LinkedList, empty, push, shift, write, set_next, deref}

module _ {ℓ} {A : Type ℓ} where
  -- The nodes from address `a` on hold `x ∷ xs` and end at `tail`; addresses rise along the list.
  abbrev Chain : (ℕ → Option (Node A)) → ℕ → A → List A → ℕ → Option ℕ → Type ℓ
  Chain cells n x [] a tail =
      (cells a ≡ some (record { value = x; next = none })) × (tail ≡ some a) × (a < n)
  Chain cells n x (y ∷ ys) a tail =
      (b : ℕ) × (cells a ≡ some (record { value = x; next = some b }))
      × (a < b)
      × Chain cells n y ys b tail

  abbrev Segment : (ℕ → Option (Node A)) → ℕ → List A → Option ℕ → Option ℕ → Type ℓ
  Segment cells n [] head tail = Unit
  Segment cells n (x ∷ xs) head tail = (a : ℕ) × (head ≡ some a) × Chain cells n x xs a tail

  -- The list holds these values, oldest first.
  pub record Holds (l : LinkedList A) (xs : List A) : Type ℓ where
    pub counted : l.length ≡ length xs
    pub linked : Segment l.cells l.fresh xs l.head l.tail

  Chain-tail :
      (cells : ℕ → Option (Node A)) (n : ℕ) (x : A) (xs : List A) (a : ℕ) (tail : Option ℕ)
      → Chain cells n x xs a tail
      → (z : ℕ) × (tail ≡ some z) × (a ≤ z) × (z < n)
  Chain-tail cells n x [] a tail (_, e, h) = (a, e, omega arith, h)
  Chain-tail cells n x (y ∷ ys) a tail (b, _, lt, c) =
      let (z, e, le, h) = Chain-tail cells n y ys b tail c in (z, e, omega arith, h)

  -- The cells after a push onto a list that is not empty.
  abbrev appended : (ℕ → Option (Node A)) → ℕ → A → ℕ → ℕ → Option (Node A)
  appended cells n v z = set_next (some z) n (write n (record { value = v; next = none }) cells)

  appended_below :
      (cells : ℕ → Option (Node A)) (n : ℕ) (v : A) (z p : ℕ)
      → p < z
      → z < n
      → appended cells n v z p ≡ cells p
  unfolding set_next write
  appended_below cells n v z p h k = ground arith

  appended_tail :
      (cells : ℕ → Option (Node A)) (n : ℕ) (v x : A) (z : ℕ)
      → z < n
      → cells z ≡ some (record { value = x; next = none })
      → appended cells n v z z ≡ some (record { value = x; next = some n })
  unfolding set_next write
  appended_tail cells n v x z k e = ground arith

  appended_new :
      (cells : ℕ → Option (Node A)) (n : ℕ) (v : A) (z : ℕ)
      → z < n
      → appended cells n v z n ≡ some (record { value = v; next = none })
  unfolding set_next write
  appended_new cells n v z k = ground arith

  Chain-push :
      (cells : ℕ → Option (Node A)) (n : ℕ) (v x : A) (xs : List A) (a z : ℕ)
      → z < n
      → Chain cells n x xs a (some z)
      → Chain (appended cells n v z) (n + 1) x (xs ++ v ∷ []) a (some n)
  Chain-push cells n v x [] a z k (e, t, h) = (
    n,
    ground (arith, appended_tail cells n v x z),
    omega arith,
    (appended_new cells n v z k, refl, omega arith),
  )
  Chain-push cells n v x (y ∷ ys) a z k (b, e, lt, c) =
      let (w, t, le, _) = Chain-tail cells n y ys b (some z) c in
      (
        b,
        ground (arith, t, le, appended_below cells n v z a),
        lt,
        Chain-push cells n v y ys b z k c,
      )

  pub empty-Holds : Holds (empty {A = A}) []
  unfolding empty
  empty-Holds = record { counted = refl; linked = tt }

  push_nil :
      (v : A) (l : LinkedList A)
      → l.length ≡ 0
      → push v l ≡ record {
        length = 1;
        head = some l.fresh;
        tail = some l.fresh;
        cells = write l.fresh (record { value = v; next = none }) l.cells;
        fresh = l.fresh + 1;
      }
  unfolding push
  push_nil v l e = ground arith

  push_cons :
      (v : A) (l : LinkedList A) (k z : ℕ)
      → l.length ≡ suc k
      → l.tail ≡ some z
      → push v l ≡ record l {
        length = suc (suc k);
        tail = some l.fresh;
        cells = appended l.cells l.fresh v z;
        fresh = l.fresh + 1;
      }
  unfolding push
  push_cons v l k z e t = ground arith

  pub push-Holds :
      (v : A) (l : LinkedList A) (xs : List A) → Holds l xs → Holds (push v l) (xs ++ v ∷ [])
  unfolding write
  push-Holds v l [] h =
      rw (push_nil v l h.counted)
        (record { counted = refl; linked = (l.fresh, refl, (ground arith, refl, omega arith)) })
  push-Holds v l (x ∷ xs) h =
      let (a, e, c) = h.linked in
      let (z, t, _, k) = Chain-tail l.cells l.fresh x xs a l.tail c in
      rw (push_cons v l (length xs) z h.counted t) (record {
        counted = omega (arith, length-append xs (v ∷ []));
        linked = (a, e, Chain-push l.cells l.fresh v x xs a z k (rw t at c));
      })

  shift_nil : (l : LinkedList A) → l.length ≡ 0 → shift l ≡ (none, l)
  unfolding shift
  shift_nil l e = ground arith

  shift_cons :
      (l : LinkedList A) (k : ℕ) (n : Node A)
      → l.length ≡ suc k
      → deref l.head l.cells ≡ some n
      → shift l ≡ (some n, record l { head = n.next; length = k })
  unfolding shift
  shift_cons l k n e d = ground arith

  -- What `shift` answers on a list that holds `xs`.
  abbrev pub Shifts : List A → Option (Node A) × LinkedList A → Type ℓ
  Shifts [] (answer, l') = (answer ≡ none) × Holds l' []
  Shifts (x ∷ xs) (answer, l') = (n : Node A) × (answer ≡ some n) × (n.value ≡ x) × Holds l' xs

  pub shift-Shifts : (l : LinkedList A) (xs : List A) → Holds l xs → Shifts xs (shift l)
  unfolding deref
  shift-Shifts l [] h = rw (shift_nil l h.counted) (refl, h)
  shift-Shifts l (x ∷ []) h =
      let (a, e, c) = h.linked in
      let n : Node A = record { value = x; next = none } in
      rw (shift_cons l 0 n h.counted (rw e c.0))
        (n, refl, refl, record { counted = refl; linked = tt })
  shift-Shifts l (x ∷ y ∷ ys) h =
      let (a, e, chain) = h.linked in
      let (b, c, _, rest) = chain in
      let n : Node A = record { value = x; next = some b } in
      rw (shift_cons l (suc (length ys)) n h.counted (rw e c))
        (n, refl, refl, record { counted = refl; linked = (b, refl, rest) })
