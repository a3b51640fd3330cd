-- ===== src/Fifo/LinkedList.antt =====
-- `Node` and `LinkedList` of src/classes/async-fifo-queue.ts. Nodes live on a heap: an address is a
-- number, `cells` gives the node at each, and `fresh` is the next address that `new` hands out.
pub mod Holds
use bullmq.Shared.{ℕ, ◌+◌, ◌-◌, ◌==◌, if◌then◌else◌, Option, none, some}

pub record Node {ℓ} (A : Type ℓ) : Type ℓ where
  pub value : A
  pub next : Option ℕ

pub record LinkedList {ℓ} (A : Type ℓ) : Type ℓ where
  pub length : ℕ
  pub head : Option ℕ
  pub tail : Option ℕ
  pub cells : ℕ → Option (Node A)
  pub fresh : ℕ

module _ {ℓ} {A : Type ℓ} where
  unfoldable pub empty : LinkedList A
  empty = record { length = 0; head = none; tail = none; cells = λ a. none; fresh = 0 }

  unfoldable pub write : ℕ → Node A → (ℕ → Option (Node A)) → ℕ → Option (Node A)
  write a n cells b = if a == b then some n else cells b

  -- `this.tail.next = newNode`; a missing tail is a fault of the program, which is left out here.
  unfoldable pub set_next : Option ℕ → ℕ → (ℕ → Option (Node A)) → ℕ → Option (Node A)
  unfolding write
  set_next none b cells = cells
  set_next (some a) b cells = elim (cells a) [
    | none ↦ cells
    | some n ↦ write a (record n { next = some b }) cells
  ]

  unfoldable pub push : A → LinkedList A → LinkedList A
  unfolding set_next write
  push v l =
      let a = l.fresh in
      let allocated = write a (record { value = v; next = none }) l.cells in
      if l.length == 0
      then record {
        length = l.length + 1;
        head = some a;
        tail = some a;
        cells = allocated;
        fresh = a + 1;
      }
      else record l {
        length = l.length + 1;
        tail = some a;
        cells = set_next l.tail a allocated;
        fresh = a + 1;
      }

  -- The node at an address, `none` for `null`.
  unfoldable pub deref : Option ℕ → (ℕ → Option (Node A)) → Option (Node A)
  deref none cells = none
  deref (some a) cells = cells a

  abbrev next_of : Option (Node A) → Option ℕ
  next_of none = none
  next_of (some n) = n.next

  unfoldable pub shift : LinkedList A → Option (Node A) × LinkedList A
  unfolding deref
  shift l =
      let head = deref l.head l.cells in
      if l.length == 0
      then (none, l)
      else (head, record l { head = next_of head; length = l.length - 1 })
