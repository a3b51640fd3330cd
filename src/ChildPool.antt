-- ===== src/ChildPool.antt =====
-- The class `ChildPool` of src/classes/child-pool.ts. A child is known by its process id; processes
-- themselves, their signals and their start are the environment's.
pub mod Places
use bullmq.Shared.{
  ℕ, suc, ◌+◌, ◌==◌, ◌≡◌, if◌then◌else◌, not, Bool, true, false, List, [], ◌∷◌, ◌++◌, Option, none,
  some, String, keep, Dict, get, put,
}

pub record Child : Type 0 where
  pub pid : ℕ
  pub process_file : String

pub record ChildPool : Type 0 where
  pub retained : List Child
  pub free : Dict (List Child)

unfoldable pub new : ChildPool
new = record { retained = []; free = [] }

abbrev pub or_nil : Option (List Child) → List Child
or_nil none = []
or_nil (some cs) = cs

-- `getFree` without its default entry, which `put` makes when it is needed.
unfoldable pub get_free : String → ChildPool → List Child
get_free file p = or_nil (get file p.free)

unfoldable pub get_all_free : Dict (List Child) → List Child
get_all_free [] = []
get_all_free ((file, cs) ∷ m) = cs ++ get_all_free m

-- `delete this.retained[child.pid]`, and the assignment to that key.
unfoldable pub delete_retained : Child → List Child → List Child
delete_retained c cs = keep (λ d. not (d.pid == c.pid)) cs

unfoldable pub set_retained : Child → List Child → List Child
unfolding delete_retained
set_retained c cs = c ∷ delete_retained c cs

-- `cs.pop()`: the last entry, and the others.
unfoldable pub pop : List Child → Option (Child × List Child)
pop [] = none
pop (c ∷ cs) = elim (pop cs) [ none ↦ some (c, []) | some (d, ds) ↦ some (d, c ∷ ds) ]

-- What `splice` at `indexOf(child)` leaves, if the child is there.
unfoldable pub splice : Child → List Child → List Child
splice c [] = []
splice c (d ∷ ds) = let rest = splice c ds in if d.pid == c.pid then ds else d ∷ rest

unfoldable pub remove : Child → ChildPool → ChildPool
unfolding delete_retained get_free splice
remove c p = record {
  retained = delete_retained c p.retained;
  free = put c.process_file (splice c (get_free c.process_file p)) p.free;
}

-- What `retain` does with a new child and gives, once `child.init()` is over: `ok` says that the
-- child is initialized and has not exited meanwhile.
unfoldable pub start_child : Child → Bool → ChildPool → Option Child × ChildPool
unfolding set_retained remove
start_child c ok p =
    if ok then (some c, record p { retained = set_retained c p.retained }) else (none, remove c p)

abbrev reuse : String → Option (Child × List Child) → ChildPool → Option Child × ChildPool
reuse file none p = (none, p)
reuse file (some (d, ds)) p =
    (some d, record { retained = set_retained d p.retained; free = put file ds p.free })

-- `retain` up to its wait: a free child is taken, and with `none` a new child is created, which is
-- in no list of the pool while `child.init()` runs; `start_child` is what follows.
unfoldable pub retain : String → ChildPool → Option Child × ChildPool
unfolding get_free pop
retain file p = reuse file (pop (get_free file p)) p

unfoldable pub release : Child → ChildPool → ChildPool
unfolding delete_retained get_free
release c p = record {
  retained = delete_retained c p.retained;
  free = put c.process_file (get_free c.process_file p ++ c ∷ []) p.free;
}

abbrev pub remove_all : List Child → ChildPool → ChildPool
remove_all [] p = p
remove_all (c ∷ cs) p = remove_all cs (remove c p)

-- `clean`: the pool is emptied, then every child of before is killed, which removes it.
unfoldable pub clean : ChildPool → ChildPool
unfolding get_all_free new remove
clean p = remove_all (p.retained ++ get_all_free p.free) new
