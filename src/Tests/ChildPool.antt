-- ===== src/Tests/ChildPool.antt =====
-- A pool of src/classes/child-pool.ts.
use bullmq.Shared.{ℕ, ◌+◌, ◌≤◌, ◌≡◌, refl, true, none, some}
use bullmq.ChildPool.{Child, ChildPool as Pool, new, retain, start_child, release}
use bullmq.ChildPool.Places.{
  retains, starts, releases, Reaches, here, onward, count, count_free, one_place,
}

abbrev child : Child
child = record { pid = 7; process_file = "work.js" }

abbrev other : Child
other = record { pid = 8; process_file = "work.js" }

-- Two calls of `retain` at once, whose children come up in the other order; then one is released.
abbrev started : Pool
started = (start_child child true (start_child other true new).1).1

abbrev released : Pool
released = release child started

waits : retain "work.js" new ≡ (none, new)
unfolding retain new bullmq.Shared.get
waits = refl

reuses : (retain "work.js" released).0 ≡ some child
unfolding retain start_child release new bullmq.Shared.get bullmq.Shared.put
reuses = refl

used : Reaches new (retain "work.js" released).1
unfolding start_child release new
used =
    onward _ _
      (onward _ _
        (onward _ _ (onward _ _ here (starts other true new refl))
          (starts child true (start_child other true new).1 refl))
        (releases child started refl))
      (retains "work.js" released)

one_place_example :
    count 7 (retain "work.js" released).1.retained + count_free 7 (retain "work.js" released).1.free
    ≤ 1
one_place_example = one_place (retain "work.js" released).1 used 7
