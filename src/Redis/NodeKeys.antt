-- ===== src/Redis/NodeKeys.antt =====
-- `parseNodeKey` of src/classes/redis-queue-backend.ts. A key is the list of its codes.
use bullmq.Shared.{
  ℕ, zero, suc, ◌+◌, ◌-◌, ◌≤◌, ◌<◌, ◌≡◌, refl, ap, subst, ◌∙◌, ◌==◌, if◌then◌else◌, false, List, [],
  ◌∷◌, ◌++◌, Option, none, some, length, take, drop, any, arith, append_assoc, length-append,
}
use bullmq.Job.Options.{split_colon}

pub record NodeKey : Type 0 where
  pub prefix : List ℕ
  pub queue_name : List ℕ
  pub id : List ℕ

-- `key.lastIndexOf(char, from)`.
unfoldable pub last_index_of : ℕ → ℕ → List ℕ → Option ℕ
last_index_of c from [] = none
last_index_of c zero (x ∷ xs) = if x == c then some 0 else none
last_index_of c (suc from) (x ∷ xs) = elim (last_index_of c from xs) [
  | some i ↦ some (suc i)
  | none ↦ if x == c then some 0 else none
]

-- `const [prefix = '', queueName = '', id = ''] = parts`.
abbrev of_parts : List (List ℕ) → NodeKey
of_parts [] = record { prefix = []; queue_name = []; id = [] }
of_parts (p ∷ []) = record { prefix = p; queue_name = []; id = [] }
of_parts (p ∷ (q ∷ [])) = record { prefix = p; queue_name = q; id = [] }
of_parts (p ∷ (q ∷ (i ∷ ps))) = record { prefix = p; queue_name = q; id = i }

abbrev slice : ℕ → ℕ → List ℕ → List ℕ
slice from to key = take (to - from) (drop from key)

-- `lastIndexOf` takes a start below 0 for 0.
unfoldable pub parse_node_key : List ℕ → NodeKey
unfolding last_index_of split_colon
parse_node_key key = elim (last_index_of b':' (length key) key) [
  | none ↦ of_parts (split_colon key)
  | some last ↦ elim (last_index_of b':' (last - 1) key) [
    | none ↦ of_parts (split_colon key)
    | some prev ↦ record {
      prefix = slice 0 prev key;
      queue_name = slice (suc prev) last key;
      id = drop (suc last) key;
    }
  ]
]

-- No colon in the first places.
last_index_of-none :
    (c : ℕ) (from : ℕ) (a r : List ℕ)
    → any (λ x. x == c) a ≡ false
    → from < length a
    → last_index_of c from (a ++ r) ≡ none
unfolding last_index_of
last_index_of-none c from [] r h g = absurd (omega arith)
last_index_of-none c zero (x ∷ a) r h g = ground arith
last_index_of-none c (suc from) (x ∷ a) r h g =
    rw (last_index_of-none c from a r (ground arith) (omega arith)) (ground arith)

-- No colon at all.
last_index_of-free :
    (c : ℕ) (from : ℕ) (a : List ℕ) → any (λ x. x == c) a ≡ false → last_index_of c from a ≡ none
unfolding last_index_of
last_index_of-free c from [] h = refl
last_index_of-free c zero (x ∷ a) h = ground arith
last_index_of-free c (suc from) (x ∷ a) h =
    rw (last_index_of-free c from a (ground arith)) (ground arith)

-- The last colon, behind a prefix that may have others.
last_index_of-found :
    (c : ℕ) (from : ℕ) (p s : List ℕ)
    → length p ≤ from
    → ((n : ℕ) → from ≡ suc (length p + n) → last_index_of c n s ≡ none)
    → last_index_of c from (p ++ c ∷ s) ≡ some (length p)
unfolding last_index_of
last_index_of-found c zero [] s h g = ground arith
last_index_of-found c (suc n) [] s h g = rw (g n (omega arith), last_index_of) (ground arith)
last_index_of-found c zero (x ∷ p) s h g = absurd (omega arith)
last_index_of-found c (suc from) (x ∷ p) s h g =
    rw (last_index_of-found c from p s (omega arith) (λ n e. g n (omega arith))) refl

take_prefix : (p r : List ℕ) → take (length p) (p ++ r) ≡ p
take_prefix [] r = refl
take_prefix (x ∷ p) r = ap (λ t. x ∷ t) (take_prefix p r)

drop_prefix : (p r : List ℕ) → drop (length p) (p ++ r) ≡ r
drop_prefix [] r = refl
drop_prefix (x ∷ p) r = drop_prefix p r

behind : (c : ℕ) (p r : List ℕ) → drop (suc (length p)) (p ++ c ∷ r) ≡ r
behind c [] r = refl
behind c (x ∷ p) r = behind c p r

taken_at :
    (key : List ℕ) (last prev : ℕ)
    → last_index_of b':' (length key) key ≡ some last
    → last_index_of b':' (last - 1) key ≡ some prev
    → parse_node_key key ≡ record {
      prefix = slice 0 prev key;
      queue_name = slice (suc prev) last key;
      id = drop (suc last) key;
    }
unfolding parse_node_key
taken_at key last prev e f = rw (e, f, parse_node_key) refl

node_key :
    {p p' q q' i i' : List ℕ}
    → p ≡ p'
    → q ≡ q'
    → i ≡ i'
    → ◌≡◌ {A = NodeKey}
        (record { prefix = p; queue_name = q; id = i })
        (record { prefix = p'; queue_name = q'; id = i' })
node_key e f g = cc

-- The key of a job is taken apart into what it was put together from, if neither the name of the
-- queue nor the id has a colon; the prefix may have some.
pub parse_node_key-of_key :
    (prefix queue_name id : List ℕ)
    → any (λ x. x == b':') queue_name ≡ false
    → any (λ x. x == b':') id ≡ false
    → parse_node_key (prefix ++ b':' ∷ (queue_name ++ b':' ∷ id))
      ≡ record { prefix = prefix; queue_name = queue_name; id = id }
parse_node_key-of_key prefix queue_name id hq hi =
    let front = prefix ++ b':' ∷ queue_name in
    let key = prefix ++ b':' ∷ (queue_name ++ b':' ∷ id) in
    let e : front ++ b':' ∷ id ≡ key = append_assoc prefix (b':' ∷ queue_name) (b':' ∷ id) in
    let m : length front ≡ suc (length prefix + length queue_name) =
      length-append prefix (b':' ∷ queue_name) ∙ omega arith in
    let last : last_index_of b':' (length key) key ≡ some (length front) =
      subst (λ k. last_index_of b':' (length key) k ≡ some (length front)) e
        (last_index_of-found b':' (length key) front id
          (omega (arith, length-append front (b':' ∷ id), ap length e))
          (λ n k. last_index_of-free b':' n id hi)) in
    let prev : last_index_of b':' (length front - 1) key ≡ some (length prefix) =
      last_index_of-found b':' (length front - 1) prefix (queue_name ++ b':' ∷ id)
        (omega (arith, m))
        (λ n k. last_index_of-none b':' n queue_name (b':' ∷ id) hq (omega (arith, m))) in
    let f : slice 0 (length prefix) key ≡ prefix =
      ap (λ n. take n key) {x = length prefix - 0} (omega arith) ∙ take_prefix prefix _ in
    let g : slice (suc (length prefix)) (length front) key ≡ queue_name =
      ap (λ t. take (length front - suc (length prefix)) t) (behind b':' prefix _)
      ∙ (ap (λ n. take n (queue_name ++ b':' ∷ id)) {y = length queue_name} (omega (arith, m))
          ∙ take_prefix queue_name _) in
    let h : drop (suc (length front)) key ≡ id =
      subst (λ k. drop (suc (length front)) k ≡ id) e (behind b':' front id) in
    taken_at key (length front) (length prefix) last prev ∙ node_key f g h
