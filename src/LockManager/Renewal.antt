-- ===== src/LockManager/Renewal.antt =====
-- Which locks a tick of the timer of src/classes/lock-manager.ts extends.
use bullmq.Shared.{
  ℕ, ltb, ◌*◌, ◌-◌, ◌==◌, ◌===◌, ===_iff, if◌then◌else◌, not, ◌&&◌, ◌||◌, Bool, true, false, List,
  [], ◌∷◌, ◌++◌, append_assoc, append-nil, map, Option, none, some, String, keep, Dict, get, put,
  keys, get-put, has, has-keys, fun_ext, IsDistinct, IsDistinct-ne, keep_cong, All-map, ◌≡◌, refl,
  sym, ap, ◌∙◌, inl, inr, arith, Option-cases,
}
use bullmq.LockManager.{
  LockManager, Tracked, Extend, is_due, renew_key, renew_keys, fire, send, token_or_empty,
}

-- More than half of the renewal time has passed since the time stamp.
abbrev pub is_half_past : ℕ → ℕ → Tracked → Bool
is_half_past renew now t = ltb renew (2 * (now - t.ts))

is_due-is_half_past : (renew now : ℕ) (t : Tracked) → is_due renew now t ≡ is_half_past renew now t
unfolding is_due
is_due-is_half_past renew now t = ground arith

-- The entry after a tick at `now`.
abbrev pub refreshed : ℕ → ℕ → Option Tracked → Option Tracked
refreshed renew now none = none
refreshed renew now (some t) =
    if t.ts == 0 || is_half_past renew now t then some (record t { ts = now }) else some t

-- Whether the lock is to be extended.
abbrev pub extends : ℕ → ℕ → Option Tracked → Bool
extends renew now none = false
extends renew now (some t) = not (t.ts == 0) && is_half_past renew now t

module _ (renew now : ℕ) where
  renew_key-none :
      (id : String) (m : Dict Tracked) (due : List String)
      → get id m ≡ none
      → renew_key renew now id (m, due) ≡ (m, due)
  unfolding renew_key
  renew_key-none id m due e = rw (e, renew_key)

  renew_key-some :
      (id : String) (m : Dict Tracked) (due : List String) (t : Tracked)
      → get id m ≡ some t
      → renew_key renew now id (m, due) ≡ (
        if t.ts == 0 || is_half_past renew now t then put id (record t { ts = now }) m else m,
        if extends renew now (some t) then due ++ id ∷ [] else due,
      )
  unfolding renew_key
  renew_key-some id m due t e =
      rw (e, renew_key, is_due-is_half_past renew now t) (go (t.ts == 0) (is_half_past renew now t))
    where
      m' : Dict Tracked
      m' = put id (record t { ts = now }) m

      go :
          (a b : Bool)
          → ◌≡◌ {A = Dict Tracked × List String}
              (if a then (m', due) else if b then (m', due ++ id ∷ []) else (m, due))
              (if a || b then m' else m, if not a && b then due ++ id ∷ [] else due)
      go true b = refl
      go false true = refl
      go false false = refl

  get-renew_key :
      (id j : String) (m : Dict Tracked) (due : List String)
      → get j (renew_key renew now id (m, due)).0
        ≡ (if id === j then refreshed renew now (get j m) else get j m)
  get-renew_key id j m due = elim (Option-cases (get id m)) [
    | inl e ↦ rw (renew_key-none id m due e) (ground (arith, ===_iff id j))
    | inr (t, e) ↦
        rw (renew_key-some id m due t e)
          (ground (arith, ===_iff id j, get-put id j (record t { ts = now }) m))
  ]

  due-renew_key :
      (id : String) (m : Dict Tracked) (due : List String)
      → (renew_key renew now id (m, due)).1
        ≡ (if extends renew now (get id m) then due ++ id ∷ [] else due)
  due-renew_key id m due = elim (Option-cases (get id m)) [
    | inl e ↦ rw (renew_key-none id m due e, e)
    | inr (t, e) ↦ rw (renew_key-some id m due t e, e)
  ]

  refreshed_twice :
      (o : Option Tracked) → refreshed renew now (refreshed renew now o) ≡ refreshed renew now o
  refreshed_twice none = refl
  refreshed_twice (some t) = ground arith

  get-renew_keys :
      (ids : List String) (j : String) (m : Dict Tracked) (due : List String)
      → get j (renew_keys renew now ids (m, due)).0
        ≡ (if has ids j then refreshed renew now (get j m) else get j m)
  unfolding renew_keys
  get-renew_keys [] j m due = refl
  get-renew_keys (id ∷ ids) j m due =
      let (m', due') = renew_key renew now id (m, due) in
      get-renew_keys ids j m' due'
      ∙ ground (arith, get-renew_key id j m due, refreshed_twice (get j m))

  due-renew_keys :
      (ids : List String) (m : Dict Tracked) (due : List String)
      → IsDistinct ids
      → (renew_keys renew now ids (m, due)).1 ≡ due ++ keep (λ k. extends renew now (get k m)) ids
  unfolding renew_keys
  due-renew_keys [] m due h = sym (append-nil due)
  due-renew_keys (id ∷ ids) m due h =
      let (m', due') = renew_key renew now id (m, due) in
      let same =
        keep_cong (λ k. extends renew now (get k m')) (λ k. extends renew now (get k m)) ids
          (All-map (λ j. (id === j) ≡ false) _ ids
            (λ j e. ap (extends renew now) (
              get-renew_key id j m due
              ∙ ap (λ b. if b then refreshed renew now (get j m) else get j m) e))
            (IsDistinct-ne id ids h.0)) in
      due-renew_keys ids m' due' h.1
      ∙ ground (
        arith,
        due-renew_key id m due,
        same,
        append_assoc due (id ∷ []) (keep (λ k. extends renew now (get k m)) ids),
      )

abbrev pub ids_of : Option Extend → List String
ids_of none = []
ids_of (some e) = e.job_ids

abbrev pub tokens_of : Option Extend → List String
tokens_of none = []
tokens_of (some e) = e.tokens

-- The token of a job that is tracked.
abbrev pub token_in : Dict Tracked → String → String
token_in m id = token_or_empty (get id m)

send_lem :
    (due : List String) (m : LockManager)
    → ((send due m).0.tracked ≡ m.tracked)
      × (ids_of (send due m).1 ≡ due)
      × (tokens_of (send due m).1 ≡ map (token_in m.tracked) due)
unfolding send
send_lem [] m = (ground arith, refl, refl)
send_lem (id ∷ ids) m = (refl, refl, refl)

token-refreshed :
    (renew now : ℕ) (o : Option Tracked) → token_or_empty (refreshed renew now o) ≡ token_or_empty o
token-refreshed renew now none = refl
token-refreshed renew now (some t) = ground arith

get-renewed :
    (renew now : ℕ) (id : String) (m : Dict Tracked)
    → get id (renew_keys renew now (keys m) (m, [])).0 ≡ refreshed renew now (get id m)
get-renewed renew now id m =
    get-renew_keys renew now (keys m) id m [] ∙ ground (arith, has-keys id m)

token-renewed :
    (renew now : ℕ) (id : String) (m : Dict Tracked)
    → token_in (renew_keys renew now (keys m) (m, [])).0 id ≡ token_in m id
token-renewed renew now id m =
    ap token_or_empty (get-renewed renew now id m) ∙ token-refreshed renew now (get id m)

-- A tick of the timer at `now`, while the tracked ids are distinct: every job with a time stamp
-- that is more than half of `lockRenewTime` in the past has its lock extended, under its own token
-- and in the order of tracking, and no other job has; a job that is extended, and one that had no
-- time stamp, is stamped `now`, and nothing else changes in the jobs that are tracked.
pub fire-extends_due :
    (now : ℕ) (m : LockManager)
    → IsDistinct (keys m.tracked)
    → let renew = m.opts.lock_renew_time in
      let due = keep (λ id. extends renew now (get id m.tracked)) (keys m.tracked) in
      let (m', call) = fire now m in
      ((id : String) → get id m'.tracked ≡ refreshed renew now (get id m.tracked))
      × (ids_of call ≡ due)
      × (tokens_of call ≡ map (token_in m.tracked) due)
unfolding fire
fire-extends_due now m h =
    let renew = m.opts.lock_renew_time in
    let r = renew_keys renew now (keys m.tracked) (m.tracked, []) in
    let sent = send_lem r.1 (record m { tracked = r.0 }) in
    let due = due-renew_keys renew now (keys m.tracked) m.tracked [] h in
    (
      λ id. ap (get id) sent.0 ∙ get-renewed renew now id m.tracked,
      sent.1 ∙ due,
      sent.2
          ∙ ap (λ f. map f r.1) (fun_ext (λ id. token-renewed renew now id m.tracked))
          ∙ ap (map (token_in m.tracked)) due,
    )
