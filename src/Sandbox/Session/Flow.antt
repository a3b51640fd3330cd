-- ===== src/Sandbox/Session/Flow.antt =====
-- Where the order to process a job is, while a call waits: on its way to the child, in its
-- processor, or in an answer on its way back.
use bullmq.Shared.{
  ℕ, ◌≡◌, refl, ap, ◌∙◌, subst, append-nil, Bool-cases, ◌⊎◌, inl, inr, if◌then◌else◌, Bool, true,
  false, List, [], ◌∷◌, ◌++◌, Option, none, some, keep, keep-append, Outcome, returns, throws,
  arith,
}
use bullmq.Sandbox.{
  ParentCommand, completed, failed, error, progress, log, move_to_delayed, move_to_wait, update,
  get_children_values, get_ignored_children_failures, get_dependencies_count,
  move_to_waiting_children, get_dependencies, init_failed, init_completed, ChildCommand, init,
  start, stop, cancel, get_children_values_response, get_ignored_children_failures_response,
  get_dependencies_count_response, move_to_waiting_children_response, get_dependencies_response,
  Value, plain, ChildMessage, Reaction, resolves, rejects, calls, ignores, react,
}
use bullmq.Sandbox.ChildProcessor.{Command, Current, nothing, processing, answering, or_null}
use bullmq.Sandbox.Session.{Failure, remote, unexpected_exit, call_failed, Call}

abbrev pub is_start : ChildCommand → Bool
is_start start = true
is_start init = false
is_start stop = false
is_start cancel = false
is_start get_children_values_response = false
is_start get_ignored_children_failures_response = false
is_start get_dependencies_count_response = false
is_start move_to_waiting_children_response = false
is_start get_dependencies_response = false

abbrev pub is_end : ParentCommand → Bool
is_end completed = true
is_end failed = true
is_end error = true
is_end progress = false
is_end log = false
is_end move_to_delayed = false
is_end move_to_wait = false
is_end update = false
is_end get_children_values = false
is_end get_ignored_children_failures = false
is_end get_dependencies_count = false
is_end move_to_waiting_children = false
is_end get_dependencies = false
is_end init_failed = false
is_end init_completed = false

abbrev pub running : Current → List ℕ
running nothing = []
running answering = []
running (processing j t) = j ∷ []

module _ {V : Type 0} where
  abbrev pub starts : List (Command V) → List ℕ
  starts [] = []
  starts (m ∷ ms) = let rest = starts ms in if is_start m.cmd then m.job ∷ rest else rest

  abbrev pub ends : List (ChildMessage V) → List (ChildMessage V)
  ends ms = keep (λ m. is_end m.cmd) ms

  pub starts-append : (xs ys : List (Command V)) → starts (xs ++ ys) ≡ starts xs ++ starts ys
  starts-append [] ys = refl
  starts-append (x ∷ xs) ys = ground (arith, starts-append xs ys)

  pub starts-cons :
      (m : Command V) (ms : List (Command V))
      → ((is_start m.cmd ≡ true) × (starts (m ∷ ms) ≡ m.job ∷ starts ms))
        ⊎ ((is_start m.cmd ≡ false) × (starts (m ∷ ms) ≡ starts ms))
  starts-cons m ms = elim (Bool-cases (is_start m.cmd)) [
    | inl e ↦ inl (e, rw e)
    | inr e ↦ inr (e, rw e)
  ]

  pub ends-append : (xs ys : List (ChildMessage V)) → ends (xs ++ ys) ≡ ends xs ++ ends ys
  ends-append xs ys = keep-append (λ m. is_end m.cmd) xs ys

  pub ends-append_none : (xs ys : List (ChildMessage V)) → ends ys ≡ [] → ends (xs ++ ys) ≡ ends xs
  ends-append_none xs ys e = ends-append xs ys ∙ ap (λ zs. ends xs ++ zs) e ∙ append-nil (ends xs)

  pub starts-append_none :
      (xs ys : List (Command V)) → starts ys ≡ [] → starts (xs ++ ys) ≡ starts xs
  starts-append_none xs ys e =
      starts-append xs ys ∙ ap (λ zs. starts xs ++ zs) e ∙ append-nil (starts xs)

  -- The processor has given `o` for the job n.
  abbrev pub Gave : ℕ → Outcome V (Value V) → List (ℕ × Outcome V (Value V)) → Type 0
  Gave n o [] = ⊥
  Gave n o ((m, p) ∷ ps) = ((m ≡ n) × (p ≡ o)) ⊎ Gave n o ps

  pub Gave-append :
      (n : ℕ) (o : Outcome V (Value V)) (ps qs : List (ℕ × Outcome V (Value V)))
      → Gave n o ps
      → Gave n o (ps ++ qs)
  Gave-append n o [] qs g = absurd g
  Gave-append n o ((m, p) ∷ ps) qs (inl e) = inl e
  Gave-append n o ((m, p) ∷ ps) qs (inr g) = inr (Gave-append n o ps qs g)

  pub Gave-last :
      (n : ℕ) (o : Outcome V (Value V)) (ps : List (ℕ × Outcome V (Value V)))
      → Gave n o (ps ++ (n, o) ∷ [])
  Gave-last n o [] = inl (refl, refl)
  Gave-last n o ((m, p) ∷ ps) = inr (Gave-last n o ps)

  -- How a call settles by what the processor has given.
  abbrev pub outcome_of : Outcome V (Value V) → Outcome (Failure V) (Value V)
  outcome_of (returns v) = returns (or_null v)
  outcome_of (throws e) = throws (remote (plain e))

  -- A call that fails for another reason: the child was not idle, or its process has ended.
  abbrev pub IsOther : V → Outcome (Failure V) (Value V) → Type 0
  IsOther refusal (returns v) = ⊥
  IsOther refusal (throws (remote e)) = e ≡ plain refusal
  IsOther refusal (throws (unexpected_exit code signal)) = Unit
  IsOther refusal (throws (call_failed e)) = ⊥

  abbrev pub IsExplained :
      V → List (ℕ × Outcome V (Value V)) → ℕ → Outcome (Failure V) (Value V) → Type 0
  IsExplained refusal given n out =
      ((o : Outcome V (Value V)) × Gave n o given × (out ≡ outcome_of o)) ⊎ IsOther refusal out

  pub IsExplained-append :
      (refusal : V) (given more : List (ℕ × Outcome V (Value V))) (n : ℕ)
      (out : Outcome (Failure V) (Value V))
      → IsExplained refusal given n out
      → IsExplained refusal (given ++ more) n out
  IsExplained-append refusal given more n out (inl (o, g, e)) =
      inl (o, Gave-append n o given more g, e)
  IsExplained-append refusal given more n out (inr x) = inr x

  abbrev pub Explains : V → List (ℕ × Outcome V (Value V)) → ℕ → Reaction V → Type 0
  Explains refusal given n (resolves v) = IsExplained refusal given n (returns v)
  Explains refusal given n (rejects e) = IsExplained refusal given n (throws (remote e))
  Explains refusal given n (calls c r) = ⊥
  Explains refusal given n ignores = ⊥

  abbrev pub Flow :
      V
      → List (ℕ × Outcome V (Value V))
      → Option ℕ
      → List ℕ
      → List ℕ
      → List (ChildMessage V)
      → Type 0
  Flow refusal given none asked run back = (asked ≡ []) × (run ≡ []) × (back ≡ [])
  Flow refusal given (some n) asked run back =
      ((asked ≡ n ∷ []) × (run ≡ []) × (back ≡ []))
      ⊎ (((asked ≡ []) × (run ≡ n ∷ []) × (back ≡ []))
          ⊎ ((asked ≡ [])
              × (run ≡ [])
              × ((m : ChildMessage V) × (back ≡ m ∷ []) × Explains refusal given n (react m))))

  abbrev pub unsettled : ℕ → Option (Outcome (Failure V) (Value V)) → Option ℕ
  unsettled n none = some n
  unsettled n (some o) = none

  -- The number of the call that waits, if one does.
  abbrev pub waiting_call : Option (Call V) → Option ℕ
  waiting_call none = none
  waiting_call (some c) = unsettled c.number c.settled

  abbrev pub SettledWell :
      V → List (ℕ × Outcome V (Value V)) → ℕ → Option (Outcome (Failure V) (Value V)) → Type 0
  SettledWell refusal given n none = Unit
  SettledWell refusal given n (some o) = IsExplained refusal given n o

  abbrev pub CallIsExplained : V → List (ℕ × Outcome V (Value V)) → Option (Call V) → Type 0
  CallIsExplained refusal given none = Unit
  CallIsExplained refusal given (some c) = SettledWell refusal given c.number c.settled

module _ {V : Type 0} (refusal : V) (given : List (ℕ × Outcome V (Value V))) where
  -- At one place there is all that there is.
  pub Flow-start :
      (w : Option ℕ) (a : ℕ) (asked run : List ℕ) (back : List (ChildMessage V))
      → Flow refusal given w (a ∷ asked) run back
      → (w ≡ some a) × (asked ≡ []) × (run ≡ []) × (back ≡ [])
  Flow-start none a asked run back f = absurd (cc)
  Flow-start (some n) a asked run back (inl f) = (cc, cc, f.1, f.2)
  Flow-start (some n) a asked run back (inr (inl f)) = absurd (cc)
  Flow-start (some n) a asked run back (inr (inr f)) = absurd (cc)

  pub Flow-run :
      (w : Option ℕ) (a : ℕ) (asked run : List ℕ) (back : List (ChildMessage V))
      → Flow refusal given w asked (a ∷ run) back
      → (w ≡ some a) × (asked ≡ []) × (run ≡ []) × (back ≡ [])
  Flow-run none a asked run back f = absurd (cc)
  Flow-run (some n) a asked run back (inl f) = absurd (cc)
  Flow-run (some n) a asked run back (inr (inl f)) = (cc, f.0, cc, f.2)
  Flow-run (some n) a asked run back (inr (inr f)) = absurd (cc)

  pub Flow-end :
      (w : Option ℕ) (m : ChildMessage V) (asked run : List ℕ) (back : List (ChildMessage V))
      → Flow refusal given w asked run (m ∷ back)
      → (n : ℕ) × (w ≡ some n)
        × (asked ≡ [])
        × (run ≡ [])
        × (back ≡ [])
        × Explains refusal given n (react m)
  Flow-end none m asked run back f = absurd (cc)
  Flow-end (some n) m asked run back (inl f) = absurd (cc)
  Flow-end (some n) m asked run back (inr (inl f)) = absurd (cc)
  Flow-end (some n) m asked run back (inr (inr (a, r, (k, e, x)))) =
      let same : k ≡ m = cc in
      (n, refl, a, r, cc, subst (λ j. Explains refusal given n (react j)) same x)

  -- What is equal place by place is as good.
  pub Flow-cong :
      (w w' : Option ℕ) (asked asked' run run' : List ℕ) (back back' : List (ChildMessage V))
      → Flow refusal given w asked run back
      → w ≡ w'
      → asked ≡ asked'
      → run ≡ run'
      → back ≡ back'
      → Flow refusal given w' asked' run' back'
  Flow-cong w w' asked asked' run run' back back' f a b c d =
      subst (λ u. Flow refusal given u asked' run' back') a
        (subst (λ u. Flow refusal given w u run' back') b
          (subst (λ u. Flow refusal given w asked u back') c
            (subst (λ u. Flow refusal given w asked run u) d f)))

  -- What was explained stays so when the processor gives more.
  pub CallIsExplained-append :
      (c : Option (Call V)) (more : List (ℕ × Outcome V (Value V)))
      → CallIsExplained refusal given c
      → CallIsExplained refusal (given ++ more) c
  CallIsExplained-append none more h = tt
  CallIsExplained-append (some c) more h = go c.settled h
    where
      go :
          (o : Option (Outcome (Failure V) (Value V)))
          → SettledWell refusal given c.number o
          → SettledWell refusal (given ++ more) c.number o
      go none h = tt
      go (some o) h = IsExplained-append refusal given more c.number o h
