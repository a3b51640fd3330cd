-- ===== src/JobScheduler/LegacyKeys/Places.antt =====
-- Places of characters in the keys of src/classes/job-scheduler.ts.
use bullmq.Shared.{
  ℕ, suc, ◌+◌, ◌≡◌, refl, sym, ap, ◌∙◌, subst, inl, inr, ◌==◌, ◌&&◌, Bool, true, false, List, [],
  ◌∷◌, ◌++◌, some, length, get_elem?, any, is_some, arith, append_assoc, length-append,
  Option-cases, Bool-cases,
}
use bullmq.JobScheduler.LegacyKeys.{next_index, index_of, is_digit, digits_from}

abbrev pub has_char : ℕ → List ℕ → Bool
has_char c xs = any (λ x. x == c) xs

abbrev pub all_digits : List ℕ → Bool
all_digits [] = true
all_digits (c ∷ cs) = is_digit c && all_digits cs

-- The first place of a character after a prefix, if there is one.
index_of-after :
    (c : ℕ) (p a r : List ℕ)
    → has_char c a ≡ false
    → index_of c (length p) (p ++ (a ++ c ∷ r)) ≡ some (length p + length a)
unfolding index_of
index_of-after c [] [] r h = ground arith
index_of-after c [] (x ∷ a) r h = ground (arith, index_of-after c [] a r)
index_of-after c (x ∷ p) a r h = ap next_index (index_of-after c p a r h) ∙ ap some (omega arith)

index_of-found :
    (c : ℕ) (p s : List ℕ) (i : ℕ)
    → index_of c (length p) (p ++ s) ≡ some i
    → (a r : List ℕ) × (s ≡ a ++ c ∷ r) × (has_char c a ≡ false) × (i ≡ length p + length a)
unfolding index_of
index_of-found c [] [] i h = absurd (cc)
index_of-found c [] (x ∷ s) i h = elim (Bool-cases (x == c)) [
  | inl e ↦ ([], s, ap (λ y. y ∷ s) (ground arith), refl, ground arith)
  | inr e ↦ elim (Option-cases (index_of c 0 s)) [
    | inl f ↦ absurd (ground arith)
    | inr (j, f) ↦
        let (a, r, g, k, l) = index_of-found c [] s j f in
        (x ∷ a, r, ap (λ t. x ∷ t) g, ground arith, ground arith)
  ]
]
index_of-found c (x ∷ p) s i h = elim (Option-cases (index_of c (length p) (p ++ s))) [
  | inl e ↦ absurd (ground arith)
  | inr (j, e) ↦ let (a, r, f, g, k) = index_of-found c p s j e in (a, r, f, g, ground arith)
]

pub index_of-has_char :
    (c : ℕ) (p s : List ℕ) → is_some (index_of c (length p) (p ++ s)) ≡ has_char c s
unfolding index_of
index_of-has_char c [] [] = refl
index_of-has_char c [] (x ∷ s) = ground (arith, index_of-has_char c [] s)
index_of-has_char c (x ∷ p) s = ground (arith, index_of-has_char c p s)

get_elem?-middle : (p r : List ℕ) (x : ℕ) → get_elem? (p ++ x ∷ r) (length p) ≡ some x
get_elem?-middle [] r x = refl
get_elem?-middle (y ∷ p) r x = get_elem?-middle p r x

pub digits_from-segment :
    (p a r : List ℕ) → digits_from (length a) (length p) (p ++ (a ++ r)) ≡ all_digits a
unfolding digits_from
digits_from-segment p [] r = refl
digits_from-segment p (x ∷ a) r =
    rw (get_elem?-middle p (a ++ r) x, digits_from)
      (ap (λ b. is_digit x && b)
        (subst (λ n. digits_from (length a) n (p ++ x ∷ (a ++ r)) ≡ all_digits a)
          (length-append p (x ∷ []) ∙ omega arith)
          (subst (λ k. digits_from (length a) (length (p ++ x ∷ [])) k ≡ all_digits a)
            (append_assoc p (x ∷ []) (a ++ r)) (digits_from-segment (p ++ x ∷ []) a r))))

-- A key cut behind a colon.
behind :
    (p a r : List ℕ) (c : ℕ)
    → (p ++ (a ++ c ∷ r) ≡ (p ++ (a ++ c ∷ [])) ++ r)
      × (suc (length p + length a) ≡ length (p ++ (a ++ c ∷ [])))
behind p a r c = (
  ap (λ t. p ++ t) (sym (append_assoc a (c ∷ []) r)) ∙ sym (append_assoc p (a ++ c ∷ []) r),
  omega (arith, length-append p (a ++ c ∷ []), length-append a (c ∷ [])),
)

pub cut_found :
    (c : ℕ) (p s key : List ℕ) (j i : ℕ)
    → key ≡ p ++ s
    → j ≡ length p
    → index_of c j key ≡ some i
    → (a r : List ℕ) × (s ≡ a ++ c ∷ r)
      × (has_char c a ≡ false)
      × (i ≡ length p + length a)
      × (key ≡ (p ++ (a ++ c ∷ [])) ++ r)
      × (suc i ≡ length (p ++ (a ++ c ∷ [])))
      × (key ≡ p ++ (a ++ c ∷ r))
cut_found c p s key j i h g e =
    let (a, r, k, l, m) = index_of-found c p s i (
      subst (λ t. index_of c (length p) t ≡ some i) h
        (subst (λ n. index_of c n key ≡ some i) g e)) in
    let (b, d) = behind p a r c in
    (a, r, k, l, m, h ∙ (ap (λ t. p ++ t) k ∙ b), ap suc m ∙ d, h ∙ ap (λ t. p ++ t) k)

pub cut_at :
    (c : ℕ) (p a r key : List ℕ) (j : ℕ)
    → key ≡ p ++ (a ++ c ∷ r)
    → j ≡ length p
    → has_char c a ≡ false
    → (index_of c j key ≡ some (length p + length a))
      × (key ≡ (p ++ (a ++ c ∷ [])) ++ r)
      × (suc (length p + length a) ≡ length (p ++ (a ++ c ∷ [])))
cut_at c p a r key j h g e =
    let (b, d) = behind p a r c in (rw (h, g) (index_of-after c p a r e), h ∙ b, d)
