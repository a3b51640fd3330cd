-- ===== src/JobScheduler/LegacyKeys/Grammar.antt =====
-- What the keys are that src/classes/job-scheduler.ts takes for legacy ones.
use bullmq.Shared.{
  ℕ, suc, ◌+◌, ◌-◌, ◌≡◌, ◌≢◌, refl, sym, ap, ◌∙◌, subst, ◌↔◌, ◌⊎◌, inl, inr, ltb, leb, not, ◌&&◌,
  ◌||◌, Bool, true, false, List, [], ◌∷◌, ◌++◌, some, length, is_some, arith, append-nil,
  length-append, Option-cases,
}
use bullmq.JobScheduler.LegacyKeys.{
  index_of, digits_from, is_numeric_segment, has_suffix_shape, has_legacy_repeatable_key_shape,
}
use bullmq.JobScheduler.LegacyKeys.Places.{
  has_char, all_digits, index_of-has_char, digits_from-segment, cut_found, cut_at,
}

-- `name:id:endDate:tz:suffix`, where the end date is empty or a number, and the suffix has a space
-- or is a number.
pub IsLegacyKey : List ℕ → Type 0
IsLegacyKey key =
    (name id end_date tz suffix : List ℕ) × (key
      ≡ name ++ b':' ∷ (id ++ b':' ∷ (end_date ++ b':' ∷ (tz ++ b':' ∷ suffix))))
    × (has_char b':' name ≡ false)
    × (has_char b':' id ≡ false)
    × (has_char b':' end_date ≡ false)
    × (has_char b':' tz ≡ false)
    × (all_digits end_date ≡ true)
    × (suffix ≢ [])
    × ((has_char b' ' suffix ≡ true) ⊎ (all_digits suffix ≡ true))

abbrev is_empty : List ℕ → Bool
is_empty [] = true
is_empty (x ∷ xs) = false

-- The checks on the end date and the suffix.
abbrev suffix_shape : List ℕ → List ℕ → Bool
suffix_shape end_date suffix =
    all_digits end_date && (not (is_empty suffix) && (has_char b' ' suffix || all_digits suffix))

numeric-all_digits :
    (p a r : List ℕ)
    → is_numeric_segment (p ++ (a ++ r)) (length p) (length p + length a)
      ≡ not (is_empty a) && all_digits a
unfolding is_numeric_segment
numeric-all_digits p [] r = ground arith
numeric-all_digits p (x ∷ a) r =
    let width : length p + suc (length a) - length p ≡ suc (length a) = omega arith in
    ground (
      arith,
      ap (λ n. digits_from n (length p) (p ++ x ∷ (a ++ r))) width,
      digits_from-segment p (x ∷ a) r,
    )

longer : (m : ℕ) (e : List ℕ) → ltb m (m + length e) ≡ not (is_empty e)
longer m [] = ground arith
longer m (x ∷ e) = ground arith

no_longer : (m : ℕ) (s : List ℕ) → leb (m + length s) m ≡ is_empty s
no_longer m [] = ground arith
no_longer m (x ∷ s) = ground arith

empty-all_digits : (e : List ℕ) → is_empty e ≡ true → all_digits e ≡ true
empty-all_digits [] h = refl
empty-all_digits (x ∷ e) h = absurd (cc)

-- The checks after the colons, on the key taken apart.
has_suffix_shape-segments :
    (p e q s : List ℕ) (key r : List ℕ)
    → key ≡ p ++ (e ++ r)
    → key ≡ q ++ s
    → (second third fourth : ℕ) → suc second ≡ length p
    → third ≡ length p + length e
    → suc fourth ≡ length q
    → has_suffix_shape key second third fourth ≡ suffix_shape e s
unfolding has_suffix_shape
has_suffix_shape-segments p e q s key r h g second third fourth i m j =
    let a : is_numeric_segment key (suc second) third ≡ not (is_empty e) && all_digits e =
      rw (h, i, m) (numeric-all_digits p e r) in
    let long : length key ≡ length q + length s = rw g (length-append q s) in
    let b : is_numeric_segment key (suc fourth) (length key) ≡ not (is_empty s) && all_digits s =
      rw (long, g, j)
        (subst
          (λ t.
            is_numeric_segment (q ++ t) (length q) (length q + length s)
            ≡ not (is_empty s) && all_digits s)
          (append-nil s) (numeric-all_digits q s [])) in
    let c : is_some (index_of b' ' (suc fourth) key) ≡ has_char b' ' s =
      rw (g, j) (index_of-has_char b' ' q s) in
    let d : ltb (suc second) third ≡ not (is_empty e) = rw (i, m) (longer (length p) e) in
    let f : leb (length key) (suc fourth) ≡ is_empty s = rw (long, j) (no_longer (length q) s) in
    ground (arith, a, b, c, d, f, empty-all_digits e)

or_cases : (b c : Bool) → (b || c) ≡ true → (b ≡ true) ⊎ (c ≡ true)
or_cases true c h = inl refl
or_cases false c h = inr h

-- What the Boolean checks on the end date and the suffix say.
suffix_shape_iff :
    (e s : List ℕ)
    → (suffix_shape e s ≡ true)
      ↔ ((all_digits e ≡ true) × (s ≢ []) × ((has_char b' ' s ≡ true) ⊎ (all_digits s ≡ true)))
suffix_shape_iff e [] = (λ h. absurd (ground arith), λ h. absurd (h.1 refl))
suffix_shape_iff e (x ∷ s) = (
  λ h. (
    ground arith,
    (λ k. cc),
    or_cases (has_char b' ' (x ∷ s)) (all_digits (x ∷ s)) (ground arith),
  ),
  λ h. elim h.2 [ inl k ↦ ground (arith, h.0, k) | inr k ↦ ground (arith, h.0, k) ],
)

joined :
    (key a r b s c t d u : List ℕ)
    → key ≡ a ++ b':' ∷ r
    → r ≡ b ++ b':' ∷ s
    → s ≡ c ++ b':' ∷ t
    → t ≡ d ++ b':' ∷ u
    → key ≡ a ++ b':' ∷ (b ++ b':' ∷ (c ++ b':' ∷ (d ++ b':' ∷ u)))
joined key a r b s c t d u e f g h =
    e ∙ ap (λ x. a ++ b':' ∷ x) (f ∙ ap (λ x. b ++ b':' ∷ x) (g ∙ ap (λ x. c ++ b':' ∷ x) h))

-- The checks after the four colons.
shape_at :
    (key : List ℕ) (first second third fourth : ℕ)
    → index_of b':' 0 key ≡ some first
    → index_of b':' (suc first) key ≡ some second
    → index_of b':' (suc second) key ≡ some third
    → index_of b':' (suc third) key ≡ some fourth
    → has_legacy_repeatable_key_shape key ≡ has_suffix_shape key second third fourth
unfolding has_legacy_repeatable_key_shape
shape_at key first second third fourth e f g k =
    rw (e, f, g, k, has_legacy_repeatable_key_shape) refl

has_colons :
    (key : List ℕ)
    → has_legacy_repeatable_key_shape key ≡ true
    → (first second third fourth : ℕ) × (index_of b':' 0 key ≡ some first)
      × (index_of b':' (suc first) key ≡ some second)
      × (index_of b':' (suc second) key ≡ some third)
      × (index_of b':' (suc third) key ≡ some fourth)
unfolding has_legacy_repeatable_key_shape
has_colons key h = elim (Option-cases (index_of b':' 0 key)) [
  | inl e ↦ absurd (ground arith)
  | inr (first, e) ↦ elim (Option-cases (index_of b':' (suc first) key)) [
    | inl f ↦ absurd (ground arith)
    | inr (second, f) ↦ elim (Option-cases (index_of b':' (suc second) key)) [
      | inl g ↦ absurd (ground arith)
      | inr (third, g) ↦ elim (Option-cases (index_of b':' (suc third) key)) [
        | inl k ↦ absurd (ground arith)
        | inr (fourth, k) ↦ (first, second, third, fourth, e, f, g, k)
      ]
    ]
  ]
]

takes_only : (key : List ℕ) → has_legacy_repeatable_key_shape key ≡ true → IsLegacyKey key
unfolding IsLegacyKey
takes_only key h =
    let (first, second, third, fourth, e, f, g, k) = has_colons key h in
    let (name, r, er, cr, ir, kr, jr, lr) = cut_found b':' [] key key 0 first refl refl e in
    let (id, s, es, cs, is, ks, js, ls) = cut_found b':' _ r key _ second kr jr f in
    let (date, t, et, ct, it, kt, jt, lt) = cut_found b':' _ s key _ third ks js g in
    let (tz, u, eu, cu, iu, ku, ju, lu) = cut_found b':' _ t key _ fourth kt jt k in
    let (a, b, c) = (suffix_shape_iff date u).0 (
      sym (has_suffix_shape-segments _ date _ u key _ lt ku second third fourth js it ju)
      ∙ (sym (shape_at key first second third fourth e f g k) ∙ h)) in
    (name, id, date, tz, u, joined key name r id s date t tz u er es et eu, cr, cs, ct, cu, a, b, c)

takes_all : (key : List ℕ) → IsLegacyKey key → has_legacy_repeatable_key_shape key ≡ true
unfolding IsLegacyKey
takes_all key (name, id, date, tz, u, h, cr, cs, ct, cu, a, b, c) =
    let (e, kr, jr) = cut_at b':' [] name _ key 0 h refl cr in
    let (f, ks, js) = cut_at b':' _ id _ key _ kr jr cs in
    let (g, kt, jt) = cut_at b':' _ date _ key _ ks js ct in
    let (k, ku, ju) = cut_at b':' _ tz _ key _ kt jt cu in
    shape_at key _ _ _ _ e f g k
    ∙ (has_suffix_shape-segments _ date _ u key _ ks ku _ _ _ js refl ju
        ∙ (suffix_shape_iff date u).1 (a, b, c))

-- A key is taken for a legacy one exactly when it is `name:id:endDate:tz:suffix`, with no colon in
-- the first four, an end date that is empty or made of digits, and a suffix that is not empty and
-- has a space or is made of digits.
pub has_legacy_repeatable_key_shape-IsLegacyKey :
    (key : List ℕ) → (has_legacy_repeatable_key_shape key ≡ true) ↔ IsLegacyKey key
has_legacy_repeatable_key_shape-IsLegacyKey key = (takes_only key, takes_all key)
