-- ===== src/Shared/Maps.antt =====
-- A `Map` or an object with text keys, in insertion order: a write to a key that is there keeps
-- its place, a new key goes to the end.
use Prim.Native.String.{String}
use mathlib.Core.Path.{◌≡◌, refl, ◌∙◌}
use mathlib.Core.Bool.{Bool, true, false, not, ◌&&◌, ◌||◌}
use bullmq.Shared.Lists.{any, All}
use mathlib.Core.Logic.{inl, inr}
use mathlib.Core.Option.{Option, none, some}
use mathlib.Core.List.{List, [], ◌∷◌}
use native.Mathlib.Omega.{arith}
use bullmq.Shared.Tests.{if◌then◌else◌, ◌===◌, ===_iff, Bool-cases}

abbrev pub Dict {ℓ} : Type ℓ → Type ℓ
Dict V = List (String × V)

-- Whether a text is in a list, and whether a list has no text twice.
abbrev pub has : List String → String → Bool
has ids j = any (λ i. i === j) ids

abbrev pub IsDistinct : List String → Type 0
IsDistinct [] = Unit
IsDistinct (x ∷ xs) = (has xs x ≡ false) × IsDistinct xs

pub IsDistinct-ne :
    (x : String) (xs : List String) → has xs x ≡ false → All (λ j. (x === j) ≡ false) xs
IsDistinct-ne x [] h = tt
IsDistinct-ne x (y ∷ ys) h =
    (ground (arith, ===_iff x y, ===_iff y x), IsDistinct-ne x ys (ground arith))

module _ {ℓ} {V : Type ℓ} where
  unfoldable pub get : String → Dict V → Option V
  get k [] = none
  get k ((j, v) ∷ m) = if j === k then some v else get k m

  unfoldable pub put : String → V → Dict V → Dict V
  put k v [] = (k, v) ∷ []
  put k v ((j, w) ∷ m) = if j === k then (k, v) ∷ m else (j, w) ∷ put k v m

  unfoldable pub delete : String → Dict V → Dict V
  delete k [] = []
  delete k ((j, w) ∷ m) = let rest = delete k m in if j === k then rest else (j, w) ∷ rest

  unfoldable pub keys : Dict V → List String
  keys [] = []
  keys ((k, v) ∷ m) = k ∷ keys m

  pub get-put :
      (k j : String) (v : V) (m : Dict V)
      → get j (put k v m) ≡ (if k === j then some v else get j m)
  unfolding get put
  get-put k j v [] = refl
  get-put k j v ((i, w) ∷ m) =
      ground (arith, ===_iff k j, ===_iff i k, ===_iff i j, get-put k j v m)

  pub get-delete :
      (k j : String) (m : Dict V) → get j (delete k m) ≡ (if k === j then none else get j m)
  unfolding get delete
  get-delete k j [] = ground arith
  get-delete k j ((i, w) ∷ m) =
      ground (arith, ===_iff k j, ===_iff i k, ===_iff i j, get-delete k j m)

  abbrev pub is_some : Option V → Bool
  is_some none = false
  is_some (some v) = true

  pub has-keys : (j : String) (m : Dict V) → has (keys m) j ≡ is_some (get j m)
  unfolding keys get
  has-keys j [] = refl
  has-keys j ((i, w) ∷ m) = ground (arith, has-keys j m)

  pub has-keys-put :
      (k j : String) (v : V) (m : Dict V) → has (keys (put k v m)) j ≡ (k === j) || has (keys m) j
  has-keys-put k j v m = has-keys j (put k v m) ∙ ground (arith, get-put k j v m, has-keys j m)

  has-keys-delete :
      (k j : String) (m : Dict V) → has (keys (delete k m)) j ≡ not (k === j) && has (keys m) j
  has-keys-delete k j m = has-keys j (delete k m) ∙ ground (arith, get-delete k j m, has-keys j m)

  pub put-IsDistinct :
      (k : String) (v : V) (m : Dict V) → IsDistinct (keys m) → IsDistinct (keys (put k v m))
  unfolding put keys
  put-IsDistinct k v [] h = (refl, tt)
  put-IsDistinct k v ((i, w) ∷ m) h = elim (Bool-cases (i === k)) [
    | inl e ↦ rw e (ground (arith, ===_iff i k), h.1)
    | inr e ↦
        rw e
          (ground (arith, has-keys-put k i v m, ===_iff i k, ===_iff k i), put-IsDistinct k v m h.1)
  ]

  pub delete-IsDistinct :
      (k : String) (m : Dict V) → IsDistinct (keys m) → IsDistinct (keys (delete k m))
  unfolding delete keys
  delete-IsDistinct k [] h = tt
  delete-IsDistinct k ((i, w) ∷ m) h = elim (Bool-cases (i === k)) [
    | inl e ↦ rw e (delete-IsDistinct k m h.1)
    | inr e ↦ rw e (ground (arith, has-keys-delete k i m), delete-IsDistinct k m h.1)
  ]
