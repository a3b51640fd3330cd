-- ===== src/Tests/Scripts.antt =====
-- Scripts that src/commands/script-loader.ts resolves and puts together.
use bullmq.Shared.{
  ℕ, ◌<◌, ◌≡◌, refl, sym, ap, subst, inl, inr, Bool, Bool-cases, IsDistinct, ===_iff, get, ◌===◌,
  if◌then◌else◌, true, false, List, [], ◌∷◌, Option, none, some, String, has, All, returns, throws,
  arith,
}
use bullmq.Scripts.{
  Symbol, text, includes_file, token, ScriptMetadata, circular_reference, Files, Cache, file_at,
  or_empty_file,
}
use bullmq.Scripts.Resolving.{parse_script}
use bullmq.Scripts.Resolving.Ending.{AreFiles, Ends, parse_script-Ends}
use bullmq.Scripts.Interpolating.{interpolate}
use bullmq.Scripts.Interpolating.Tokens.{tokens, IsPlain}
use bullmq.Scripts.Interpolating.Expanding.{AreResolved, AllIn, expand}
use bullmq.Scripts.Interpolating.Expanding.Agreement.{HasNoDollar, IsRanked, interpolate-expand}

-- `a` includes `b` and `c`, and `b` includes `c`; `loop` includes itself.
abbrev lines_at : String → Option (List Symbol)
lines_at path =
    if path === "b"
    then some (includes_file "c" ∷ text 98 ∷ [])
    else if path === "c"
    then some (text 99 ∷ [])
    else if path === "loop"
    then some (includes_file "loop" ∷ [])
    else none

abbrev among_files : String → List String
among_files reference =
    if reference === "b"
    then "b" ∷ []
    else if reference === "c"
    then "c" ∷ []
    else if reference === "loop"
    then "loop" ∷ []
    else []

abbrev fs : Files
fs = record {
  dirname = λ path. "";
  paths_of = λ dir reference. returns (among_files reference);
  is_lua = λ path. true;
  read = λ path. returns (lines_at path);
}

abbrev script : List Symbol
script = includes_file "b" ∷ text 97 ∷ includes_file "c" ∷ []

-- Files that are resolved, the other way round: `a` includes `c` last.
abbrev cache : Cache
cache =
    ("a", record { content = token "b" ∷ text 97 ∷ token "c" ∷ []; includes = "b" ∷ "c" ∷ [] })
    ∷ ("b", record { content = token "c" ∷ text 98 ∷ []; includes = "c" ∷ [] })
    ∷ ("c", record { content = text 99 ∷ []; includes = [] })
    ∷ []

resolves : parse_script fs 5 "a" script [] ≡ returns cache
unfolding parse_script
resolves = refl

refuses_circles :
    parse_script fs 5 "a" (includes_file "loop" ∷ []) [] ≡ throws (circular_reference "loop")
unfolding parse_script
refuses_circles = refl

abbrev files : List String
files = "a" ∷ "b" ∷ "c" ∷ "loop" ∷ []

if-All :
    (b : Bool) (xs ys : List String)
    → All (λ p. has files p ≡ true) xs
    → All (λ p. has files p ≡ true) ys
    → All (λ p. has files p ≡ true) (if b then xs else ys)
if-All true xs ys h k = h
if-All false xs ys h k = k

known : AreFiles fs files
known = record {
  among = λ dir reference found e.
      let same : among_files reference ≡ found = cc in
      subst (All (λ p. has files p ≡ true)) same (
        if-All (reference === "b") _ _ (refl, tt)
          (if-All (reference === "c") _ _ (refl, tt)
            (if-All (reference === "loop") _ _ (refl, tt) tt)));
  ends = λ dir reference. tt;
}

parse_script-Ends_example : Ends (parse_script fs 5 "a" (includes_file "loop" ∷ script) [])
parse_script-Ends_example =
    parse_script-Ends fs files known 5 "a" (includes_file "loop" ∷ script) [] (omega arith) refl

interpolates : interpolate cache 3 "a" [] ≡ some (text 99 ∷ text 98 ∷ text 97 ∷ [], "c" ∷ "b" ∷ [])
unfolding interpolate
interpolates = refl

abbrev rank : String → ℕ
rank path = if path === "a" then 2 else if path === "b" then 1 else 0

-- The file at each path, one after the other.
by_path :
    (P : String → ScriptMetadata → Type 0)
    → P "a" (file_at "a" cache)
    → P "b" (file_at "b" cache)
    → P "c" (file_at "c" cache)
    → ((path : String) → P path (record { content = []; includes = [] }))
    → (path : String) → P path (file_at path cache)
unfolding file_at
by_path P a b c other path = elim (Bool-cases ("a" === path)) [
  | inl e ↦ subst (λ p. P p (file_at p cache)) ((===_iff "a" path).0 e) a
  | inr not_a ↦ elim (Bool-cases ("b" === path)) [
    | inl e ↦ subst (λ p. P p (file_at p cache)) ((===_iff "b" path).0 e) b
    | inr not_b ↦ elim (Bool-cases ("c" === path)) [
      | inl e ↦ subst (λ p. P p (file_at p cache)) ((===_iff "c" path).0 e) c
      | inr not_c ↦
          let missing : get path cache ≡ none = rw not_a (rw not_b (rw not_c refl)) in
          subst (P path) (sym (ap or_empty_file missing)) (other path)
    ]
  ]
]

resolved : AreResolved cache
unfolding file_at
resolved = record {
  listed = by_path (λ p m. tokens m.content ≡ m.includes) refl refl refl (λ p. refl);
  distinct = by_path (λ p m. IsDistinct m.includes) (refl, (refl, tt)) (refl, tt) tt (λ p. tt);
}

ranked : IsRanked cache rank
unfolding file_at
ranked =
    by_path (λ p m. All (λ child. rank child < rank p) m.includes) (omega arith) (omega arith) tt
      (λ p. tt)

no_dollars : HasNoDollar cache
unfolding file_at
no_dollars =
    by_path (λ p m. IsPlain m.content) (refl, (refl, (refl, tt))) (refl, (refl, tt)) (refl, tt)
      (λ p. tt)

interpolate-expand_example :
    (out : List Symbol) × (processed : List String) × (interpolate cache 3 "a" []
      ≡ some (out, processed))
    × (expand cache 3 "a" [] ≡ some (out, processed))
    × (tokens out ≡ [])
    × AllIn processed (file_at "a" cache).includes
    × ((j : String) → has processed j ≡ true → AllIn processed (file_at j cache).includes)
interpolate-expand_example =
    interpolate-expand cache rank "a" 3 resolved no_dollars ranked (omega arith)

-- The pattern `$'` in an included file becomes what follows its token.
abbrev with_pattern : Cache
with_pattern =
    ("a", record { content = token "c" ∷ text 97 ∷ []; includes = "c" ∷ [] })
    ∷ ("c", record { content = text 99 ∷ text 36 ∷ text 39 ∷ []; includes = [] })
    ∷ []

pattern_is_read :
    interpolate with_pattern 2 "a" [] ≡ some (text 99 ∷ text 97 ∷ text 97 ∷ [], "c" ∷ [])
unfolding interpolate
pattern_is_read = refl
