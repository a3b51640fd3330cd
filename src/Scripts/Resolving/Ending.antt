-- ===== src/Scripts/Resolving/Ending.antt =====
-- How far the resolution of includes in src/commands/script-loader.ts goes: a chain of includes is
-- no longer than the number of files, since one that is open already is refused.
use bullmq.Shared.{
  ℕ, zero, suc, ◌≤◌, ◌<◌, ◌===◌, ===_iff, ◌||◌, not, if◌then◌else◌, ◌≡◌, refl, inl, inr, Bool-cases,
  Option-cases, Outcome-cases, none, some, Bool, true, false, List, [], ◌∷◌, ◌++◌, String, has,
  keep, length, length-keep, All, get, Outcome, returns, throws, throw_if, ◌>>=◌, ◌>>◌, arith,
}
use bullmq.Scripts.{
  Symbol, text, includes_file, token, LoaderError, circular_reference, include_not_found,
  already_included, no_path_mapping, read_failed, out_of_fuel, Files, Cache, file_at,
}
use bullmq.Scripts.Resolving.{
  load_include, push_include, include_paths, include_file, resolve_lines, set_content,
  resolve_dependencies, parse_script, is_empty,
}

-- The result is not for a lack of fuel.
abbrev pub Ends {κ} : {A : Type κ} → Outcome LoaderError A → Type 0
Ends (returns a) = Unit
Ends (throws (out_of_fuel file)) = ⊥
Ends (throws (circular_reference file)) = Unit
Ends (throws (include_not_found r)) = Unit
Ends (throws (already_included r)) = Unit
Ends (throws (no_path_mapping r)) = Unit
Ends (throws (read_failed r)) = Unit

-- The files that are not open.
abbrev closed_files : List String → List String → List String
closed_files files stack = keep (λ f. not (has stack f)) files

has-append : (xs : List String) (s j : String) → has (xs ++ s ∷ []) j ≡ has xs j || (s === j)
has-append [] s j = ground arith
has-append (x ∷ xs) s j = ground (arith, has-append xs s j)

-- To open a file leaves no more closed, and less if it was one of them.
closed_files-le :
    (files stack : List String) (file : String)
    → length (closed_files files (stack ++ file ∷ [])) ≤ length (closed_files files stack)
closed_files-le [] stack file = omega arith
closed_files-le (f ∷ files) stack file =
    ground (arith, closed_files-le files stack file, has-append stack file f)

closed_files-lt :
    (files stack : List String) (file : String)
    → has files file ≡ true
    → has stack file ≡ false
    → length (closed_files files (stack ++ file ∷ [])) < length (closed_files files stack)
closed_files-lt [] stack file h k = absurd (cc)
closed_files-lt (f ∷ files) stack file h k = elim (Bool-cases (f === file)) [
  | inl e ↦
      let same : f ≡ file = (===_iff f file).0 e in
      let closed : has stack f ≡ false = rw same k in
      ground (arith, closed_files-le files stack file, has-append stack file f, ===_iff file f)
  | inr e ↦ ground (
    arith,
    closed_files-lt files stack file,
    has-append stack file f,
    ===_iff f file,
    ===_iff file f,
  )
]

All-keep :
    (p : String → Bool) (P : String → Type 0) (xs : List String) → All P xs → All P (keep p xs)
All-keep p P [] h = tt
All-keep p P (x ∷ xs) h = elim (Bool-cases (p x)) [
  | inl e ↦ rw e (h.0, All-keep p P xs h.1)
  | inr e ↦ rw e (All-keep p P xs h.1)
]

-- All that a reference can stand for is among some files, and the libraries for paths do not run
-- out of fuel.
pub record AreFiles (fs : Files) (files : List String) : Type 0 where
  pub among :
      (dir reference : String) (found : List String)
      → fs.paths_of dir reference ≡ returns found
      → All (λ p. has files p ≡ true) found
  pub ends : (dir reference : String) → Ends (fs.paths_of dir reference)

if-Ends :
    {A : Type 0} (b : Bool) (m n : Outcome LoaderError A)
    → Ends m
    → Ends n
    → Ends (if b then m else n)
if-Ends true m n h k = h
if-Ends false m n h k = k

bind-Ends :
    {A B : Type 0} (m : Outcome LoaderError A) (f : A → Outcome LoaderError B)
    → Ends m
    → ((a : A) → m ≡ returns a → Ends (f a))
    → Ends (m >>= f)
bind-Ends (returns a) f h k = k a refl
bind-Ends (throws (circular_reference file)) f h k = tt
bind-Ends (throws (include_not_found r)) f h k = tt
bind-Ends (throws (already_included r)) f h k = tt
bind-Ends (throws (no_path_mapping r)) f h k = tt
bind-Ends (throws (read_failed r)) f h k = tt
bind-Ends (throws (out_of_fuel file)) f h k = absurd h

throw_if-Ends :
    {B : Type 0} (b : Bool) (r : String) (m : Outcome LoaderError B)
    → Ends m
    → Ends (throw_if b (include_not_found r) >> m)
throw_if-Ends true r m h = tt
throw_if-Ends false r m h = h

module _ (fs : Files) (files : List String) (known : AreFiles fs files) where
  load_include-Ends :
      (reference path : String) (cache : Cache) → Ends (load_include fs reference path cache)
  unfolding load_include
  load_include-Ends reference path cache = elim (Option-cases (get path cache)) [
    | inr (m, e) ↦ rw (e, load_include) tt
    | inl e ↦ elim (Outcome-cases (fs.read path)) [
      | inr (code, fails) ↦ rw (e, fails, load_include) tt
      | inl (none, missing) ↦ rw (e, missing, load_include) tt
      | inl (some symbols, there) ↦ rw (e, there, load_include) tt
    ]
  ]

  module _ (resolve : String → Cache → Outcome LoaderError Cache)
      (ends : (path : String) (cache : Cache)
        → has files path ≡ true
        → Ends (resolve path cache)) where
    include_paths-Ends :
        (file reference : String) (paths : List String) (cache : Cache)
        → All (λ p. has files p ≡ true) paths
        → Ends (include_paths fs resolve file reference paths cache)
    unfolding include_paths
    include_paths-Ends file reference [] cache h = tt
    include_paths-Ends file reference (path ∷ paths) cache h =
        if-Ends (has (file_at file cache).includes path) _ _ tt (
          bind-Ends (load_include fs reference path cache) _
            (load_include-Ends reference path cache)
            (λ loaded e.
              bind-Ends (resolve path (push_include fs file path loaded)) _ (ends path _ h.0)
                (λ resolved r. include_paths-Ends file reference paths resolved h.1)))

    include_file-Ends :
        (file reference : String) (cache : Cache)
        → Ends (include_file fs resolve file reference cache)
    unfolding include_file
    include_file-Ends file reference cache =
        bind-Ends (fs.paths_of (fs.dirname file) reference) _ (known.ends _ reference) (λ found e.
          throw_if-Ends (is_empty fs (keep fs.is_lua found)) reference _ (
            bind-Ends (include_paths fs resolve file reference (keep fs.is_lua found) cache) _
              (include_paths-Ends file reference _ cache
                (All-keep fs.is_lua _ found (known.among _ reference found e)))
              (λ done k. tt)))

    resolve_lines-Ends :
        (file : String) (symbols content : List Symbol) (cache : Cache)
        → Ends (resolve_lines fs resolve file symbols content cache)
    unfolding resolve_lines
    resolve_lines-Ends file [] content cache = tt
    resolve_lines-Ends file (text t ∷ symbols) content cache =
        resolve_lines-Ends file symbols (content ++ text t ∷ []) cache
    resolve_lines-Ends file (token t ∷ symbols) content cache =
        resolve_lines-Ends file symbols (content ++ token t ∷ []) cache
    resolve_lines-Ends file (includes_file reference ∷ symbols) content cache =
        bind-Ends (include_file fs resolve file reference cache) _
          (include_file-Ends file reference cache)
          (λ included e. resolve_lines-Ends file symbols _ included.1)

  set_content-Ends :
      (file : String) (r : Outcome LoaderError (List Symbol × Cache))
      → Ends r
      → Ends (set_content fs file r)
  unfolding set_content
  set_content-Ends file (returns (content, cache)) h = tt
  set_content-Ends file (throws (circular_reference f)) h = tt
  set_content-Ends file (throws (include_not_found r)) h = tt
  set_content-Ends file (throws (already_included r)) h = tt
  set_content-Ends file (throws (no_path_mapping r)) h = tt
  set_content-Ends file (throws (read_failed r)) h = tt
  set_content-Ends file (throws (out_of_fuel f)) h = absurd h

  resolve_dependencies-Ends :
      (fuel : ℕ) (stack : List String) (file : String) (cache : Cache)
      → length (closed_files files stack) < fuel
      → has files file ≡ true
      → Ends (resolve_dependencies fs fuel stack file cache)
  unfolding resolve_dependencies
  resolve_dependencies-Ends zero stack file cache h k = absurd (omega arith)
  resolve_dependencies-Ends (suc fuel) stack file cache h k = elim (Bool-cases (has stack file)) [
    | inl open_ ↦ rw open_ tt
    | inr closed ↦ rw closed (
        set_content-Ends file _ (
          resolve_lines-Ends (resolve_dependencies fs fuel (stack ++ file ∷ []))
            (λ path c among.
              resolve_dependencies-Ends fuel (stack ++ file ∷ []) path c
                (omega (arith, closed_files-lt files stack file k closed)) among)
            file (file_at file cache).content [] cache))
  ]

  -- Where all that a reference can stand for, and the script itself, are among some files, and the
  -- libraries for paths answer, the resolution of the script ends by itself: a fuel above the
  -- number of these files is enough, however they include one another.
  pub parse_script-Ends :
      (fuel : ℕ) (file : String) (symbols : List Symbol) (cache : Cache)
      → length files < fuel
      → has files file ≡ true
      → Ends (parse_script fs fuel file symbols cache)
  unfolding parse_script
  parse_script-Ends fuel file symbols cache h k =
      resolve_dependencies-Ends fuel [] file _
        (omega (arith, length-keep (λ f. not (has [] f)) files)) k
