-- ===== src/Scripts/Resolving.antt =====
-- `resolveDependencies` of src/commands/script-loader.ts, on fuel: the number of files that may be
-- open at a time.
pub mod Ending
use bullmq.Shared.{
  ℕ, zero, suc, ◌===◌, if◌then◌else◌, Bool, true, false, List, [], ◌∷◌, ◌++◌, Option, none, some,
  String, has, keep, Dict, get, put, map, Outcome, returns, throws, throw_if, ◌>>=◌, ◌>>◌,
}
use bullmq.Scripts.{
  Symbol, text, includes_file, token, ScriptMetadata, LoaderError, circular_reference,
  include_not_found, already_included, read_failed, out_of_fuel, Files, Cache, file_at,
}

module _ (fs : Files) where
  -- The cache with the file that is included: read, unless it is there.
  unfoldable pub load_include : String → String → Cache → Outcome LoaderError Cache
  unfolding get put
  load_include reference path cache = elim (get path cache) [
    | some m ↦ returns cache
    | none ↦ elim (fs.read path) [
      | throws code ↦ throws (read_failed code)
      | returns none ↦ throws (include_not_found reference)
      | returns (some symbols) ↦
          returns (put path (record { content = symbols; includes = [] }) cache)
    ]
  ]

  -- `file.includes.push(includeMetadata)`.
  unfoldable pub push_include : String → String → Cache → Cache
  unfolding file_at put
  push_include file path cache =
      let m = file_at file cache in put file (record m { includes = m.includes ++ path ∷ [] }) cache

  -- The loop over the paths of one include; `resolve` is the recursive call.
  unfoldable pub include_paths :
      (String → Cache → Outcome LoaderError Cache)
      → String
      → String
      → List String
      → Cache
      → Outcome LoaderError Cache
  unfolding load_include push_include file_at
  include_paths resolve file reference [] cache = returns cache
  include_paths resolve file reference (path ∷ paths) cache =
      if has (file_at file cache).includes path then throws (already_included reference) else do
        loaded ← load_include reference path cache
        resolved ← resolve path (push_include file path loaded)
        include_paths resolve file reference paths resolved

  abbrev is_empty : List String → Bool
  is_empty [] = true
  is_empty (p ∷ ps) = false

  -- What one include does: the tokens for it.
  unfoldable pub include_file :
      (String → Cache → Outcome LoaderError Cache)
      → String
      → String
      → Cache
      → Outcome LoaderError (List String × Cache)
  unfolding include_paths
  include_file resolve file reference cache = do
    found ← fs.paths_of (fs.dirname file) reference
    throw_if (is_empty (keep fs.is_lua found)) (include_not_found reference)
    done ← include_paths resolve file reference (keep fs.is_lua found) cache
    returns (keep fs.is_lua found, done)

  -- `tokens.join('\n')`.
  abbrev pub joined : List String → List Symbol
  joined [] = []
  joined (p ∷ []) = token p ∷ []
  joined (p ∷ q ∷ paths) = token p ∷ text 10 ∷ joined (q ∷ paths)

  -- The loop over the includes of a file, in the order of its symbols; `content` is what it has
  -- become so far.
  unfoldable pub resolve_lines :
      (String → Cache → Outcome LoaderError Cache)
      → String
      → List Symbol
      → List Symbol
      → Cache
      → Outcome LoaderError (List Symbol × Cache)
  unfolding include_file
  resolve_lines resolve file [] content cache = returns (content, cache)
  resolve_lines resolve file (text t ∷ symbols) content cache =
      resolve_lines resolve file symbols (content ++ text t ∷ []) cache
  resolve_lines resolve file (token t ∷ symbols) content cache =
      resolve_lines resolve file symbols (content ++ token t ∷ []) cache
  resolve_lines resolve file (includes_file reference ∷ symbols) content cache = do
    included ← include_file resolve file reference cache
    resolve_lines resolve file symbols (content ++ joined included.0) included.1

  -- `file.content = content`.
  unfoldable pub set_content :
      String → Outcome LoaderError (List Symbol × Cache) → Outcome LoaderError Cache
  unfolding put file_at
  set_content file (throws e) = throws e
  set_content file (returns (content, cache)) =
      returns (put file (record (file_at file cache) { content = content }) cache)

  unfoldable pub resolve_dependencies : ℕ → List String → String → Cache → Outcome LoaderError Cache
  unfolding resolve_lines set_content file_at
  resolve_dependencies zero stack file cache = throws (out_of_fuel file)
  resolve_dependencies (suc fuel) stack file cache =
      if has stack file
      then throws (circular_reference file)
      else set_content file (
          resolve_lines (resolve_dependencies fuel (stack ++ file ∷ [])) file
            (file_at file cache).content [] cache)

  -- `parseScript` for a script that is not in the cache.
  unfoldable pub parse_script : ℕ → String → List Symbol → Cache → Outcome LoaderError Cache
  unfolding resolve_dependencies put
  parse_script fuel file symbols cache =
      resolve_dependencies fuel [] file
        (put file (record { content = symbols; includes = [] }) cache)
