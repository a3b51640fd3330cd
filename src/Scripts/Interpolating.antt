-- ===== src/Scripts/Interpolating.antt =====
-- `interpolate` of src/commands/script-loader.ts, on fuel: the depth of the includes.
pub mod Tokens
pub mod Expanding
use bullmq.Shared.{
  ◌==◌, ℕ, zero, suc, ◌===◌, if◌then◌else◌, not, Bool, true, false, List, [], ◌∷◌, ◌++◌, Option,
  none, some, String, has, keep,
}
use bullmq.Scripts.{Symbol, text, includes_file, token, Cache, file_at}

abbrev pub is_token : String → Symbol → Bool
is_token path (token p) = p === path
is_token path (text t) = false
is_token path (includes_file r) = false

-- `replaceAll(content, token, '')`.
unfoldable pub remove_all : String → List Symbol → List Symbol
remove_all path symbols = keep (λ l. not (is_token path l)) symbols

abbrev pub dollar : ℕ
dollar = 36

-- What `replace` puts for two symbols of a replacement: `$$`, `$&`, `` $` `` and `$'` stand for a
-- dollar, the match, and what is before and after it. There are no captures.
abbrev pattern_of : List Symbol → Symbol → List Symbol → ℕ → Option (List Symbol)
pattern_of before match after d =
    if d == dollar
    then some (text dollar ∷ [])
    else if d == 38
    then some (match ∷ [])
    else if d == 96
    then some before
    else if d == 39
    then some after
    else none

abbrev pub pattern_at : List Symbol → Symbol → List Symbol → Symbol → Symbol → Option (List Symbol)
pattern_at before match after (text c) (text d) =
    if c == dollar then pattern_of before match after d else none
pattern_at before match after (text c) (includes_file r) = none
pattern_at before match after (text c) (token p) = none
pattern_at before match after (includes_file r) y = none
pattern_at before match after (token p) y = none

unfoldable pub expand_patterns : List Symbol → Symbol → List Symbol → List Symbol → List Symbol
expand_patterns before match after [] = []
expand_patterns before match after (x ∷ []) = x ∷ []
expand_patterns before match after (x ∷ y ∷ replacement) =
    let one = expand_patterns before match after (y ∷ replacement) in
    let two = expand_patterns before match after replacement in
    elim (pattern_at before match after x y) [ none ↦ x ∷ one | some put ↦ put ++ two ]

-- `content.replace(token, replacement)`: the first token, after what is before it.
unfoldable pub replace_from : List Symbol → String → List Symbol → List Symbol → List Symbol
unfolding expand_patterns
replace_from before path replacement [] = []
replace_from before path replacement (l ∷ symbols) =
    let rest = replace_from (before ++ l ∷ []) path replacement symbols in
    if is_token path l then expand_patterns before l symbols replacement ++ symbols else l ∷ rest

unfoldable pub replace_first : String → List Symbol → List Symbol → List Symbol
unfolding replace_from
replace_first path replacement content = replace_from [] path replacement content

abbrev pub substitute : String → List Symbol → List Symbol → List Symbol
substitute path [] content = remove_all path content
substitute path (l ∷ replacement) content =
    remove_all path (replace_first path (l ∷ replacement) content)

-- `processed.add(path)`.
abbrev pub add_path : String → List String → List String
add_path path processed = if has processed path then processed else processed ++ path ∷ []

-- `emitted ? '' : fragment`.
abbrev pub replacement_of : Bool → List Symbol → List Symbol
replacement_of true fragment = []
replacement_of false fragment = fragment

-- The loop over the includes of a file.
unfoldable pub interpolate_children :
    (String → List String → Option (List Symbol × List String))
    → List String
    → List Symbol
    → List String
    → Option (List Symbol × List String)
unfolding remove_all replace_first
interpolate_children interpolate [] content processed = some (content, processed)
interpolate_children interpolate (child ∷ children) content processed =
    elim (interpolate child processed) [
      | none ↦ none
      | some (fragment, after) ↦
          interpolate_children interpolate children
            (substitute child (replacement_of (has processed child) fragment) content)
            (add_path child after)
    ]

unfoldable pub interpolate : Cache → ℕ → String → List String → Option (List Symbol × List String)
unfolding interpolate_children file_at
interpolate cache zero file processed = none
interpolate cache (suc fuel) file processed =
    interpolate_children (interpolate cache fuel) (file_at file cache).includes
      (file_at file cache).content processed
