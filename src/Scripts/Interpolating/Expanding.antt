-- ===== src/Scripts/Interpolating/Expanding.antt =====
-- `interpolate` of src/commands/script-loader.ts against a description of its own: a walk over the
-- symbols that puts each file in the place of the first token for it.
pub mod Agreement
use bullmq.Shared.{
  ℕ, zero, suc, ◌===◌, ===_iff, ◌||◌, if◌then◌else◌, ◌≡◌, refl, sym, ap, subst, ◌∙◌, ◌⊎◌, inl, inr,
  Bool-cases, Option-cases, Bool, true, false, List, [], ◌∷◌, ◌++◌, append_assoc, append-nil,
  Option, none, some, String, has, IsDistinct, All, arith,
}
use bullmq.Scripts.{Symbol, text, includes_file, token, Cache, file_at}
use bullmq.Scripts.Interpolating.{
  add_path, substitute, replacement_of, interpolate_children, interpolate,
}
use bullmq.Scripts.Interpolating.Tokens.{
  tokens, tokens-append, split_token, substitute_at, tokens_between,
}

abbrev pub Result : Type 0
Result = Option (List Symbol × List String)

-- Lines in front of those of a result.
abbrev pub before_all : List Symbol → Result → Result
before_all symbols none = none
before_all symbols (some (out, after)) = some (symbols ++ out, after)

-- A file that was put somewhere before is left out; what a file includes comes where its tokens
-- stand.
unfoldable pub expand_symbols : (String → List String → Result) → List Symbol → List String → Result
expand_symbols expand [] processed = some ([], processed)
expand_symbols expand (text t ∷ symbols) processed =
    before_all (text t ∷ []) (expand_symbols expand symbols processed)
expand_symbols expand (includes_file r ∷ symbols) processed =
    before_all (includes_file r ∷ []) (expand_symbols expand symbols processed)
expand_symbols expand (token p ∷ symbols) processed = elim (has processed p) [
  | true ↦ expand_symbols expand symbols processed
  | false ↦ elim (expand p processed) [
    | none ↦ none
    | some (fragment, between) ↦
        before_all fragment (expand_symbols expand symbols (add_path p between))
  ]
]

unfoldable pub expand : Cache → ℕ → String → List String → Option (List Symbol × List String)
unfolding expand_symbols file_at
expand cache zero file processed = none
expand cache (suc fuel) file processed =
    expand_symbols (expand cache fuel) (file_at file cache).content processed

-- Each file that is included was resolved: its tokens are its includes, each once.
pub record AreResolved (cache : Cache) : Type 0 where
  pub listed : (file : String) → tokens (file_at file cache).content ≡ (file_at file cache).includes
  pub distinct : (file : String) → IsDistinct (file_at file cache).includes

abbrev pub AllIn : List String → List String → Type 0
AllIn processed paths = All (λ i. has processed i ≡ true) paths

abbrev pub Extends : List String → List String → Type 0
Extends p q = (j : String) → has p j ≡ true → has q j ≡ true

pub AllIn-Extends : (p q paths : List String) → Extends p q → AllIn p paths → AllIn q paths
AllIn-Extends p q [] e h = tt
AllIn-Extends p q (i ∷ paths) e h = (e i h.0, AllIn-Extends p q paths e h.1)

pub has-append : (xs : List String) (s j : String) → has (xs ++ s ∷ []) j ≡ has xs j || (s === j)
has-append [] s j = ground arith
has-append (x ∷ xs) s j = ground (arith, has-append xs s j)

pub add_path-Extends : (path : String) (p : List String) → Extends p (add_path path p)
add_path-Extends path p j h = ground (arith, has-append p path j)

pub has-add_path : (path : String) (p : List String) → has (add_path path p) path ≡ true
has-add_path path p = ground (arith, has-append p path path, ===_iff path path)

pub add_path_lem :
    (path j : String) (p : List String)
    → has (add_path path p) j ≡ true
    → (has p j ≡ true) ⊎ (path ≡ j)
add_path_lem path j p h = elim (Bool-cases (has p path)) [
  | inl e ↦ inl (ground arith)
  | inr e ↦ elim (Bool-cases (has p j)) [
    | inl there ↦ inl there
    | inr new ↦ inr (ground (arith, has-append p path j, ===_iff path j))
  ]
]

pub add_path_there : (path : String) (p : List String) → has p path ≡ true → add_path path p ≡ p
add_path_there path p h = rw h

pub before_all-append :
    (xs ys : List Symbol) (r : Result) → before_all xs (before_all ys r) ≡ before_all (xs ++ ys) r
before_all-append xs ys none = refl
before_all-append xs ys (some (out, after)) =
    ap (λ l. some (l, after)) (sym (append_assoc xs ys out))

before_all-nil : (r : Result) → before_all [] r ≡ r
before_all-nil none = refl
before_all-nil (some (out, after)) = refl

module _ (expand_file : String → List String → Result) where
  -- Lines without a token are passed on.
  pub expand_symbols-append :
      (symbols rest : List Symbol) (processed : List String)
      → tokens symbols ≡ []
      → expand_symbols expand_file (symbols ++ rest) processed
        ≡ before_all symbols (expand_symbols expand_file rest processed)
  unfolding expand_symbols
  expand_symbols-append [] rest processed h = sym (before_all-nil _)
  expand_symbols-append (text t ∷ symbols) rest processed h =
      ap (before_all (text t ∷ [])) (expand_symbols-append symbols rest processed h)
      ∙ before_all-append (text t ∷ []) symbols _
  expand_symbols-append (includes_file t ∷ symbols) rest processed h =
      ap (before_all (includes_file t ∷ [])) (expand_symbols-append symbols rest processed h)
      ∙ before_all-append (includes_file t ∷ []) symbols _
  expand_symbols-append (token t ∷ symbols) rest processed h = absurd (cc)

  pub expand_symbols_all :
      (symbols : List Symbol) (processed : List String)
      → tokens symbols ≡ []
      → expand_symbols expand_file symbols processed ≡ some (symbols, processed)
  unfolding expand_symbols
  expand_symbols_all symbols processed h =
      ap (λ l. expand_symbols expand_file l processed) (sym (append-nil symbols))
      ∙ expand_symbols-append symbols [] processed h
      ∙ ap (λ l. some (l, processed)) (append-nil symbols)

  pub expand_symbols_there :
      (path : String) (rest : List Symbol) (processed : List String)
      → has processed path ≡ true
      → expand_symbols expand_file (token path ∷ rest) processed
        ≡ expand_symbols expand_file rest processed
  unfolding expand_symbols
  expand_symbols_there path rest processed h = rw (h, expand_symbols) refl

  pub expand_symbols_new :
      (path : String) (rest fragment : List Symbol) (processed between : List String)
      → has processed path ≡ false
      → expand_file path processed ≡ some (fragment, between)
      → expand_symbols expand_file (token path ∷ rest) processed
        ≡ before_all fragment (expand_symbols expand_file rest (add_path path between))
  unfolding expand_symbols
  expand_symbols_new path rest fragment processed between h e = rw (h, expand_symbols) (rw e refl)
