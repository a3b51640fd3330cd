-- ===== src/Scripts/Interpolating/Tokens.antt =====
-- How the tokens of a script are replaced in src/commands/script-loader.ts.
use bullmq.Shared.{
  ◌==◌, Bool, true, none, All, ===_refl, not, ◌≡◌, refl, ap, ◌∙◌, false, List, [], ◌∷◌, ◌++◌,
  String, has, keep-append, arith,
}
use bullmq.Scripts.{Symbol, text, includes_file, token}
use bullmq.Scripts.Interpolating.{
  is_token, remove_all, replace_from, replace_first, substitute, dollar, pattern_at,
  expand_patterns,
}

-- The paths of the tokens, in order.
abbrev pub tokens : List Symbol → List String
tokens [] = []
tokens (text t ∷ symbols) = tokens symbols
tokens (includes_file r ∷ symbols) = tokens symbols
tokens (token p ∷ symbols) = p ∷ tokens symbols

pub tokens-append : (xs ys : List Symbol) → tokens (xs ++ ys) ≡ tokens xs ++ tokens ys
tokens-append [] ys = refl
tokens-append (text t ∷ xs) ys = tokens-append xs ys
tokens-append (includes_file r ∷ xs) ys = tokens-append xs ys
tokens-append (token p ∷ xs) ys = ap (λ l. p ∷ l) (tokens-append xs ys)

-- The first token, with the symbols before and after it.
pub split_token :
    (content : List Symbol) (path : String) (paths : List String)
    → tokens content ≡ path ∷ paths
    → (before : List Symbol) × (rest : List Symbol) × (content ≡ before ++ token path ∷ rest)
      × (tokens before ≡ [])
      × (tokens rest ≡ paths)
split_token [] path paths h = absurd (cc)
split_token (text t ∷ content) path paths h =
    let (b, r, e, x, y) = split_token content path paths h in
    (text t ∷ b, r, ap (λ l. text t ∷ l) e, x, y)
split_token (includes_file t ∷ content) path paths h =
    let (b, r, e, x, y) = split_token content path paths h in
    (includes_file t ∷ b, r, ap (λ l. includes_file t ∷ l) e, x, y)
split_token (token p ∷ content) path paths h =
    let same : p ≡ path = cc in
    let others : tokens content ≡ paths = cc in
    ([], content, ap (λ q. token q ∷ content) same, refl, others)

-- Nothing is removed where the token does not stand.
pub remove_all_none :
    (path : String) (symbols : List Symbol)
    → has (tokens symbols) path ≡ false
    → remove_all path symbols ≡ symbols
unfolding remove_all
remove_all_none path [] h = refl
remove_all_none path (text t ∷ symbols) h = ap (λ l. text t ∷ l) (remove_all_none path symbols h)
remove_all_none path (includes_file t ∷ symbols) h =
    ap (λ l. includes_file t ∷ l) (remove_all_none path symbols h)
remove_all_none path (token p ∷ symbols) h = ground (arith, remove_all_none path symbols)

-- A script without a dollar.
abbrev is_plain : Symbol → Bool
is_plain (text c) = not (c == dollar)
is_plain (includes_file r) = true
is_plain (token p) = true

abbrev pub IsPlain : List Symbol → Type 0
IsPlain symbols = All (λ s. is_plain s ≡ true) symbols

no_pattern :
    (before after : List Symbol) (match x y : Symbol)
    → is_plain x ≡ true
    → pattern_at before match after x y ≡ none
no_pattern before after match (text c) (text d) h = ground (arith, h)
no_pattern before after match (text c) (includes_file r) h = refl
no_pattern before after match (text c) (token p) h = refl
no_pattern before after match (includes_file r) y h = refl
no_pattern before after match (token p) y h = refl

-- It is put in as it stands.
expand_patterns-plain :
    (before after : List Symbol) (match : Symbol) (replacement : List Symbol)
    → IsPlain replacement
    → expand_patterns before match after replacement ≡ replacement
unfolding expand_patterns
expand_patterns-plain before after match [] h = refl
expand_patterns-plain before after match (x ∷ []) h = refl
expand_patterns-plain before after match (x ∷ y ∷ replacement) h =
    rw (no_pattern before after match x y h.0, expand_patterns)
      (ap (λ l. x ∷ l) (expand_patterns-plain before after match (y ∷ replacement) h.1))

replace_from_at :
    (path : String) (front replacement before rest : List Symbol)
    → tokens before ≡ []
    → IsPlain replacement
    → replace_from front path replacement (before ++ token path ∷ rest)
      ≡ before ++ (replacement ++ rest)
unfolding replace_from
replace_from_at path front replacement [] rest h u =
    rw (===_refl path)
      (ap (λ l. l ++ rest) (expand_patterns-plain front rest (token path) replacement u))
replace_from_at path front replacement (text t ∷ before) rest h u =
    ap (λ l. text t ∷ l) (replace_from_at path (front ++ text t ∷ []) replacement before rest h u)
replace_from_at path front replacement (includes_file t ∷ before) rest h u =
    ap (λ l. includes_file t ∷ l)
      (replace_from_at path (front ++ includes_file t ∷ []) replacement before rest h u)
replace_from_at path front replacement (token p ∷ before) rest h u = absurd (cc)

pub tokens_between :
    (before replacement rest : List Symbol)
    → tokens before ≡ []
    → tokens replacement ≡ []
    → tokens (before ++ (replacement ++ rest)) ≡ tokens rest
tokens_between before replacement rest h k =
    tokens-append before (replacement ++ rest)
    ∙ ap (λ l. l ++ tokens (replacement ++ rest)) h
    ∙ tokens-append replacement rest
    ∙ ap (λ l. l ++ tokens rest) k

remove_all_at :
    (path : String) (rest : List Symbol)
    → remove_all path (token path ∷ rest) ≡ remove_all path rest
unfolding remove_all
remove_all_at path rest = rw (===_refl path)

remove_all-append :
    (path : String) (xs ys : List Symbol)
    → remove_all path (xs ++ ys) ≡ remove_all path xs ++ remove_all path ys
unfolding remove_all
remove_all-append path xs ys = keep-append (λ l. not (is_token path l)) xs ys

-- Where the token stands once, a replacement without a dollar takes its place.
pub substitute_at :
    (path : String) (replacement before rest : List Symbol)
    → tokens before ≡ []
    → tokens replacement ≡ []
    → has (tokens rest) path ≡ false
    → IsPlain replacement
    → substitute path replacement (before ++ token path ∷ rest) ≡ before ++ (replacement ++ rest)
unfolding replace_first
substitute_at path [] before rest h k n u =
    remove_all-append path before (token path ∷ rest)
    ∙ ap (λ l. l ++ remove_all path (token path ∷ rest))
        (remove_all_none path before (ap (λ l. has l path) h))
    ∙ ap (λ l. before ++ l) (remove_all_at path rest ∙ remove_all_none path rest n)
substitute_at path (l ∷ replacement) before rest h k n u =
    ap (remove_all path) (replace_from_at path [] (l ∷ replacement) before rest h u)
    ∙ remove_all_none path (before ++ ((l ∷ replacement) ++ rest))
        (ap (λ ts. has ts path) (tokens_between before (l ∷ replacement) rest h k) ∙ n)
