-- ===== src/Scripts/Interpolating/Expanding/Agreement.antt =====
-- `interpolate` of src/commands/script-loader.ts and the walk over the symbols give the same
-- script.
use bullmq.Shared.{
  ℕ, zero, suc, ◌<◌, ◌≤◌, ◌≡◌, refl, sym, ap, subst, ◌∙◌, inl, inr, Bool-cases, Option-cases, Bool,
  true, false, List, [], ◌∷◌, ◌++◌, none, some, String, has, IsDistinct, All, All-append, arith,
}
use bullmq.Scripts.{Symbol, token, Cache, file_at}
use bullmq.Scripts.Interpolating.{
  add_path, substitute, replacement_of, interpolate_children, interpolate,
}
use bullmq.Scripts.Interpolating.Tokens.{
  IsPlain, tokens, split_token, substitute_at, tokens_between,
}
use bullmq.Scripts.Interpolating.Expanding.{
  Result, before_all, expand_symbols, expand, AreResolved, AllIn, Extends, AllIn-Extends,
  add_path-Extends, has-add_path, add_path_lem, add_path_there, expand_symbols-append,
  expand_symbols_all, expand_symbols_there, expand_symbols_new,
}

children-none :
    (f : String → List String → Result) (path : String) (paths : List String)
    (content : List Symbol) (p : List String)
    → f path p ≡ none
    → interpolate_children f (path ∷ paths) content p ≡ none
unfolding interpolate_children
children-none f path paths content p e = rw (e, interpolate_children) refl

children-some :
    (f : String → List String → Result) (path : String) (paths : List String)
    (content : List Symbol) (p : List String) (fragment : List Symbol) (q : List String)
    → f path p ≡ some (fragment, q)
    → interpolate_children f (path ∷ paths) content p
      ≡ interpolate_children f paths
          (substitute path (replacement_of (has p path) fragment) content)
          (add_path path q)
unfolding interpolate_children
children-some f path paths content p fragment q e = rw (e, interpolate_children) refl

abbrev pub HasNoDollar : Cache → Type 0
HasNoDollar cache = (file : String) → IsPlain (file_at file cache).content

plain_around :
    (path : String) (before rest : List Symbol)
    → IsPlain (before ++ token path ∷ rest)
    → IsPlain before × IsPlain rest
plain_around path [] rest h = (tt, h.1)
plain_around path (l ∷ before) rest h =
    let (b, r) = plain_around path before rest h.1 in ((h.0, b), r)

plain-replacement_of :
    (b : Bool) (fragment : List Symbol) → IsPlain fragment → IsPlain (replacement_of b fragment)
plain-replacement_of true fragment h = tt
plain-replacement_of false fragment h = h

module _ (cache : Cache) (resolved : AreResolved cache) (dollars : HasNoDollar cache) where
  abbrev includes_of : String → List String
  includes_of file = (file_at file cache).includes

  -- What a processed file includes is processed.
  abbrev IsClosed : List String → Type 0
  IsClosed p = (j : String) → has p j ≡ true → AllIn p (includes_of j)

  -- What a call that returns symbols and processed files has done for some paths.
  record Done (paths processed : List String) (out : List Symbol) (after : List String)
      : Type 0 where
    bare : tokens out ≡ []
    plain : IsPlain out
    closed : IsClosed after
    put_in : AllIn after paths
    extends : Extends processed after
    same : AllIn processed paths → after ≡ processed

  abbrev Agrees : (String → List String → Result) → (String → List String → Result) → Type 0
  Agrees f g =
      (path : String) (p : List String) (out : List Symbol) (q : List String)
      → IsClosed p
      → f path p ≡ some (out, q)
      → (g path p ≡ some (out, q)) × Done (includes_of path) p out q

  add_path-IsClosed :
      (path : String) (p : List String)
      → IsClosed p
      → AllIn p (includes_of path)
      → IsClosed (add_path path p)
  add_path-IsClosed path p h k j there = elim (add_path_lem path j p there) [
    | inl old ↦
        AllIn-Extends p (add_path path p) (includes_of j) (add_path-Extends path p) (h j old)
    | inr e ↦
        AllIn-Extends p (add_path path p) (includes_of j) (add_path-Extends path p)
          (subst (λ i. AllIn p (includes_of i)) e k)
  ]

  tokens-replacement_of :
      (b : Bool) (fragment : List Symbol)
      → tokens fragment ≡ []
      → tokens (replacement_of b fragment) ≡ []
  tokens-replacement_of true fragment h = refl
  tokens-replacement_of false fragment h = h

  -- Where the first token stands, the walk puts what the substitution does.
  expand_symbols-token :
      (f : String → List String → Result) (path : String) (before rest fragment : List Symbol)
      (p q : List String)
      → tokens before ≡ []
      → tokens fragment ≡ []
      → f path p ≡ some (fragment, q)
      → (has p path ≡ true → q ≡ p)
      → expand_symbols f (before ++ token path ∷ rest) p
        ≡ expand_symbols f
            (before ++ (replacement_of (has p path) fragment ++ rest))
            (add_path path q)
  expand_symbols-token f path before rest fragment p q h k e same = elim (Bool-cases (has p path)) [
    | inl there ↦
        let state : add_path path q ≡ p =
          ap (add_path path) (same there) ∙ add_path_there path p there in
        let gone : replacement_of (has p path) fragment ≡ [] =
          ap (λ b. replacement_of b fragment) there in
        expand_symbols-append f before (token path ∷ rest) p h
        ∙ ap (before_all before) (expand_symbols_there f path rest p there)
        ∙ sym (expand_symbols-append f before rest p h)
        ∙ ap (λ r. expand_symbols f (before ++ (r ++ rest)) p) (sym gone)
        ∙ ap (expand_symbols f (before ++ (replacement_of (has p path) fragment ++ rest)))
            (sym state)
    | inr new ↦
        let kept : replacement_of (has p path) fragment ≡ fragment =
          ap (λ b. replacement_of b fragment) new in
        expand_symbols-append f before (token path ∷ rest) p h
        ∙ ap (before_all before) (
            expand_symbols_new f path rest fragment p q new e
            ∙ sym (expand_symbols-append f fragment rest (add_path path q) k))
        ∙ sym (expand_symbols-append f before (fragment ++ rest) (add_path path q) h)
        ∙ ap (λ r. expand_symbols f (before ++ (r ++ rest)) (add_path path q)) (sym kept)
  ]

  -- The loop over the includes does what the walk does over the symbols.
  children-Done :
      (f g : String → List String → Result)
      → Agrees f g
      → (paths : List String) (content : List Symbol) (p : List String) (out : List Symbol)
        (q : List String)
      → tokens content ≡ paths
      → IsDistinct paths
      → IsPlain content
      → IsClosed p
      → interpolate_children f paths content p ≡ some (out, q)
      → (expand_symbols g content p ≡ some (out, q)) × Done paths p out q
  unfolding interpolate_children
  children-Done f g agree [] content p out q t d u c e =
      let same_out : content ≡ out = cc in
      let same_p : p ≡ q = cc in
      (
        expand_symbols_all g content p t ∙ e,
        record {
          bare = subst (λ l. tokens l ≡ []) same_out t;
          plain = subst IsPlain same_out u;
          closed = subst IsClosed same_p c;
          put_in = tt;
          extends = λ j h. subst (λ r. has r j ≡ true) same_p h;
          same = λ h. sym same_p;
        },
      )
  children-Done f g agree (path ∷ paths) content p out q t d u c e =
      elim (Option-cases (f path p)) [
        | inl stops ↦
            let nothing : ◌≡◌ {A = Result} none (some (out, q)) =
              sym (children-none f path paths content p stops) ∙ e in
            absurd (cc)
        | inr ((fragment, mid), found) ↦
            let (b, r, s, tb, tr) = split_token content path paths t in
            let one = agree path p fragment mid c found in
            let put = replacement_of (has p path) fragment in
            let bare = tokens-replacement_of (has p path) fragment one.1.bare in
            let smooth = plain-replacement_of (has p path) fragment one.1.plain in
            let (ub, ur) = plain_around path b r (subst IsPlain s u) in
            let alike = λ (h : has p path ≡ true). one.1.same (c path h) in
            let rest =
              children-Done f g agree paths (b ++ (put ++ r)) (add_path path mid) out q
                (tokens_between b put r tb bare ∙ tr) d.1
                (All-append _ b (put ++ r) ub (All-append _ put r smooth ur))
                (add_path-IsClosed path mid one.1.closed one.1.put_in)
                (ap (λ l. interpolate_children f paths l (add_path path mid))
                    (sym (
                      ap (substitute path put) s
                      ∙ substitute_at path put b r tb bare (ap (λ l. has l path) tr ∙ d.0) smooth))
                  ∙ sym (children-some f path paths content p fragment mid found)
                  ∙ e) in
            (
              ap (λ l. expand_symbols g l p) s
                  ∙ expand_symbols-token g path b r fragment p mid tb one.1.bare one.0 alike
                  ∙ rest.0,
              record {
                bare = rest.1.bare;
                plain = rest.1.plain;
                closed = rest.1.closed;
                put_in = (rest.1.extends path (has-add_path path mid), rest.1.put_in);
                extends = λ j h. rest.1.extends j (add_path-Extends path mid j (one.1.extends j h));
                same = λ h.
                    let still : add_path path mid ≡ p =
                      ap (add_path path) (alike h.0) ∙ add_path_there path p h.0 in
                    rest.1.same (subst (λ s. AllIn s paths) (sym still) h.1) ∙ still;
              },
            )
      ]

  interpolate-Agrees : (fuel : ℕ) → Agrees (interpolate cache fuel) (expand cache fuel)
  unfolding interpolate expand
  interpolate-Agrees zero path p out q c e = absurd (cc)
  interpolate-Agrees (suc fuel) path p out q c e =
      children-Done (interpolate cache fuel) (expand cache fuel) (interpolate-Agrees fuel)
        (includes_of path) (file_at path cache).content p out q (resolved.listed path)
        (resolved.distinct path) (dollars path) c e

-- No file includes one of the same or a higher rank.
abbrev pub IsRanked : Cache → (String → ℕ) → Type 0
IsRanked cache rank =
    (file : String) → All (λ child. rank child < rank file) (file_at file cache).includes

module _ (cache : Cache) (rank : String → ℕ) (ranked : IsRanked cache rank) where
  children_total :
      (fuel : ℕ)
      → ((path : String) (p : List String)
          → rank path < fuel
          → (r : List Symbol × List String) × (interpolate cache fuel path p ≡ some r))
      → (n : ℕ) (paths : List String) (content : List Symbol) (p : List String) → n ≤ fuel
      → All (λ child. rank child < n) paths
      → (r : List Symbol × List String) × (interpolate_children
            (interpolate cache fuel)
            paths
            content
            p
          ≡ some r)
  unfolding interpolate_children
  children_total fuel total n [] content p l h = ((content, p), refl)
  children_total fuel total n (path ∷ paths) content p l h =
      let ((fragment, q), e) = total path p (omega (arith, h.0)) in
      let (o, k) =
        children_total fuel total n paths
          (substitute path (replacement_of (has p path) fragment) content) (add_path path q) l
          h.1 in
      (o, children-some (interpolate cache fuel) path paths content p fragment q e ∙ k)

  interpolate_total :
      (fuel : ℕ) (path : String) (p : List String)
      → rank path < fuel
      → (r : List Symbol × List String) × (interpolate cache fuel path p ≡ some r)
  unfolding interpolate
  interpolate_total zero path p h = absurd (omega arith)
  interpolate_total (suc fuel) path p h =
      children_total fuel (interpolate_total fuel) (rank path) (file_at path cache).includes
        (file_at path cache).content p (omega arith) (ranked path)

-- Where each file in the cache has been resolved and holds no `$`, which `replace` could take for a
-- pattern, and includes do not go round in circles, the final script is that of the walk over the
-- symbols: each file stands where its first token was met, and its other tokens are left out. It
-- has no token left, and all that the script includes, directly or not, was put in. A fuel above
-- the rank of the file is enough.
pub interpolate-expand :
    (cache : Cache) (rank : String → ℕ) (file : String) (fuel : ℕ)
    → AreResolved cache
    → HasNoDollar cache
    → IsRanked cache rank
    → rank file < fuel
    → (out : List Symbol) × (processed : List String) × (interpolate cache fuel file []
        ≡ some (out, processed))
      × (expand cache fuel file [] ≡ some (out, processed))
      × (tokens out ≡ [])
      × AllIn processed (file_at file cache).includes
      × ((j : String) → has processed j ≡ true → AllIn processed (file_at j cache).includes)
interpolate-expand cache rank file fuel resolved dollars ranked enough =
    let ((out, processed), e) = interpolate_total cache rank ranked fuel file [] enough in
    let (agrees, done) =
      interpolate-Agrees cache resolved dollars fuel file [] out processed (λ j h. absurd (cc)) e in
    (out, processed, e, agrees, done.bare, done.put_in, done.closed)
