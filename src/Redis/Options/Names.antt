-- ===== src/Redis/Options/Names.antt =====
-- The names of options, stored and read by src/classes/redis-queue-backend.ts.
use bullmq.Shared.{
  ◌===◌, ===_iff, ===_refl, if◌then◌else◌, true, false, ◌||◌, [], ◌∷◌, ◌++◌, Option, none, some,
  String, Dict, get, put, keys, has, has-keys-put, ◌≡◌, refl, sym, ◌∙◌, ◌⊎◌, inl, inr, arith,
  Bool-cases, Option-cases,
}
use bullmq.Redis.Options.{Value, decoded, encoded, opt_from_json, opts_from_json}

-- The name that a stored property gets when it is read.
unfoldable pub target : String → String
unfolding decoded
target name = elim (decoded name) [
  | some long ↦ long
  | none ↦ if name === "tm" then "telemetry" else if name === "omc" then "telemetry" else name
]

module _ {V : Type 0} where
  pub put_new :
      (k : String) (v : V) (m : Dict V) → has (keys m) k ≡ false → put k v m ≡ m ++ (k, v) ∷ []
  unfolding put keys
  put_new k v [] h = refl
  put_new k v ((j, w) ∷ m) h = ground (arith, put_new k v m)

  pub put_last :
      (k : String) (v w : V) (m : Dict V)
      → has (keys m) k ≡ false
      → put k v (m ++ (k, w) ∷ []) ≡ m ++ (k, v) ∷ []
  unfolding put keys
  put_last k v w [] h = rw (===_refl k) refl
  put_last k v w ((j, x) ∷ m) h = ground (arith, put_last k v w m)

  pub get_last :
      (k : String) (w : V) (m : Dict V) → has (keys m) k ≡ false → get k (m ++ (k, w) ∷ []) ≡ some w
  unfolding get keys
  get_last k w [] h = rw (===_refl k) refl
  get_last k w ((j, x) ∷ m) h = ground (arith, get_last k w m)

  pub get_new : (k : String) (m : Dict V) → has (keys m) k ≡ false → get k m ≡ none
  unfolding get keys
  get_new k [] h = refl
  get_new k ((j, w) ∷ m) h = ground (arith, get_new k m)

  pub from-append :
      (d xs : Dict (Value V)) (k : String) (v : Value V)
      → opts_from_json d (xs ++ (k, v) ∷ []) ≡ opt_from_json k v (opts_from_json d xs)
  unfolding opts_from_json
  from-append d [] k v = refl
  from-append d ((j, w) ∷ xs) k v = from-append (opt_from_json j w d) xs k v

  -- The names that one turn of reading gives.
  has-opt_from_json :
      (n j : String) (v : Value V) (d : Dict (Value V))
      → has (keys (opt_from_json n v d)) j ≡ (target n === j) || has (keys d) j
  unfolding opt_from_json target
  has-opt_from_json n j v d = elim (Option-cases (decoded n)) [
    | inr (long, e) ↦ rw (e, opt_from_json, target) (has-keys-put long j v d)
    | inl e ↦ elim (Bool-cases (n === "tm")) [
      | inl f ↦ rw (e, f, opt_from_json, target) (has-keys-put "telemetry" j _ d)
      | inr f ↦ elim (Bool-cases (n === "omc")) [
        | inl g ↦ rw (e, f, g, opt_from_json, target) (has-keys-put "telemetry" j _ d)
        | inr g ↦ rw (e, f, g, opt_from_json, target) (has-keys-put n j v d)
      ]
    ]
  ]

  from_keeps :
      (d acc : Dict (Value V)) (j : String)
      → has (keys d) j ≡ true
      → has (keys (opts_from_json d acc)) j ≡ true
  unfolding opts_from_json
  from_keeps d [] j h = h
  from_keeps d ((n, v) ∷ acc) j h =
      from_keeps (opt_from_json n v d) acc j (has-opt_from_json n j v d ∙ ground arith)

  from_gains :
      (d acc : Dict (Value V)) (s : String)
      → has (keys acc) s ≡ true
      → has (keys (opts_from_json d acc)) (target s) ≡ true
  unfolding opts_from_json keys
  from_gains d [] s h = absurd (cc)
  from_gains d ((n, v) ∷ acc) s h = elim (Bool-cases (n === s)) [
    | inl e ↦ from_keeps (opt_from_json n v d) acc (target s) (
        has-opt_from_json n (target s) v d ∙ rw ((===_iff n s).0 e) (rw (===_refl (target s)) refl))
    | inr e ↦ from_gains (opt_from_json n v d) acc s (ground arith)
  ]

  pub not_stored :
      (acc : Dict (Value V)) (s name : String)
      → target s ≡ name
      → has (keys (opts_from_json [] acc)) name ≡ false
      → has (keys acc) s ≡ false
  not_stored acc s name e h = elim (Bool-cases (has (keys acc) s)) [
    | inr f ↦ f
    | inl f ↦ absurd (ground (arith, from_gains [] acc s f))
  ]

-- One pair of names.
pair :
    (short long name key : String) (rest : Option String)
    → (if long === name then some short else rest) ≡ some key
    → ((key ≡ short) × (name ≡ long)) ⊎ (rest ≡ some key)
pair short long name key rest h = elim (Bool-cases (long === name)) [
  | inl e ↦ inl (ground arith, sym ((===_iff long name).0 e))
  | inr e ↦ inr (ground arith)
]

-- What is stored under a short name is read under the name that it is short for.
pub decoded-encoded : (name key : String) → encoded name ≡ some key → decoded key ≡ some name
unfolding decoded encoded
decoded-encoded name key h = elim (pair "de" "deduplication" name key _ h) [
  | inl (e, f) ↦ rw (e, f) refl
  | inr h1 ↦ elim (pair "fpof" "failParentOnFailure" name key _ h1) [
    | inl (e, f) ↦ rw (e, f) refl
    | inr h2 ↦ elim (pair "cpof" "continueParentOnFailure" name key _ h2) [
      | inl (e, f) ↦ rw (e, f) refl
      | inr h3 ↦ elim (pair "idof" "ignoreDependencyOnFailure" name key _ h3) [
        | inl (e, f) ↦ rw (e, f) refl
        | inr h4 ↦ elim (pair "kl" "keepLogs" name key _ h4) [
          | inl (e, f) ↦ rw (e, f) refl
          | inr h5 ↦ elim (pair "rdof" "removeDependencyOnFailure" name key _ h5) [
            | inl (e, f) ↦ rw (e, f) refl
            | inr h6 ↦ absurd (cc)
          ]
        ]
      ]
    ]
  ]
]
