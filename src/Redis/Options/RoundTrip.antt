-- ===== src/Redis/Options/RoundTrip.antt =====
-- The options of a job that src/classes/redis-queue-backend.ts stores are read back as they were.
use bullmq.Shared.{
  ◌===◌, ===_iff, true, false, ◌||◌, [], ◌∷◌, ◌++◌, Option, none, some, String, Dict, put, keys,
  has, has-keys-put, IsDistinct, ◌≡◌, refl, sym, ap, subst, ◌∙◌, inl, inr, arith, Option-cases,
  append_assoc, append-nil, All,
}
use bullmq.Redis.Options.{
  Value, undefined, plain, telemetry, decoded, encoded, defined_as_json, opt_as_json, opts_as_json,
  opt_from_json, opts_from_json,
}
use bullmq.Redis.Options.Names.{
  target, put_new, put_last, get_last, get_new, from-append, not_stored, decoded-encoded,
}

-- What an option may be: its name is none of the stored, short names, and `telemetry` is the option
-- that is an object with `metadata` or `omitContext`.
abbrev pub IsOptionValue : {V : Type 0} → String → Value V → Type 0
IsOptionValue name undefined = ⊥
IsOptionValue name (plain v) = (name === "telemetry") ≡ false
IsOptionValue name (telemetry none none) = ⊥
IsOptionValue name (telemetry (some m) o) = (name === "telemetry") ≡ true
IsOptionValue name (telemetry none (some o)) = (name === "telemetry") ≡ true

abbrev pub IsOption : {V : Type 0} → String × Value V → Type 0
IsOption (name, value) =
    (decoded name ≡ none)
    × ((name === "tm") ≡ false)
    × ((name === "omc") ≡ false)
    × IsOptionValue name value

module _ {V : Type 0} where
  as_encoded :
      (name key : String) (v : V) (acc : Dict (Value V))
      → encoded name ≡ some key
      → opt_as_json name (plain v) acc ≡ put key (plain v) acc
  unfolding opt_as_json
  as_encoded name key v acc e = rw (e, opt_as_json, defined_as_json) refl

  as_itself :
      (name : String) (v : V) (acc : Dict (Value V))
      → encoded name ≡ none
      → (name === "telemetry") ≡ false
      → opt_as_json name (plain v) acc ≡ put name (plain v) acc
  unfolding opt_as_json
  as_itself name v acc e n = rw (e, n, opt_as_json, defined_as_json) refl

  read_long :
      (s long : String) (v : Value V) (d : Dict (Value V))
      → decoded s ≡ some long
      → (target s ≡ long) × (opt_from_json s v d ≡ put long v d)
  unfolding target opt_from_json
  read_long s long v d e = (rw (e, target) refl, rw (e, opt_from_json) refl)

  read_itself :
      (s : String) (v : Value V) (d : Dict (Value V))
      → decoded s ≡ none
      → (s === "tm") ≡ false
      → (s === "omc") ≡ false
      → (target s ≡ s) × (opt_from_json s v d ≡ put s v d)
  unfolding target opt_from_json
  read_itself s v d e t c = (rw (e, t, c, target) refl, rw (e, t, c, opt_from_json) refl)

  -- A property stored under `s` and read as the option `name`.
  stored :
      (acc : Dict (Value V)) (s name : String) (v w : Value V)
      → target s ≡ name
      → has (keys (opts_from_json [] acc)) name ≡ false
      → opt_from_json s v (opts_from_json [] acc) ≡ put name w (opts_from_json [] acc)
      → opts_from_json [] (put s v acc) ≡ opts_from_json [] acc ++ (name, w) ∷ []
  stored acc s name v w e h f =
      ap (opts_from_json []) (put_new s v acc (not_stored acc s name e h))
      ∙ (from-append [] acc s v ∙ (f ∙ put_new name w (opts_from_json [] acc) h))

  turn_plain :
      (acc : Dict (Value V)) (name : String) (v : V)
      → IsOption (name, plain v)
      → has (keys (opts_from_json [] acc)) name ≡ false
      → opts_from_json [] (opt_as_json name (plain v) acc)
        ≡ opts_from_json [] acc ++ (name, plain v) ∷ []
  turn_plain acc name v (d, t, c, n) h = elim (Option-cases (encoded name)) [
    | inl e ↦
        let (f, g) = read_itself name (plain v) (opts_from_json [] acc) d t c in
        ap (opts_from_json []) (as_itself name v acc e n)
        ∙ stored acc name name (plain v) (plain v) f h g
    | inr (key, e) ↦
        let (f, g) =
          read_long key name (plain v) (opts_from_json [] acc) (decoded-encoded name key e) in
        ap (opts_from_json []) (as_encoded name key v acc e)
        ∙ stored acc key name (plain v) (plain v) f h g
  ]

  -- The turn of `telemetry`, by which of its two fields it has.
  turn_metadata :
      (acc : Dict (Value V)) (m : V)
      → has (keys (opts_from_json [] acc)) "telemetry" ≡ false
      → opts_from_json [] (put "tm" (plain m) acc)
        ≡ opts_from_json [] acc ++ ("telemetry", telemetry (some m) none) ∷ []
  unfolding target opt_from_json decoded
  turn_metadata acc m h =
      stored acc "tm" "telemetry" (plain m) (telemetry (some m) none) refl h
        (rw (get_new "telemetry" (opts_from_json [] acc) h) refl)

  turn_omit_context :
      (acc : Dict (Value V)) (o : V)
      → has (keys (opts_from_json [] acc)) "telemetry" ≡ false
      → opts_from_json [] (put "omc" (plain o) acc)
        ≡ opts_from_json [] acc ++ ("telemetry", telemetry none (some o)) ∷ []
  unfolding target opt_from_json decoded
  turn_omit_context acc o h =
      stored acc "omc" "telemetry" (plain o) (telemetry none (some o)) refl h
        (rw (get_new "telemetry" (opts_from_json [] acc) h) refl)

  turn_both :
      (acc : Dict (Value V)) (m o : V)
      → has (keys (opts_from_json [] acc)) "telemetry" ≡ false
      → opts_from_json [] (put "omc" (plain o) (put "tm" (plain m) acc))
        ≡ opts_from_json [] acc ++ ("telemetry", telemetry (some m) (some o)) ∷ []
  unfolding target opt_from_json decoded
  turn_both acc m o h =
      let d = opts_from_json [] acc in
      let acc' = put "tm" (plain m) acc in
      let free : has (keys acc') "omc" ≡ false =
        has-keys-put "tm" "omc" (plain m) acc ∙ not_stored acc "omc" "telemetry" refl h in
      ap (opts_from_json []) (put_new "omc" (plain o) acc' free)
      ∙ (from-append [] acc' "omc" (plain o)
          ∙ (ap (opt_from_json "omc" (plain o)) (turn_metadata acc m h)
              ∙ rw (get_last "telemetry" (telemetry (some m) none) d h) (
                  put_last "telemetry" (telemetry (some m) (some o)) (telemetry (some m) none) d
                    h)))

  abbrev Returns : Dict (Value V) → Value V → String → Type 0
  Returns acc value name =
      has (keys (opts_from_json [] acc)) name ≡ false
      → opts_from_json [] (opt_as_json name value acc) ≡ opts_from_json [] acc ++ (name, value) ∷ []

  turn_telemetry :
      (acc : Dict (Value V)) (name : String) (m o : Option V)
      → IsOption (name, telemetry m o)
      → has (keys (opts_from_json [] acc)) name ≡ false
      → opts_from_json [] (opt_as_json name (telemetry m o) acc)
        ≡ opts_from_json [] acc ++ (name, telemetry m o) ∷ []
  unfolding opt_as_json encoded
  turn_telemetry acc name none none i h = absurd (i.3)
  turn_telemetry acc name (some m) none i h =
      subst (Returns acc (telemetry (some m) none)) (sym ((===_iff name "telemetry").0 i.3))
        (turn_metadata acc m) h
  turn_telemetry acc name none (some o) i h =
      subst (Returns acc (telemetry none (some o))) (sym ((===_iff name "telemetry").0 i.3))
        (turn_omit_context acc o) h
  turn_telemetry acc name (some m) (some o) i h =
      subst (Returns acc (telemetry (some m) (some o))) (sym ((===_iff name "telemetry").0 i.3))
        (turn_both acc m o) h

  turn :
      (acc : Dict (Value V)) (name : String) (value : Value V)
      → IsOption (name, value)
      → has (keys (opts_from_json [] acc)) name ≡ false
      → opts_from_json [] (opt_as_json name value acc) ≡ opts_from_json [] acc ++ (name, value) ∷ []
  turn acc name undefined i h = absurd (i.3)
  turn acc name (plain v) i h = turn_plain acc name v i h
  turn acc name (telemetry m o) i h = turn_telemetry acc name m o i h

  has-append :
      (m : Dict (Value V)) (k j : String) (v : Value V)
      → has (keys (m ++ (k, v) ∷ [])) j ≡ (k === j) || has (keys m) j
  unfolding keys
  has-append [] k j v = refl
  has-append ((i, w) ∷ m) k j v = ground (arith, has-append m k j v)

  -- The names that are to come stay new.
  stay_new :
      (d d' : Dict (Value V)) (name : String) (value : Value V) (o : Dict (Value V))
      → d' ≡ d ++ (name, value) ∷ []
      → has (keys o) name ≡ false
      → All (λ e. has (keys d) e.0 ≡ false) o
      → All (λ e. has (keys d') e.0 ≡ false) o
  unfolding keys
  stay_new d d' name value [] e h n = tt
  stay_new d d' name value ((k, v) ∷ o) e h n = (
    ap (λ m. has (keys m) k) e
        ∙ (has-append d name k value ∙ ground (arith, n.0, ===_iff k name, ===_iff name k)),
    stay_new d d' name value o e (ground arith) n.1,
  )

  turns :
      (acc o : Dict (Value V))
      → All IsOption o
      → IsDistinct (keys o)
      → All (λ e. has (keys (opts_from_json [] acc)) e.0 ≡ false) o
      → opts_from_json [] (opts_as_json acc o) ≡ opts_from_json [] acc ++ o
  unfolding opts_as_json keys
  turns acc [] g d n = sym (append-nil (opts_from_json [] acc))
  turns acc ((name, value) ∷ o) g d n =
      let e = turn acc name value g.0 n.0 in
      turns (opt_as_json name value acc) o g.1 d.1
        (stay_new (opts_from_json [] acc) _ name value o e d.0 n.1)
      ∙ (ap (λ t. t ++ o) e ∙ append_assoc (opts_from_json [] acc) ((name, value) ∷ []) o)

All-new : {V : Type 0} (o : Dict (Value V)) → All (λ e. false ≡ false) o
All-new [] = tt
All-new (e ∷ o) = (refl, All-new o)

-- Options that have none of the short names, no name twice, no value `undefined` and no empty
-- `telemetry`, are read back exactly as they were stored.
pub opts_from_json-opts_as_json :
    {V : Type 0} (o : Dict (Value V))
    → All IsOption o
    → IsDistinct (keys o)
    → opts_from_json [] (opts_as_json [] o) ≡ o
unfolding opts_from_json keys
opts_from_json-opts_as_json o g d = turns [] o g d (All-new o)
