-- ===== src/BunClient/Scripting.antt =====
-- `ensureScriptsLoaded` of src/classes/bun-redis-client.ts. What `sendCommand` answers to the
-- loading of a script is an argument.
use bullmq.Shared.{
  ℕ, ◌===◌, ===_iff, if◌then◌else◌, ◌||◌, ◌≡◌, refl, sym, ap, ◌∙◌, Bool-cases, inl, inr, true,
  false, List, [], ◌∷◌, ◌++◌, String, has, IsDistinct, All, map, Outcome, returns, throws, arith,
}
use bullmq.BunClient.{BunClient}

pub record LuaScript : Type 0 where
  pub sha : String
  pub lua : String
  pub number_of_keys : ℕ

abbrev pub shas : List LuaScript → List String
shas scripts = map (λ s. s.sha) scripts

-- The loop that collects what is to be loaded; `seen` has its sums.
unfoldable pub to_load : List String → List String → List LuaScript → List LuaScript
to_load loaded seen [] = []
to_load loaded seen (s ∷ scripts) =
    if has loaded s.sha || has seen s.sha
    then to_load loaded seen scripts
    else s ∷ to_load loaded (s.sha ∷ seen) scripts

-- How a call ends, the sums that are known as loaded once all its commands are answered, and the
-- scripts whose loading was asked for.
pub record Loading (E : Type 0) : Type 0 where
  pub result : Outcome E (Unit {0})
  pub loaded : List String
  pub sent : List LuaScript

module _ {E : Type 0} (answer : LuaScript → Outcome E (Unit {0})) where
  -- What follows each answer, in order: a failure does not keep the others from coming.
  unfoldable pub load_all : List LuaScript → List String → Outcome E (Unit {0}) × List String
  load_all [] loaded = (returns tt, loaded)
  load_all (s ∷ scripts) loaded = elim (answer s) [
    | throws e ↦ (throws e, (load_all scripts loaded).1)
    | returns u ↦ load_all scripts (loaded ++ s.sha ∷ [])
  ]

  unfoldable pub ensure_scripts_loaded : List LuaScript → List String → Loading E
  unfolding to_load load_all
  ensure_scripts_loaded scripts loaded =
      let sent = to_load loaded [] scripts in
      let (result, after) = load_all sent loaded in
      record { result = result; loaded = after; sent = sent }

  -- The same on the client, which forgets what is loaded when it connects.
  unfoldable pub ensure_on_client : List LuaScript → BunClient → Outcome E (Unit {0}) × BunClient
  unfolding ensure_scripts_loaded
  ensure_on_client scripts c =
      let l = ensure_scripts_loaded scripts c.loaded_script_shas in
      (l.result, record c { loaded_script_shas = l.loaded })

has-append : (xs : List String) (s j : String) → has (xs ++ s ∷ []) j ≡ (has xs j || (s === j))
has-append [] s j = ground arith
has-append (x ∷ xs) s j = ground (arith, has-append xs s j)

-- Equal sums are known alike.
known_alike :
    (loaded seen : List String) (a j : String)
    → (a === j) ≡ true
    → (has loaded a || has seen a) ≡ (has loaded j || has seen j)
known_alike loaded seen a j e = ap (λ k. has loaded k || has seen k) ((===_iff a j).0 e)

to_load-fresh :
    (loaded seen : List String) (scripts : List LuaScript)
    → All (λ s. has loaded s.sha ≡ false) (to_load loaded seen scripts)
unfolding to_load
to_load-fresh loaded seen [] = tt
to_load-fresh loaded seen (s ∷ scripts) = elim (Bool-cases (has loaded s.sha || has seen s.sha)) [
  | inl e ↦ rw (e) (to_load-fresh loaded seen scripts)
  | inr e ↦ rw (e) (ground (arith, e), to_load-fresh loaded (s.sha ∷ seen) scripts)
]

-- A sum that was seen is not asked for again.
to_load-seen :
    (loaded seen : List String) (scripts : List LuaScript) (j : String)
    → has seen j ≡ true
    → has (shas (to_load loaded seen scripts)) j ≡ false
unfolding to_load
to_load-seen loaded seen [] j h = refl
to_load-seen loaded seen (s ∷ scripts) j h =
    elim (Bool-cases (has loaded s.sha || has seen s.sha)) [
      | inl e ↦ rw (e) (to_load-seen loaded seen scripts j h)
      | inr e ↦ rw (e) (
          ground (
            arith,
            known_alike loaded seen s.sha j,
            to_load-seen loaded (s.sha ∷ seen) scripts j (ground (arith, h)),
          ))
    ]

to_load-IsDistinct :
    (loaded seen : List String) (scripts : List LuaScript)
    → IsDistinct (shas (to_load loaded seen scripts))
unfolding to_load
to_load-IsDistinct loaded seen [] = tt
to_load-IsDistinct loaded seen (s ∷ scripts) =
    elim (Bool-cases (has loaded s.sha || has seen s.sha)) [
      | inl e ↦ rw (e) (to_load-IsDistinct loaded seen scripts)
      | inr e ↦ rw (e) (
        to_load-seen loaded (s.sha ∷ seen) scripts s.sha (ground (arith, ===_iff s.sha s.sha)),
        to_load-IsDistinct loaded (s.sha ∷ seen) scripts,
      )
    ]

-- What is loaded, seen or asked for is what was loaded or seen before or is among the scripts.
to_load-covers :
    (loaded seen : List String) (scripts : List LuaScript) (j : String)
    → (has loaded j || (has seen j || has (shas (to_load loaded seen scripts)) j))
      ≡ (has loaded j || (has seen j || has (shas scripts) j))
unfolding to_load
to_load-covers loaded seen [] j = refl
to_load-covers loaded seen (s ∷ scripts) j =
    elim (Bool-cases (has loaded s.sha || has seen s.sha)) [
      | inl e ↦
          rw (e)
            (ground (arith, known_alike loaded seen s.sha j, to_load-covers loaded seen scripts j))
      | inr e ↦ rw (e) (ground (arith, to_load-covers loaded (s.sha ∷ seen) scripts j))
    ]

module _ {E : Type 0} (answer : LuaScript → Outcome E (Unit {0})) where
  load_all-returns :
      (s : LuaScript) (scripts : List LuaScript) (loaded : List String) (u : Unit {0})
      → answer s ≡ returns u
      → load_all answer (s ∷ scripts) loaded ≡ load_all answer scripts (loaded ++ s.sha ∷ [])
  unfolding load_all
  load_all-returns s scripts loaded u q = rw (q, load_all) refl

  -- When all have been answered without an error, the loaded ones are known.
  load_all-loaded :
      (scripts : List LuaScript) (loaded : List String) (j : String)
      → (load_all answer scripts loaded).0 ≡ returns tt
      → has (load_all answer scripts loaded).1 j ≡ (has loaded j || has (shas scripts) j)
  unfolding load_all
  load_all-loaded [] loaded j h = ground arith
  load_all-loaded (s ∷ scripts) loaded j h =
      go (answer s) refl (load_all-loaded scripts (loaded ++ s.sha ∷ []) j)
    where
      go :
          (o : Outcome E (Unit {0}))
          → answer s ≡ o
          → ((load_all answer scripts (loaded ++ s.sha ∷ [])).0 ≡ returns tt
              → has (load_all answer scripts (loaded ++ s.sha ∷ [])).1 j
                ≡ (has (loaded ++ s.sha ∷ []) j || has (shas scripts) j))
          → has (load_all answer (s ∷ scripts) loaded).1 j
            ≡ (has loaded j || has (shas (s ∷ scripts)) j)
      go (throws e) q rest = absurd (cc (h, q))
      go (returns u) q rest =
          let next = load_all-returns s scripts loaded u q in
          ap (λ r. has r.1 j) next
          ∙ rest (sym (ap (λ r. r.0) next) ∙ h)
          ∙ ground (arith, has-append loaded s.sha j)

  -- The scripts whose loading is asked for have each a sum that was not known as loaded, and no two
  -- the same. If no loading fails, then afterwards exactly the sums that were known before and
  -- those of the given scripts are known.
  pub ensure_scripts_loaded-known :
      (scripts : List LuaScript) (loaded : List String)
      → let l = ensure_scripts_loaded answer scripts loaded in
        All (λ s. has loaded s.sha ≡ false) l.sent
        × IsDistinct (shas l.sent)
        × (l.result ≡ returns tt
            → (sha : String) → has l.loaded sha ≡ (has loaded sha || has (shas scripts) sha))
  unfolding ensure_scripts_loaded
  ensure_scripts_loaded-known scripts loaded = (
    to_load-fresh loaded [] scripts,
    to_load-IsDistinct loaded [] scripts,
    λ h sha.
        load_all-loaded (to_load loaded [] scripts) loaded sha h
        ∙ to_load-covers loaded [] scripts sha,
  )
