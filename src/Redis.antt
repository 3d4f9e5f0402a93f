-- ===== src/Redis.antt =====
-- What the code relies on of Redis, and of Django's cache upon it: a store of values under keys, each
-- for a number of seconds. It is a parameter of what uses it.
use juris.Base.{
  Bool, Bool-cases, Option, arith, false, if◌then◌else◌, inl, inr, ltb, none, refl, some, true, ℕ,
  ◌*◌, ◌+◌, ◌≡◌, ◌≢◌, ◌≤◌, ◌⊎◌,
}
use juris.Clock.{second}

-- Reads are made at an instant. Each law is what the manual says of GET, SETEX and DEL.
pub record Redis (K V : Type 0) : Type 1 where
  pub Store : Type 0
  pub get : Store → ℕ → K → Option V
  pub setex : Store → ℕ → K → ℕ → V → Store
  pub delete : Store → K → Store
  pub get-setex_same :
      (s : Store) (now later : ℕ) (k : K) (ttl : ℕ) (v : V)
      → now ≤ later
      → get (setex s now k ttl v) later k
        ≡ (if ltb later (now + ttl * second) then some v else none)
  pub get-setex_other :
      (s : Store) (now later : ℕ) (k j : K) (ttl : ℕ) (v : V)
      → k ≢ j
      → get (setex s now k ttl v) later j ≡ get s later j
  pub get-delete_same : (s : Store) (now : ℕ) (k : K) → get (delete s k) now k ≡ none
  pub get-delete_other :
      (s : Store) (now : ℕ) (k j : K) → k ≢ j → get (delete s k) now j ≡ get s now j
  -- A value that is not written again stays until its time is over.
  pub get-later :
      (s : Store) (now later : ℕ) (k : K)
      → now ≤ later
      → (get s later k ≡ none) ⊎ (get s later k ≡ get s now k)

-- A store that meets the laws: a function to values with their ends.
module _ {K V : Type 0} (same : K → K → Bool) where
  abbrev alive : ℕ → Option (V × ℕ) → Option V
  alive now none = none
  alive now (some (v, end)) = if ltb now end then some v else none

  pub alive-later :
      (e : Option (V × ℕ)) (now later : ℕ)
      → now ≤ later
      → (alive later e ≡ none) ⊎ (alive later e ≡ alive now e)
  alive-later none now later h = inl refl
  alive-later (some (v, end)) now later h = elim (Bool-cases (ltb later end)) [
    | inl y ↦ inr (ground arith)
    | inr n ↦ inl (ground arith)
  ]

  module _ (same_refl : (k : K) → same k k ≡ true)
      (same_ne : (k j : K) → k ≢ j → same k j ≡ false) where
    abbrev pub table : Redis K V
    table = record {
      Store = K → Option (V × ℕ);
      get = λ s now k. alive now (s k);
      setex = λ s now k ttl v j. if same k j then some (v, now + ttl * second) else s j;
      delete = λ s k j. if same k j then none else s j;
      get-setex_same = λ s now later k ttl v h. rw (same_refl k) refl;
      get-setex_other = λ s now later k j ttl v h. rw (same_ne k j h) refl;
      get-delete_same = λ s now k. rw (same_refl k) refl;
      get-delete_other = λ s now k j h. rw (same_ne k j h) refl;
      get-later = λ s now later k h. alive-later (s k) now later h;
    }
