-- ===== src/Table.antt =====
-- A database table as the list of its rows. A row is found by its primary key; `save` replaces the
-- row with the same key, or adds a new row at the end.
use mathlib.Core.Path.{subst}
use juris.Base.{
  All, Bool, Bool-cases, List, Option, [], ap, arith, false, first_row, if◌then◌else◌, inl, inr,
  none, refl, some, some_eq, sum_of, sym, true, ℕ, ◌+◌, ◌==◌, ◌∙◌, ◌∷◌, ◌≡◌,
}

module _ {ℓ} {A : Type ℓ} (key : A → ℕ) where
  -- `objects.get(pk=k)`; none where the code raises `DoesNotExist`
  abbrev pub find : ℕ → List A → Option A
  find k [] = none
  find k (x ∷ xs) = if key x == k then some x else find k xs

  -- `row.save()`
  abbrev pub save_row : A → List A → List A
  save_row a [] = a ∷ []
  save_row a (x ∷ xs) = if key x == key a then a ∷ xs else x ∷ save_row a xs

  -- `row.delete()`
  abbrev pub delete_row : ℕ → List A → List A
  delete_row k [] = []
  delete_row k (x ∷ xs) = if key x == k then xs else x ∷ delete_row k xs

  -- No two rows have one key.
  abbrev pub HasKeys : List A → Type 0
  HasKeys [] = Unit
  HasKeys (x ∷ xs) = All (λ y. (key y == key x) ≡ false) xs × HasKeys xs

  -- A row that is saved is the one that its key finds, and no other row changes.
  pub find-save_row :
      (k : ℕ) (a : A) (xs : List A)
      → find k (save_row a xs) ≡ (if key a == k then some a else find k xs)
  find-save_row k a [] = refl
  find-save_row k a (x ∷ xs) = ground (arith, find-save_row k a xs)

  -- A row's weight leaves the sum, and the new row's weight enters it.
  pub sum_of-save_row :
      (w : A → ℕ) (a old : A) (xs : List A)
      → find (key a) xs ≡ some old
      → sum_of w (save_row a xs) + w old ≡ sum_of w xs + w a
  sum_of-save_row w a old [] h = cc
  sum_of-save_row w a old (x ∷ xs) h = ground (arith, sum_of-save_row w a old xs)

  -- A row with a new key adds its weight.
  pub sum_of-save_row_new :
      (w : A → ℕ) (a : A) (xs : List A)
      → find (key a) xs ≡ none
      → sum_of w (save_row a xs) ≡ sum_of w xs + w a
  sum_of-save_row_new w a [] h = omega arith
  sum_of-save_row_new w a (x ∷ xs) h = ground (arith, sum_of-save_row_new w a xs)

  find-none_of_All : (k : ℕ) (xs : List A) → All (λ y. (key y == k) ≡ false) xs → find k xs ≡ none
  find-none_of_All k [] h = refl
  find-none_of_All k (x ∷ xs) h = ground (arith, find-none_of_All k xs)

  -- What holds of every row holds of the first row that fits.
  pub first_row_fits {κ} :
      (p : A → Bool) (Q : A → Type κ) (xs : List A) (a : A)
      → All Q xs
      → first_row p xs ≡ some a
      → Q a
  first_row_fits p Q [] a h e = cc
  first_row_fits p Q (x ∷ xs) a h e = elim (Bool-cases (p x)) [
    | inl y ↦ subst Q (some_eq (rw y at e)) h.0
    | inr n ↦ first_row_fits p Q xs a h.1 (rw n at e)
  ]

  key_of_first_row :
      (p : A → Bool) (x : A) (xs : List A) (a : A)
      → All (λ y. (key y == key x) ≡ false) xs
      → first_row p xs ≡ some a
      → (key a == key x) ≡ false
  key_of_first_row p x xs a h e = first_row_fits p (λ y. (key y == key x) ≡ false) xs a h e

  -- In a table with one row for each key, the first row that fits is the one that its key finds.
  pub find-first_row :
      (p : A → Bool) (xs : List A) (a : A)
      → HasKeys xs
      → first_row p xs ≡ some a
      → find (key a) xs ≡ some a
  find-first_row p [] a h e = cc
  find-first_row p (x ∷ xs) a h e =
      ground (arith, find-first_row p xs a h.1, key_of_first_row p x xs a h.0)

  -- The first row that fits does fit.
  pub first_row-fits : (p : A → Bool) (xs : List A) (a : A) → first_row p xs ≡ some a → p a ≡ true
  first_row-fits p [] a e = cc
  first_row-fits p (x ∷ xs) a e = elim (Bool-cases (p x)) [
    | inl y ↦ subst (λ z. p z ≡ true) (some_eq (rw y at e)) y
    | inr n ↦ first_row-fits p xs a (rw n at e)
  ]

  -- The first row that fits is still the first one when it is saved with its key and still fits.
  pub first_row-save_row :
      (p : A → Bool) (a a' : A) (xs : List A)
      → HasKeys xs
      → first_row p xs ≡ some a
      → key a' ≡ key a
      → p a' ≡ true
      → first_row p (save_row a' xs) ≡ some a'
  first_row-save_row p a a' [] h e k fits = cc
  first_row-save_row p a a' (x ∷ xs) h e k fits = elim (Bool-cases (p x)) [
    | inl y ↦ let same : key x ≡ key a' = ap key (some_eq (rw y at e)) ∙ sym k in ground arith
    | inr n ↦
        let differ = key_of_first_row p x xs a h.0 (rw n at e) in
        let rest = first_row-save_row p a a' xs h.1 (rw n at e) k fits in ground arith
  ]

  pub All-save_row {κ} :
      (P : A → Type κ) (a : A) (xs : List A) → All P xs → P a → All P (save_row a xs)
  All-save_row P a [] h pa = (pa, tt)
  All-save_row P a (x ∷ xs) h pa = elim (Bool-cases (key x == key a)) [
    | inl y ↦ rw y (pa, h.1)
    | inr n ↦ rw n (h.0, All-save_row P a xs h.1 pa)
  ]

  same_key :
      (a x : A) (xs : List A)
      → (key x == key a) ≡ true
      → All (λ y. (key y == key x) ≡ false) xs
      → All (λ y. (key y == key a) ≡ false) xs
  same_key a x xs e h = subst (λ k. All (λ y. (key y == k) ≡ false) xs) (ground arith) h

  pub All-map {κ μ} :
      (P : A → Type κ) (Q : A → Type μ) (xs : List A) → ((x : A) → P x → Q x) → All P xs → All Q xs
  All-map P Q [] f h = tt
  All-map P Q (x ∷ xs) f h = (f x h.0, All-map P Q xs f h.1)

  -- What a save keeps, where the rows with other keys keep it and the keys are distinct.
  pub All-save_row_other {κ} :
      (P : A → Type κ) (a : A) (xs : List A)
      → HasKeys xs
      → All (λ x. (key x == key a) ≡ false → P x) xs
      → P a
      → All P (save_row a xs)
  All-save_row_other P a [] k h pa = (pa, tt)
  All-save_row_other P a (x ∷ xs) k h pa = elim (Bool-cases (key x == key a)) [
    | inl y ↦ rw y (pa, others xs (same_key a x xs y k.0) h.1)
    | inr n ↦ rw n (h.0 n, All-save_row_other P a xs k.1 h.1 pa)
  ]
    where
      others :
          (ys : List A)
          → All (λ y. (key y == key a) ≡ false) ys
          → All (λ y. (key y == key a) ≡ false → P y) ys
          → All P ys
      others [] k h = tt
      others (y ∷ ys) k h = (h.0 k.0, others ys k.1 h.1)

  -- Saving a row keeps the keys distinct.
  pub save_row-HasKeys : (a : A) (xs : List A) → HasKeys xs → HasKeys (save_row a xs)
  save_row-HasKeys a [] h = (tt, tt)
  save_row-HasKeys a (x ∷ xs) h = elim (Bool-cases (key x == key a)) [
    | inl y ↦ rw y (same_key a x xs y h.0, h.1)
    | inr n ↦ rw n (
      All-save_row (λ y. (key y == key x) ≡ false) a xs h.0 (ground arith),
      save_row-HasKeys a xs h.1,
    )
  ]

  -- What holds of every row holds of the row that a key finds.
  pub find-fits {κ} :
      (Q : A → Type κ) (k : ℕ) (xs : List A) (a : A) → All Q xs → find k xs ≡ some a → Q a
  find-fits Q k [] a h e = cc
  find-fits Q k (x ∷ xs) a h e = elim (Bool-cases (key x == k)) [
    | inl y ↦ subst Q (some_eq (rw y at e)) h.0
    | inr n ↦ find-fits Q k xs a h.1 (rw n at e)
  ]

  -- The row that a key finds has the key.
  pub key-find : (k : ℕ) (xs : List A) (a : A) → find k xs ≡ some a → key a ≡ k
  key-find k [] a h = cc
  key-find k (x ∷ xs) a h = ground (arith, key-find k xs a)

  pub find-key : (k : ℕ) (xs : List A) (a : A) → find k xs ≡ some a → find (key a) xs ≡ some a
  find-key k xs a h = subst (λ j. find j xs ≡ some a) (sym (key-find k xs a h)) h
