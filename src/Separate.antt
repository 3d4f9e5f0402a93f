-- ===== src/Separate.antt =====
-- Tables in which no two rows are in conflict, such as intervals that may not overlap, and what a
-- save does to them when the saved row was checked against the rows with other keys.
use mathlib.Core.Path.{subst}
use juris.Base.{
  All, Bool, Bool-cases, List, [], arith, exists_row, false, inl, inr, not, refl, rows, some,
  some_eq, true, ℕ, ◌&&◌, ◌==◌, ◌∙◌, ◌∷◌, ◌≡◌,
}
use juris.Table.{delete_row, find, save_row}

-- The conflict does not depend on the order of the two rows.
abbrev pub IsSymmetric {ℓ} : {A : Type ℓ} → (A → A → Bool) → Type ℓ
IsSymmetric {A} conflict = (a b : A) → conflict a b ≡ conflict b a

module _ {ℓ} {A : Type ℓ} (key : A → ℕ) (conflict : A → A → Bool) where
  -- Two rows with different keys that are not in conflict.
  abbrev pub Separate : A → A → Type 0
  Separate a b = ((key b == key a) ≡ false) × (conflict a b ≡ false)

  abbrev pub IsSeparate : List A → Type 0
  IsSeparate [] = Unit
  IsSeparate (x ∷ xs) = All (Separate x) xs × IsSeparate xs

  -- The checked row is in no conflict with a row of another key.
  abbrev pub Fits : A → A → Type 0
  Fits a s = (key s == key a) ≡ false → conflict a s ≡ false

  -- The check itself: no row with another key is in conflict.
  abbrev pub in_conflict : A → List A → Bool
  in_conflict a xs = exists_row (λ s. not (key s == key a) && conflict a s) xs

  pub Fits-of_check : (a : A) (xs : List A) → in_conflict a xs ≡ false → All (Fits a) xs
  Fits-of_check a [] h = tt
  Fits-of_check a (s ∷ xs) h = (λ n. ground arith, Fits-of_check a xs (ground arith))

  Separate-save_row :
      (x a : A) (xs : List A)
      → Separate x a
      → All (Separate x) xs
      → All (Separate x) (save_row key a xs)
  Separate-save_row x a [] p h = (p, tt)
  Separate-save_row x a (s ∷ xs) p h = elim (Bool-cases (key s == key a)) [
    | inl y ↦ rw y (p, h.1)
    | inr n ↦ rw n (h.0, Separate-save_row x a xs p h.1)
  ]

  -- The rows behind the one that the new row replaces.
  Separate-replaced :
      (x a : A) (xs : List A)
      → (key x == key a) ≡ true
      → All (Separate x) xs
      → All (Fits a) xs
      → All (Separate a) xs
  Separate-replaced x a [] e h f = tt
  Separate-replaced x a (s ∷ xs) e h f =
      let other : (key s == key a) ≡ false = ground arith in
      ((other, f.0 other), Separate-replaced x a xs e h.1 f.1)

  pub save_row-IsSeparate :
      (a : A) (xs : List A)
      → IsSymmetric conflict
      → All (Fits a) xs
      → IsSeparate xs
      → IsSeparate (save_row key a xs)
  save_row-IsSeparate a [] symm f h = (tt, tt)
  save_row-IsSeparate a (x ∷ xs) symm f h = elim (Bool-cases (key x == key a)) [
    | inl y ↦ rw y (Separate-replaced x a xs y h.0 f.1, h.1)
    | inr n ↦ rw n (
      Separate-save_row x a xs (ground arith, symm x a ∙ f.0 n) h.0,
      save_row-IsSeparate a xs symm f.1 h.1,
    )
  ]

  -- A row that is in conflict with none may be saved without a check.
  pub Fits-of_calm : (a : A) (xs : List A) → ((s : A) → conflict a s ≡ false) → All (Fits a) xs
  Fits-of_calm a [] calm = tt
  Fits-of_calm a (s ∷ xs) calm = (λ n. calm s, Fits-of_calm a xs calm)

  pub All-delete_row {κ} :
      (P : A → Type κ) (k : ℕ) (xs : List A) → All P xs → All P (delete_row key k xs)
  All-delete_row P k [] h = tt
  All-delete_row P k (x ∷ xs) h = elim (Bool-cases (key x == k)) [
    | inl y ↦ rw y h.1
    | inr n ↦ rw n (h.0, All-delete_row P k xs h.1)
  ]

  pub delete_row-IsSeparate :
      (k : ℕ) (xs : List A) → IsSeparate xs → IsSeparate (delete_row key k xs)
  delete_row-IsSeparate k [] h = tt
  delete_row-IsSeparate k (x ∷ xs) h = elim (Bool-cases (key x == k)) [
    | inl y ↦ rw y h.1
    | inr n ↦ rw n (All-delete_row (Separate x) k xs h.0, delete_row-IsSeparate k xs h.1)
  ]

  none_of_Separate :
      (symm : IsSymmetric conflict) (x : A) (xs : List A)
      → All (Separate x) xs
      → in_conflict x xs ≡ false
  none_of_Separate symm x [] h = refl
  none_of_Separate symm x (s ∷ xs) h = ground (arith, none_of_Separate symm x xs h.1)

  Separate-of_find :
      (x : A) (k : ℕ) (xs : List A) (a : A)
      → All (Separate x) xs
      → find key k xs ≡ some a
      → Separate x a
  Separate-of_find x k [] a h e = cc
  Separate-of_find x k (s ∷ xs) a h e = elim (Bool-cases (key s == k)) [
    | inl y ↦ subst (Separate x) (some_eq (rw y at e)) h.0
    | inr n ↦ Separate-of_find x k xs a h.1 (rw n at e)
  ]

  -- A stored row of a separate table is in no conflict with the others.
  pub in_conflict_of_find :
      (symm : IsSymmetric conflict) (k : ℕ) (xs : List A) (a : A)
      → IsSeparate xs
      → find key k xs ≡ some a
      → in_conflict a xs ≡ false
  in_conflict_of_find symm k [] a h e = cc
  in_conflict_of_find symm k (x ∷ xs) a h e = elim (Bool-cases (key x == k)) [
    | inl y ↦
        subst (λ z. in_conflict z (x ∷ xs) ≡ false) (some_eq (rw y at e))
          (ground (arith, none_of_Separate symm x xs h.0))
    | inr n ↦
        let rest = in_conflict_of_find symm k xs a h.1 (rw n at e) in
        let apart = Separate-of_find x k xs a h.0 (rw n at e) in ground (arith, symm x a)
  ]

  pub All-rows {κ} : (P : A → Type κ) (p : A → Bool) (xs : List A) → All P xs → All P (rows p xs)
  All-rows P p [] h = tt
  All-rows P p (x ∷ xs) h = elim (Bool-cases (p x)) [
    | inl y ↦ rw y (h.0, All-rows P p xs h.1)
    | inr n ↦ rw n (All-rows P p xs h.1)
  ]

  -- The rows that are left by a deletion of many are separate.
  pub rows-IsSeparate : (p : A → Bool) (xs : List A) → IsSeparate xs → IsSeparate (rows p xs)
  rows-IsSeparate p [] h = tt
  rows-IsSeparate p (x ∷ xs) h = elim (Bool-cases (p x)) [
    | inl y ↦ rw y (All-rows (Separate x) p xs h.0, rows-IsSeparate p xs h.1)
    | inr n ↦ rw n (rows-IsSeparate p xs h.1)
  ]
