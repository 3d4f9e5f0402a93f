-- ===== src/Billing/Primary.antt =====
-- Which card of a vendor is the default one.
use juris.Base.{
  All, Bool, Bool-cases, List, Option, Option-cases, [], arith, false, first_row, if◌then◌else◌,
  inl, inr, length, none, rows, some, subst, sym, true, ℕ, ◌&&◌, ◌<◌, ◌==◌, ◌∷◌, ◌≡◌, ◌⊎◌,
}
use juris.Billing.Cards.{
  CardAnswers, CardFile, PaymentMethod, add_payment_method, card_deleted, clear_default,
  delete_card, delete_method, delete_payment_method_id, destroy_card, find_card,
  handle_payment_method_deleted, handle_payment_method_saved, is_card_of, is_other_card, method_key,
  save_method, set_primary,
}
use juris.Separate.{
  Fits-of_calm, IsSeparate, IsSymmetric, Separate, delete_row-IsSeparate, save_row-IsSeparate,
}
use juris.Table.{delete_row, find, find-save_row, first_row-fits, save_row}

-- Two default cards of one vendor.
abbrev pub both_default : PaymentMethod → PaymentMethod → Bool
both_default a b = a.vendor == b.vendor && (a.is_default && b.is_default)

-- The cards have distinct ids, and no two of one vendor are default.
abbrev pub IsCardFile : CardFile → Type 0
IsCardFile f = IsSeparate method_key both_default f.methods

both_default_comm : IsSymmetric both_default
both_default_comm a b = ground arith

Separate-clear_default :
    (p : PaymentMethod → Bool) (x x' : PaymentMethod) (ms : List PaymentMethod)
    → x'.id ≡ x.id
    → x'.vendor ≡ x.vendor
    → (x'.is_default ≡ true → x.is_default ≡ true)
    → All (Separate method_key both_default x) ms
    → All (Separate method_key both_default x') (clear_default p ms)
Separate-clear_default p x x' [] i v d h = tt
Separate-clear_default p x x' (m ∷ ms) i v d h =
    (ground arith, Separate-clear_default p x x' ms i v d h.1)

clear_default-IsSeparate :
    (p : PaymentMethod → Bool) (ms : List PaymentMethod)
    → IsSeparate method_key both_default ms
    → IsSeparate method_key both_default (clear_default p ms)
clear_default-IsSeparate p [] h = tt
clear_default-IsSeparate p (m ∷ ms) h = (
  Separate-clear_default p m (if p m then record m { is_default = false } else m) ms (ground arith)
      (ground arith) (ground arith) h.0,
  clear_default-IsSeparate p ms h.1,
)

-- A card that is saved is not one of the others.
clear_default-save_row :
    (m : PaymentMethod) (ms : List PaymentMethod)
    → clear_default (is_other_card m) (save_row method_key m ms)
      ≡ save_row method_key m (clear_default (is_other_card m) ms)
clear_default-save_row m [] = ground arith
clear_default-save_row m (x ∷ xs) = ground (arith, clear_default-save_row m xs)

Fits-clear_default :
    (m : PaymentMethod) (ms : List PaymentMethod)
    → All
        (λ s. (s.id == m.id) ≡ false → both_default m s ≡ false)
        (clear_default (is_other_card m) ms)
Fits-clear_default m [] = tt
Fits-clear_default m (x ∷ xs) = (λ n. ground arith, Fits-clear_default m xs)

save_method-IsCardFile :
    (m : PaymentMethod) (is_new : Bool) (f : CardFile)
    → IsCardFile f
    → IsCardFile (save_method m is_new f)
unfolding save_method handle_payment_method_saved
save_method-IsCardFile m is_new f h = elim (Bool-cases m.is_default) [
  | inl y ↦
      let others = clear_default (is_other_card m) f.methods in
      let result : (save_method m is_new f).methods ≡ save_row method_key m others =
        ground (arith, clear_default-save_row m f.methods) in
      subst (IsSeparate method_key both_default) (sym result) (
        save_row-IsSeparate method_key both_default m others both_default_comm
          (Fits-clear_default m f.methods) (clear_default-IsSeparate (is_other_card m) f.methods h))
  | inr n ↦
      let result : (save_method m is_new f).methods ≡ save_row method_key m f.methods =
        ground arith in
      subst (IsSeparate method_key both_default) (sym result) (
        save_row-IsSeparate method_key both_default m f.methods both_default_comm
          (Fits-of_calm method_key both_default m f.methods (λ s. ground arith)) h)
]

cleared-IsCardFile :
    (p : PaymentMethod → Bool) (f : CardFile)
    → IsCardFile f
    → IsCardFile (record f { methods = clear_default p f.methods })
cleared-IsCardFile p f h = clear_default-IsSeparate p f.methods h

delete_method-IsCardFile :
    (m : PaymentMethod) (f : CardFile) → IsCardFile f → IsCardFile (delete_method m f)
unfolding delete_method handle_payment_method_deleted
delete_method-IsCardFile m f h =
    let f1 : CardFile = record f { methods = delete_row method_key m.id f.methods } in
    let h1 = delete_row-IsSeparate method_key both_default m.id f.methods h in
    elim (Option-cases (first_row (is_card_of m.vendor) f1.methods)) [
      | inl n ↦
          let result : (delete_method m f).methods ≡ f1.methods = ground arith in
          subst (IsSeparate method_key both_default) (sym result) h1
      | inr (k, e) ↦
          let k' : PaymentMethod = record k { is_default = true } in
          let result : (delete_method m f).methods ≡ (save_method k' false f1).methods =
            ground arith in
          subst (IsSeparate method_key both_default) (sym result)
            (save_method-IsCardFile k' false f1 h1)
    ]

add_payment_method-IsCardFile :
    (stripe : CardAnswers) (vendor id : ℕ) (card : Option ℕ) (set_as_default : Bool) (f : CardFile)
    → IsCardFile f
    → IsCardFile (add_payment_method stripe vendor id card set_as_default f).1
unfolding add_payment_method
add_payment_method-IsCardFile stripe vendor id none set_as_default f h = h
add_payment_method-IsCardFile stripe vendor id (some k) set_as_default f h =
    let m : PaymentMethod = record {
      id = id;
      vendor = vendor;
      stripe_payment_method_id = k;
      is_default = false;
    } in
    let f1 = save_method m true f in
    let h1 = save_method-IsCardFile m true f h in
    let f2 : CardFile = record f1 { methods = clear_default (is_other_card m) f1.methods } in
    let f3 = save_method (record m { is_default = true }) false f2 in
    let h3 =
      save_method-IsCardFile (record m { is_default = true }) false f2
        (cleared-IsCardFile (is_other_card m) f1 h1) in
    let added = (add_payment_method stripe vendor id (some k) set_as_default f).1 in
    let cases : (added ≡ f) ⊎ ((added ≡ f1) ⊎ (added ≡ f3)) = ground arith in
    elim cases [
      | inl same ↦ subst IsCardFile (sym same) h
      | inr (inl same) ↦ subst IsCardFile (sym same) h1
      | inr (inr same) ↦ subst IsCardFile (sym same) h3
    ]

set_primary-IsCardFile :
    (stripe : CardAnswers) (vendor pk : ℕ) (f : CardFile)
    → IsCardFile f
    → IsCardFile (set_primary stripe vendor pk f).1
unfolding set_primary
set_primary-IsCardFile stripe vendor pk f h = elim (Option-cases (find_card vendor pk f)) [
  | inl n ↦
      let result : (set_primary stripe vendor pk f).1 ≡ f = ground arith in
      subst IsCardFile (sym result) h
  | inr (m, e) ↦
      let f1 : CardFile = record f { methods = clear_default (is_card_of vendor) f.methods } in
      let f2 = save_method (record m { is_default = true }) false f1 in
      let h2 =
        save_method-IsCardFile (record m { is_default = true }) false f1
          (cleared-IsCardFile (is_card_of vendor) f h) in
      let made = (set_primary stripe vendor pk f).1 in
      let cases : (made ≡ f) ⊎ (made ≡ f2) = ground arith in
      elim cases [
        | inl same ↦ subst IsCardFile (sym same) h
        | inr same ↦ subst IsCardFile (sym same) h2
      ]
]

-- Deleting a card, with the guard or without it.
deleted-IsCardFile :
    (vendor pk : ℕ) (f : CardFile)
    → IsCardFile f
    → IsCardFile (delete_card vendor pk f).1 × IsCardFile (destroy_card vendor pk f).1
unfolding delete_card destroy_card
deleted-IsCardFile vendor pk f h = elim (Option-cases (find_card vendor pk f)) [
  | inl n ↦
      let kept : (delete_card vendor pk f).1 ≡ f = ground arith in
      let same : (destroy_card vendor pk f).1 ≡ f = ground arith in
      (subst IsCardFile (sym kept) h, subst IsCardFile (sym same) h)
  | inr (m, e) ↦
      let done = delete_method-IsCardFile m f h in
      let deleted = (delete_card vendor pk f).1 in
      let cases : (deleted ≡ f) ⊎ (deleted ≡ delete_payment_method_id vendor (delete_method m f)) =
        ground arith in
      let destroyed : (destroy_card vendor pk f).1 ≡ delete_method m f = ground arith in
      (
        elim cases [
          | inl same ↦ subst IsCardFile (sym same) h
          | inr same ↦ subst IsCardFile (sym same) done
        ],
        subst IsCardFile (sym destroyed) done,
      )
]

-- The requests of a vendor.
pub data CardCall : Type 0 where
  adds_card : CardAnswers → ℕ → ℕ → Option ℕ → Bool → CardCall
  makes_primary : CardAnswers → ℕ → ℕ → CardCall
  deletes_card destroys_card : ℕ → ℕ → CardCall

unfoldable pub card_call : CardCall → CardFile → CardFile
card_call (adds_card stripe vendor id card set_as_default) f =
    (add_payment_method stripe vendor id card set_as_default f).1
card_call (makes_primary stripe vendor pk) f = (set_primary stripe vendor pk f).1
card_call (deletes_card vendor pk) f = (delete_card vendor pk f).1
card_call (destroys_card vendor pk) f = (destroy_card vendor pk f).1

abbrev pub card_calls : List CardCall → CardFile → CardFile
card_calls [] f = f
card_calls (c ∷ cs) f = card_calls cs (card_call c f)

card_call-IsCardFile : (c : CardCall) (f : CardFile) → IsCardFile f → IsCardFile (card_call c f)
unfolding card_call
card_call-IsCardFile (adds_card stripe vendor id card set_as_default) f h =
    add_payment_method-IsCardFile stripe vendor id card set_as_default f h
card_call-IsCardFile (makes_primary stripe vendor pk) f h =
    set_primary-IsCardFile stripe vendor pk f h
card_call-IsCardFile (deletes_card vendor pk) f h = (deleted-IsCardFile vendor pk f h).0
card_call-IsCardFile (destroys_card vendor pk) f h = (deleted-IsCardFile vendor pk f h).1

-- From a table of cards with distinct ids in which no vendor has two default cards, every sequence of
-- requests to add a card, to make one the primary card and to delete one by either route, whatever
-- Stripe answers, leads to such a table.
pub card_calls-IsCardFile :
    (cs : List CardCall) (f : CardFile) → IsCardFile f → IsCardFile (card_calls cs f)
card_calls-IsCardFile [] f h = h
card_calls-IsCardFile (c ∷ cs) f h =
    card_calls-IsCardFile cs (card_call c f) (card_call-IsCardFile c f h)

delete_method-moved :
    (m k : PaymentMethod) (f : CardFile)
    → first_row (is_card_of m.vendor) (delete_row method_key m.id f.methods) ≡ some k
    → (find method_key k.id (delete_method m f).methods ≡ some (record k { is_default = true }))
      × ((delete_method m f).cached_method m.vendor ≡ some k.stripe_payment_method_id)
unfolding delete_method handle_payment_method_deleted save_method handle_payment_method_saved
delete_method-moved m k f e =
    let ms = delete_row method_key m.id f.methods in
    let k' : PaymentMethod = record k { is_default = true } in
    let others = clear_default (is_other_card k') ms in
    let result : (delete_method m f).methods ≡ save_row method_key k' others =
      ground (arith, clear_default-save_row k' ms) in
    let there = find-save_row method_key k.id k' others in (rw result (ground arith), ground arith)

-- When a vendor deletes one of two or more cards, default or not, the first of the cards that remain
-- is the default one afterwards, by either route; the cache then has its id by the route of the detail
-- and no id by the route `delete`.
pub deletion-moves_default :
    (vendor pk : ℕ) (m k : PaymentMethod) (f : CardFile)
    → find_card vendor pk f ≡ some m
    → first_row (is_card_of vendor) (delete_row method_key pk f.methods) ≡ some k
    → 1 < length (rows (is_card_of vendor) f.methods)
    → let destroyed = destroy_card vendor pk f in
      let deleted = delete_card vendor pk f in
      let k' : PaymentMethod = record k { is_default = true } in
      ((destroyed.0 ≡ card_deleted)
        × (find method_key k.id destroyed.1.methods ≡ some k')
        × (destroyed.1.cached_method vendor ≡ some k.stripe_payment_method_id))
      × ((deleted.0 ≡ card_deleted)
          × (find method_key k.id deleted.1.methods ≡ some k')
          × (deleted.1.cached_method vendor ≡ none))
unfolding destroy_card delete_card
deletion-moves_default vendor pk m k f e first more =
    let fits =
      first_row-fits method_key (λ (x : PaymentMethod). x.id == pk && x.vendor == vendor) f.methods
        m e in
    let id : m.id ≡ pk = ground arith in
    let own : m.vendor ≡ vendor = ground arith in
    let first' : first_row (is_card_of m.vendor) (delete_row method_key m.id f.methods) ≡ some k =
      rw (own, id) first in
    let (there, cached) = delete_method-moved m k f first' in
    ((ground arith, ground arith, ground arith), (ground arith, ground arith, ground arith))
