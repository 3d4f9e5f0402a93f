-- ===== src/Billing/Cards.antt =====
-- Cards of vendors: `PaymentMethod` of subscriptions/models.py, its signals in subscriptions/signals.py,
-- and the views of subscriptions/views.py that add a card, make it the primary one and delete one. The
-- brand and the number of a card, which Stripe tells, and the cached copies of them that end by
-- themselves (`card`, `has_card`) are left out; the cached id of the default card has no end.
-- Stripe's answers are arguments.
use juris.Base.{
  Bool, List, Option, [], exists_row, false, first_row, if◌then◌else◌, leb, length, none, not, rows,
  some, true, ℕ, ◌&&◌, ◌==◌, ◌∷◌,
}
use juris.Table.{delete_row, save_row}

pub record PaymentMethod : Type 0 where
  pub id : ℕ
  pub vendor : ℕ
  pub stripe_payment_method_id : ℕ
  pub is_default : Bool

-- The table, and the cached `payment_method_id` by vendor.
pub record CardFile : Type 0 where
  pub methods : List PaymentMethod
  pub cached_method : ℕ → Option ℕ

-- What Stripe knows and takes; for an error it is false. The third is the subscription's own change, and true
-- where there is no Stripe subscription. The second is whether the vendor has a subscription row.
pub record CardAnswers : Type 0 where
  pub has_details : Bool
  pub has_subscription : Bool
  pub takes_customer : Bool
  pub takes_subscription : Bool

pub data CardReply : Type 0 where
  card_added : CardReply  -- 201
  id_required : CardReply  -- 400
  card_exists : CardReply  -- 400
  card_stripe_error : CardReply  -- 400
  card_error : CardReply  -- 500, no subscription
  already_default : CardReply  -- 200
  set_as_primary : CardReply  -- 200
  no_card : CardReply  -- 404
  only_card : CardReply  -- 400
  card_deleted : CardReply  -- 200 or 204

abbrev pub method_key : PaymentMethod → ℕ
method_key m = m.id

abbrev pub is_card_of : ℕ → PaymentMethod → Bool
is_card_of vendor m = m.vendor == vendor

-- `filter(p).update(is_default=False)`
abbrev pub clear_default : (PaymentMethod → Bool) → List PaymentMethod → List PaymentMethod
clear_default p [] = []
clear_default p (m ∷ ms) = (if p m then record m { is_default = false } else m) ∷ clear_default p ms

-- `filter(vendor=m.vendor).exclude(id=m.id)`
abbrev pub is_other_card : PaymentMethod → PaymentMethod → Bool
is_other_card m x = x.vendor == m.vendor && not (x.id == m.id)

-- `set_payment_method_id(..., permanent=True)`
abbrev pub set_payment_method_id : ℕ → ℕ → CardFile → CardFile
set_payment_method_id vendor k f = record f {
  cached_method = λ v. if v == vendor then some k else f.cached_method v;
}

abbrev pub delete_payment_method_id : ℕ → CardFile → CardFile
delete_payment_method_id vendor f = record f {
  cached_method = λ v. if v == vendor then none else f.cached_method v;
}

-- The signal after a save.
unfoldable pub handle_payment_method_saved : PaymentMethod → Bool → CardFile → CardFile
handle_payment_method_saved m is_new f =
    let f1 : CardFile =
      if is_new && m.is_default
      then set_payment_method_id m.vendor m.stripe_payment_method_id f
      else f in
    if m.is_default then record f1 { methods = clear_default (is_other_card m) f1.methods } else f1

-- `save` and the signal
unfoldable pub save_method : PaymentMethod → Bool → CardFile → CardFile
unfolding handle_payment_method_saved
save_method m is_new f =
    handle_payment_method_saved m is_new (record f { methods = save_row method_key m f.methods })

-- The signal after a deletion.
unfoldable pub handle_payment_method_deleted : ℕ → CardFile → CardFile
unfolding save_method
handle_payment_method_deleted vendor f = elim (first_row (is_card_of vendor) f.methods) [
  | none ↦ f
  | some m ↦
      let m' : PaymentMethod = record m { is_default = true } in
      set_payment_method_id vendor m.stripe_payment_method_id (save_method m' false f)
]

-- `delete` and the signal
unfoldable pub delete_method : PaymentMethod → CardFile → CardFile
unfolding handle_payment_method_deleted
delete_method m f =
    handle_payment_method_deleted m.vendor
      (record f { methods = delete_row method_key m.id f.methods })

-- `AddPaymentMethodView`; the id is the one that the database draws for a new row
unfoldable pub add_payment_method :
    CardAnswers → ℕ → ℕ → Option ℕ → Bool → CardFile → CardReply × CardFile
unfolding save_method
add_payment_method stripe vendor id none set_as_default f = (id_required, f)
add_payment_method stripe vendor id (some k) set_as_default f =
    let m : PaymentMethod = record {
      id = id;
      vendor = vendor;
      stripe_payment_method_id = k;
      is_default = false;
    } in
    let f1 = save_method m true f in
    let f2 : CardFile = record f1 { methods = clear_default (is_other_card m) f1.methods } in
    let f3 = save_method (record m { is_default = true }) false f2 in
    if exists_row (λ (x : PaymentMethod). x.vendor == vendor && x.stripe_payment_method_id == k)
      f.methods
    then (card_exists, f)
    else if not stripe.has_details
    then (card_stripe_error, f)
    else if not set_as_default
    then (card_added, f1)
    else if not stripe.has_subscription
    then (card_error, f3)
    else if stripe.takes_customer && stripe.takes_subscription
    then (card_added, f3)
    else (card_stripe_error, f3)

-- `PaymentMethod.objects.get(id=pk, vendor=vendor)`
abbrev pub find_card : ℕ → ℕ → CardFile → Option PaymentMethod
find_card vendor pk f =
    first_row (λ (m : PaymentMethod). m.id == pk && m.vendor == vendor) f.methods

-- `SetPrimaryPaymentMethodView`
unfoldable pub set_primary : CardAnswers → ℕ → ℕ → CardFile → CardReply × CardFile
unfolding save_method
set_primary stripe vendor pk f = elim (find_card vendor pk f) [
  | none ↦ (no_card, f)
  | some m ↦
      let f1 : CardFile = record f { methods = clear_default (is_card_of vendor) f.methods } in
      let f2 = save_method (record m { is_default = true }) false f1 in
      if m.is_default
      then (already_default, f)
      else if not stripe.has_subscription
      then (card_error, f2)
      else if stripe.takes_customer
      then (set_as_primary, f2)
      else (card_stripe_error, f2)
]

-- `PaymentMethodViewSet.delete`, the route `payment-methods/<pk>/delete/`
unfoldable pub delete_card : ℕ → ℕ → CardFile → CardReply × CardFile
unfolding delete_method
delete_card vendor pk f = elim (find_card vendor pk f) [
  | none ↦ (no_card, f)
  | some m ↦
      if leb (length (rows (is_card_of vendor) f.methods)) 1
      then (only_card, f)
      else (card_deleted, delete_payment_method_id vendor (delete_method m f))
]

-- `PaymentMethodViewSet.destroy`, the DELETE of the route `payment-methods/<pk>/`
unfoldable pub destroy_card : ℕ → ℕ → CardFile → CardReply × CardFile
unfolding delete_method
destroy_card vendor pk f = elim (find_card vendor pk f) [
  | none ↦ (no_card, f)
  | some m ↦ (card_deleted, delete_method m f)
]
