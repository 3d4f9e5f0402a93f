-- ===== src/Tests/Vendors.antt =====
-- Runs of the requests of a vendor about its subscription and its cards.
use juris.Base.{List, [], arith, false, first_row, inl, none, refl, some, true, ◌∷◌, ◌≡◌}
use juris.Billing.{Subscription, SubscriptionStatus, VendorSubscription, with_stripe_id}
use juris.Billing.Cards.{
  CardAnswers, CardFile, PaymentMethod, card_deleted, delete_card, destroy_card, method_key,
}
use juris.Billing.Kept.{IsOffice, subscription_views-IsOffice}
use juris.Billing.Primary.{
  CardCall, IsCardFile, adds_card, card_calls, card_calls-IsCardFile, deletes_card,
  deletion-moves_default,
}
use juris.Billing.Unlisted.{paid_events, pays, retry-unlisted}
use juris.Billing.Views.{
  Activation, ActivationAnswers, Office, activate_view, cancel_view,
  create_vendor_trial_subscription, invoice_paid, reactivate, retry, retry_paid, start_trial,
}
use juris.Table.{find}
use juris.Tests.Accounts.{billing, billing_cache, paid_invoice, vendor_subscription, willing}

abbrev first_card : PaymentMethod
first_card = record { id = 1; vendor = 80; stripe_payment_method_id = 500; is_default = false }

abbrev second_card : PaymentMethod
second_card = record { id = 2; vendor = 80; stripe_payment_method_id = 501; is_default = true }

abbrev two_cards : CardFile
two_cards = record { methods = first_card ∷ second_card ∷ []; cached_method = λ v. some 501 }

abbrev willing_cards : CardAnswers
willing_cards = record {
  has_details = true;
  has_subscription = true;
  takes_customer = true;
  takes_subscription = true;
}

abbrev plain_activation : Activation
plain_activation = record { payment_method_id = some 503; card_id = 4; voucher_code = none }

abbrev active_answer : Subscription
active_answer = record {
  id = 81;
  status = SubscriptionStatus.active;
  trial_end = none;
  current_period_end = some 9;
  canceled_at = none;
}

abbrev accepted : ActivationAnswers
accepted = record {
  coupon = willing;
  changed = some active_answer;
  has_card = true;
  mail_sent = true;
}

abbrev shop : Office billing_cache
shop = record { billing = billing; cards = two_cards; vouchers = []; voucher_of = λ v. none }

subscription_views-IsOffice_example :
    IsOffice billing_cache 5 (start_trial billing_cache 5 80 true true (some (83, 9)) shop).1
    × IsOffice billing_cache 5
        (create_vendor_trial_subscription billing_cache 5 80 true true (some (83, 9)) shop)
    × IsOffice billing_cache 5 (activate_view billing_cache 5 accepted 80 plain_activation shop).1
    × IsOffice billing_cache 5
        (cancel_view billing_cache 5 (some (SubscriptionStatus.active, true)) true 80 shop).1
    × IsOffice billing_cache 5 (retry billing_cache 5 (some true) invoice_paid 80 shop).1
    × IsOffice billing_cache 5
        (reactivate billing_cache 5 (some SubscriptionStatus.active) 80 shop).1
subscription_views-IsOffice_example =
    subscription_views-IsOffice billing_cache 5 80 true true (some (83, 9)) accepted
      plain_activation (some (SubscriptionStatus.active, true)) true (some true) invoice_paid
      (some SubscriptionStatus.active) shop refl refl ((tt, tt), ((λ later le. inl refl), tt))

abbrev failing_shop : Office billing_cache
failing_shop = record shop {
  billing = record billing {
    subscriptions = record vendor_subscription { status = SubscriptionStatus.past_due } ∷ [];
    is_listed = λ v. false;
  };
}

retry-unlisted_example :
    let done = retry billing_cache 5 (some true) invoice_paid 80 failing_shop in
    let after = paid_events billing_cache (pays 6 paid_invoice ∷ []) done.1.billing in
    (done.0 ≡ retry_paid)
    × (after.is_listed 80 ≡ false)
    × ((s' : VendorSubscription) × (first_row (with_stripe_id 81) after.subscriptions ≡ some s')
        × (s'.vendor ≡ 80)
        × (s'.status ≡ SubscriptionStatus.active))
retry-unlisted_example =
    retry-unlisted billing_cache 5 80
      (record vendor_subscription { status = SubscriptionStatus.past_due }) failing_shop
      (pays 6 paid_invoice ∷ []) (tt, tt) refl refl refl refl (refl, tt)

abbrev card_requests : List CardCall
card_requests = adds_card willing_cards 80 3 (some 502) true ∷ deletes_card 80 3 ∷ []

two_cards-IsCardFile : IsCardFile two_cards
two_cards-IsCardFile = (((refl, refl), tt), (tt, tt))

card_calls-IsCardFile_example : IsCardFile (card_calls card_requests two_cards)
card_calls-IsCardFile_example = card_calls-IsCardFile card_requests two_cards two_cards-IsCardFile

deletion-moves_default_example :
    let destroyed = destroy_card 80 2 two_cards in
    let deleted = delete_card 80 2 two_cards in
    let k' : PaymentMethod = record first_card { is_default = true } in
    ((destroyed.0 ≡ card_deleted)
      × (find method_key 1 destroyed.1.methods ≡ some k')
      × (destroyed.1.cached_method 80 ≡ some 500))
    × ((deleted.0 ≡ card_deleted)
        × (find method_key 1 deleted.1.methods ≡ some k')
        × (deleted.1.cached_method 80 ≡ none))
deletion-moves_default_example =
    deletion-moves_default 80 2 second_card first_card two_cards refl refl (omega arith)
