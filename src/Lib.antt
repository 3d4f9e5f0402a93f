-- ===== src/Lib.antt =====
-- Juris, a platform on which clients book and pay appointments with lawyers: a model of its
-- scheduling, booking, payment, wallet, login, subscription and identity check code, in Python.
--
-- A lawyer offers services (`LawyerOffering`, `OfferingType`) in weekly slots, less the absences. A
-- client books an interval of a slot; a paid appointment stays pending until Stripe reports the
-- payment, and a task deletes it if that does not come. The payment is a pending transaction of the
-- lawyer's wallet, which completion releases into the balance and cancellation turns into a request
-- for a refund. The lawyer withdraws from the balance by payouts that an administrator reviews. Users
-- log in with tokens and one-time passwords kept in Redis; a lawyer's listing follows the subscription
-- that Stripe reports, and the right to be booked the identity check.
--
-- Files:
--   Base: library names, Boolean tests on the native numbers, lemmas on lists.
--   Clock: instants, dates and times of the day.
--   Table: rows under a key, as `objects.get`, `save` and `delete` use them. Separate: rows of which no
--     two are in conflict, and the check that keeps them so.
--   Pricing: lawyer/models.py (`LawyerOffering`, `OfferingType`), the rounding of
--     `perform_create_with_validation` in lawyer_appointment/views.py, and
--     `Appointment.calculate_refund_amount`.
--   Availability: lawyer_availability/models.py. Availability/Query: the two queries of
--     `LawyerProfile`. Availability/Bulk: `bulk_create_availability` and `copy_availability_template`
--     of lawyer_availability/views.py, `clone_availability_to_offering` of lawyer/models.py.
--     Availability/Away: `Unavailability`. Availability/Requests: the views of
--     lawyer_availability/views.py that change slots and absences, with serializers.py. Slots, Offered,
--     Copies, Absences, Agendas, Owned and Calls hold their theorems.
--   Status, Store and Store/Save: the enumerations and rows of lawyer_appointment/models.py and
--     lawyer_wallet/models.py, and how they are validated, saved and deleted.
--   Booking: creation (Booking/Create) and rescheduling (Booking/Reschedule) of
--     lawyer_appointment/views.py and serializers.py. Slots, Created and Moved hold their theorems.
--   Payments: Unpaid (lawyer_appointment/tasks.py), Webhook (subscriptions/webhook.py), Completion
--     and Cancellation (lawyer_appointment/models.py and views.py), Refund
--     (lawyer_appointment/admin.py). Cancelled, Events, Refunded, Released, Lost and Earned hold
--     their theorems. Reachable puts the operations on the rows, those on bookings and withdrawals
--     also, one after another.
--   Withdrawal: lawyer_wallet/serializers.py, views.py and admin.py. Held and Review hold its
--     theorems.
--   Redis: what the code relies on of Redis, as a record of operations and laws. Text: `==` and `strip`
--     of texts.
--   Otp: users/redis_otp_service.py, its storage here and its methods in Otp/Service. Guesses,
--     Sent and Ends hold the theorems.
--   Tokens: users/redis_token_store.py. Linked, Valid and Blacklist hold its theorems.
--   Billing: the subscription rows of subscriptions/models.py, and in Billing/Events the handlers of
--     subscriptions/webhook.py with subscriptions/redis_utils.py and the listing of profiles/models.py.
--     Listed and Changes hold the theorems. Billing/Vouchers: the vouchers of subscriptions/models.py,
--     with their views of subscriptions/views.py. Billing/Cards: the cards of vendors with the signals
--     of subscriptions/signals.py. Billing/Views: the other views that change a subscription. Primary,
--     Kept and Unlisted hold their theorems.
--   Kyc: kyc/models.py, kyc/views.py and the identity events of subscriptions/webhook.py. Mirrored
--     holds the theorems.
--   Sessions: the video sessions of lawyer_appointment/models.py, and in Sessions/Calls the session
--     views of lawyer_appointment/views.py, over the state of the booking part. Rooms and Ended hold
--     the theorems.
--   Accounts: users/models.py with the serializers of users/serializers.py, and the views of
--     users/views.py in Accounts/Login and Accounts/Passwords, over the codes of Otp and the tokens of
--     Tokens. Factor, Reset, Forced and Rotated hold the theorems.
--   Permissions: lawyer/permissions.py.
--   Tests: runs on a small office. Tests/Video: on its video session. Tests/Accounts, Tests/Users
--     and Tests/Vendors: on a Redis that is a function from keys.
--
-- The state of the booking part is the record `Db` of Store, a list of rows for each table; a view is a
-- function from a request and a state to a reply and a state, and `atomic` rolls the state back where
-- an exception leaves `transaction.atomic()`. Every read of the clock in a request gives one instant.
-- Fresh keys are drawn from a counter. Money is in cents and never negative, times are microseconds.
-- What Stripe, the SMS and mail services and the random numbers answer is an argument. Redis is a
-- parameter whose laws are those of GET, SETEX and DEL; the parts that use it keep their own keys. All
-- recursion is on lists, but for two functions on the digits of a `Decimal` with fuel: 30 for the
-- digits of a duration, which is below 10^18 minutes, and 28 for the digits that a product has beyond
-- the 28 that are kept, which are at most 12 for a price of ten digits.
--
-- Not modelled: profile forms, which store uploads and texts; notifications, which other services
-- send, but for the mails whose failure rolls the change of a subscription back; listings and
-- statistics, which only read; the formats of free texts and keys. Of the one-time passwords, the
-- clean-up, a scan of all keys. Of the views of slots, the updates that give only some columns.
-- Requests run one after another, except where a theorem gives an operation
-- a row or a state that was read before.
pub mod Base
pub mod Clock
pub mod Table
pub mod Separate
pub mod Redis
pub mod Text
pub mod Otp
pub mod Tokens
pub mod Billing
pub mod Kyc
pub mod Sessions
pub mod Accounts
pub mod Permissions
pub mod Pricing
pub mod Status
pub mod Store
pub mod Booking
pub mod Withdrawal
pub mod Payments
pub mod Tests
pub mod Availability
