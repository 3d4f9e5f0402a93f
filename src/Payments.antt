-- ===== src/Payments.antt =====
-- How the payment of an appointment moves on: the deletion of unpaid appointments of
-- lawyer_appointment/tasks.py, Stripe's events of subscriptions/webhook.py, completion and
-- cancellation of lawyer_appointment/views.py and models.py, and the review of refunds of
-- lawyer_appointment/admin.py. Logging and notifications are left out.
pub mod Unpaid
pub mod Webhook
pub mod Completion
pub mod Cancellation
pub mod Refund
pub mod Cancelled
pub mod Lost
pub mod Earned
pub mod Released
pub mod Refunded
pub mod Events
pub mod Reachable
