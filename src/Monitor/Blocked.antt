-- ===== src/Monitor/Blocked.antt =====
-- An invoice under compliance review stops the confirmation loop of
-- apps/blockchain-monitor/src/monitor.service.ts.
use crypto_payment.Prelude.{ℕ, true, false, err, ◌≡◌, refl, arith}
use crypto_payment.Prelude.Int.{ℤ, pos, ltb_ℤ, ◌≤ℤ◌}
use crypto_payment.Invoice.Status.{compliance_review_required, confirming}
use crypto_payment.Invoice.StateMachine.{
  InvalidTransitionError, can_transition, find_rule, assert_transition, same_status, same_actor,
}
use crypto_payment.Monitor.Store.{Db, Invoice, invalid_transition}
use crypto_payment.Monitor.Records.{assert_monitor}
use crypto_payment.Monitor.Settlement.{advance_confirming, start_confirming}

start_confirming-throws :
    (id : ℕ) (db : Db)
    → (can_transition compliance_review_required confirming ≡ true)
      × (e : InvalidTransitionError) × (start_confirming id compliance_review_required db
          ≡ err (invalid_transition e))
unfolding can_transition find_rule same_status start_confirming assert_monitor assert_transition
    same_actor
start_confirming-throws id db = (refl, _, refl)

-- An invoice under compliance review with a transfer of at least one confirmation makes the call throw:
-- the table permits the move to `CONFIRMING` to a human only, and the test before the gate does not ask
-- who moves.
pub advance_confirming_throws :
    (i : Invoice) (n : ℤ) (db : Db)
    → i.status ≡ compliance_review_required
    → pos 1 ≤ℤ n
    → (e : InvalidTransitionError) × (advance_confirming i n db ≡ err (invalid_transition e))
unfolding advance_confirming
advance_confirming_throws i n db held h =
    let (open_edge, e, thrown) = start_confirming-throws i.id db in
    let enough : ltb_ℤ n (pos 1) ≡ false = ground arith in (e, rw (enough, held, open_edge) thrown)
