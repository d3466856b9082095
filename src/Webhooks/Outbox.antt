-- ===== src/Webhooks/Outbox.antt =====
-- The rows of packages/database/prisma/schema.prisma that packages/webhooks/src/dispatcher.ts reads and
-- writes, each table in the order of `createdAt`, with the columns that decide what it does.
use crypto_payment.Prelude.{
  ℕ, suc, String, Bool, Option, none, some, List, [], ◌∷◌, ◌++◌, find, ◌==◌, if◌then◌else◌, ok, err,
}
use crypto_payment.Prelude.Int.{ℤ}
use crypto_payment.Prelude.Effect.{Eff, modify}
use crypto_payment.Webhooks.Retry.{RetryError}

-- `WebhookDeliveryStatus`
pub data DeliveryStatus : Type 0 where
  pending in_flight delivered failed exhausted abandoned : DeliveryStatus

-- A row of `webhook_events`.
pub record Event : Type 0 where
  pub id : ℕ
  pub merchant_id : ℕ
  pub type : String

pub record Endpoint : Type 0 where
  pub id : ℕ
  pub merchant_id : ℕ
  pub url : String
  pub event_types : List String
  pub enabled : Bool
  pub max_attempts : ℕ
  pub consecutive_failures : ℕ
  pub disabled_at : Option ℤ

pub record Delivery : Type 0 where
  pub id : ℕ
  pub event_id : ℕ
  pub endpoint_id : ℕ
  pub url : String
  pub attempt : ℕ
  pub status : DeliveryStatus
  pub http_status : Option ℕ
  pub scheduled_at : ℤ
  pub sent_at : Option ℤ
  pub next_retry_at : Option ℤ
  pub updated_at : ℤ

pub record Outbox : Type 0 where
  pub events : List Event
  pub endpoints : List Endpoint
  pub deliveries : List Delivery
  pub next_id : ℕ
  -- `bulkAbandonedThisRun`, a field of the dispatcher.
  pub bulk_abandoned : ℕ

pub data DispatchError : Type 0 where
  record_not_found : ℕ → DispatchError
  cannot_decrypt : DispatchError
  retry : RetryError → DispatchError

abbrev pub DispatchIo : Type 0 → Type 0
DispatchIo A = Eff Outbox DispatchError A

-- The first row that passes the test is written, which for a primary key is the only one.
unfoldable pub update_first : {A : Type 0} → (A → Bool) → (A → A) → List A → List A
update_first test f [] = []
update_first test f (x ∷ xs) =
    let rest = update_first test f xs in if test x then f x ∷ xs else x ∷ rest

abbrev pub is_delivery : ℕ → Delivery → Bool
is_delivery id delivery = delivery.id == id

abbrev pub is_endpoint : ℕ → Endpoint → Bool
is_endpoint id endpoint = endpoint.id == id

abbrev pub find_endpoint : ℕ → Outbox → Option Endpoint
find_endpoint id s = find (is_endpoint id) s.endpoints

abbrev pub find_delivery : ℕ → Outbox → Option Delivery
find_delivery id s = find (is_delivery id) s.deliveries

-- `webhookDelivery.update` of one row; every write sets `updatedAt`.
unfoldable pub update_delivery : ℤ → ℕ → (Delivery → Delivery) → DispatchIo (Unit {0})
update_delivery now id change = modify (λ s. record s {
  deliveries =
      update_first (is_delivery id) (λ d. record (change d) { updated_at = now }) s.deliveries;
})

-- `webhookEndpoint.update`, which throws where there is no row and returns the row as written.
unfoldable pub update_endpoint : ℕ → (Endpoint → Endpoint) → DispatchIo Endpoint
update_endpoint id change s = elim (find_endpoint id s) [
  | none ↦ (err (record_not_found id), s)
  | some e ↦
      (ok (change e), record s { endpoints = update_first (is_endpoint id) change s.endpoints })
]

-- The row of an attempt, as `create` writes it.
unfoldable pub create_delivery : ℤ → ℕ → Endpoint → ℕ → DispatchIo (Unit {0})
create_delivery now event_id endpoint attempt = modify (λ s. record s {
  deliveries =
      s.deliveries
      ++ (record {
        id = s.next_id;
        event_id = event_id;
        endpoint_id = endpoint.id;
        url = endpoint.url;
        attempt = attempt;
        status = pending;
        http_status = none;
        scheduled_at = now;
        sent_at = none;
        next_retry_at = none;
        updated_at = now;
      }
          ∷ []);
  next_id = suc s.next_id;
})
