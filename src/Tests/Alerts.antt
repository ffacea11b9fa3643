-- ===== src/Tests/Alerts.antt =====
-- Two alerts at the same time, and a webhook that answers at the second attempt (backend/alerts).
use seagles.Common.{ℕ, zero, suc, ◌+◌, ◌≤◌, ◌≡◌, nat_beq, arith, refl, true, false, [], ◌∷◌}
use seagles.Text.{Text, codes}
use seagles.Alerts.{Faults, AlertRequest, DeviceRow, new_alert, offline_request}
use seagles.Alerts.Overlap as O
use seagles.Alerts.Webhooks as W
use seagles.Alerts.Webhooks.{
  WebhookConfig, Db, Post, Reply, got, failed, deliver_webhook_with_retry,
}
use seagles.Alerts.Webhooks.Delivery.{Concluded, delivery_recorded}

abbrev no_faults : Faults
no_faults = record { count = false; insert = false }

abbrev camera : DeviceRow
camera = record { id = codes "cam"; ip_address = codes "10.0.0.9"; is_active = true; last_seen = 0 }

abbrev lock : DeviceRow
lock = record { id = codes "lock"; ip_address = codes "10.0.0.8"; is_active = true; last_seen = 0 }

abbrev ask : AlertRequest
ask = offline_request camera

abbrev other : AlertRequest
other = offline_request lock

-- Two calls overlap: both count, and then insert, the first one last.
abbrev quiet : O.System
quiet = record { alerts = []; calls = [] }

abbrev waits : AlertRequest → ℕ → O.Call
waits req now = record { request = req; counted_at = now }

abbrev last : O.System
last = record { alerts = new_alert ask 7 ∷ new_alert other 6 ∷ []; calls = [] }

overlapping : O.Reach quiet last
overlapping =
    O.next
      (O.next
        (O.next (O.next O.here (O.counts quiet no_faults ask 3 refl))
          (O.counts (record quiet { calls = waits ask 3 ∷ [] }) no_faults other 4 refl))
        (O.inserts (record quiet { calls = waits other 4 ∷ waits ask 3 ∷ [] }) no_faults 6 []
          (waits ask 3 ∷ []) (waits other 4) refl (omega arith) (λ e. (refl, tt))))
      (O.inserts (record { alerts = new_alert other 6 ∷ []; calls = waits ask 3 ∷ [] }) no_faults 7
        [] [] (waits ask 3) refl (omega arith) (λ e. tt))

Reach-Inv_example : O.Inv last
Reach-Inv_example = O.Reach-Inv (record { spaced = tt; clear = tt }) overlapping

abbrev hook : WebhookConfig
hook = record {
  id = codes "w1";
  url = codes "https://hooks";
  webhook_type = codes "generic";
  min_severity = codes "high";
  is_active = true;
  headers = (codes "X-Key", codes "k") ∷ [];
}

-- The endpoint counts the posts and answers 200 from the second on.
abbrev endpoint : Post → ℕ → ℕ × Reply (ℕ × Text)
endpoint p zero = (1, failed (codes "timeout"))
endpoint p (suc n) = (suc (suc n), got (200, codes "ok"))

abbrev no_rows : Db
no_rows = record { webhook_deliveries = []; webhook_sent = []; last_triggered = [] }

-- The row of the second attempt cannot be written.
abbrev faults : ℕ → W.Faults
faults n = record { log = nat_beq n 1; mark_alert = false; mark_webhook = false }

abbrev posts : ℕ → ℕ
posts w = w

endpoint_counts : (p : Post) (w : ℕ) → posts (endpoint p w).0 ≡ posts w + 1
endpoint_counts p zero = refl
endpoint_counts p (suc n) = omega arith

delivery_recorded_example :
    let (w', db', waits, r) =
      deliver_webhook_with_retry endpoint
        (λ u. got tt)
        (λ k. k)
        (λ s b. b)
        faults
        hook
        (codes "a1")
        (λ n. got (codes "{}"))
        0
        no_rows in
    (posts w' ≤ posts 0 + 3)
    × Concluded endpoint
        (λ u. got tt)
        (λ k. k)
        (λ s b. b)
        hook
        (codes "a1")
        posts
        endpoint_counts
        faults
        3
        no_rows
        db'
        r
delivery_recorded_example =
    delivery_recorded endpoint (λ u. got tt) (λ k. k) (λ s b. b) hook (codes "a1") posts
      endpoint_counts faults (λ n. got (codes "{}")) 0 no_rows
