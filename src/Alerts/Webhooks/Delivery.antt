-- ===== src/Alerts/Webhooks/Delivery.antt =====
-- A delivery marks the alert as sent exactly when it succeeds, and leaves a trace when it does not
-- (backend/alerts/webhooks.go).
use seagles.Common.{
  ℕ, zero, suc, ◌+◌, ◌≤◌, ◌<◌, ◌≡◌, ◌⊎◌, inl, inr, refl, ap, true, if◌then◌else◌, Option, none,
  some, ◌∷◌, arith, length,
}
use mathlib.Core.Path.{subst}
use seagles.Text.{Text}
use seagles.Alerts.Webhooks.{
  WebhookConfig, Faults, log_delivery, mark_sent, answered, requested, Db, Post, Reply, got, failed,
  Outcome, delivered, erred, deliver_webhook, retry, deliver_webhook_with_retry, is_success,
}

Outcome-cases : (o : Outcome) → ((s : ℕ) × (o ≡ delivered s)) ⊎ ((e : Text) × (o ≡ erred e))
Outcome-cases (delivered s) = inl (s, refl)
Outcome-cases (erred e) = inr (e, refl)

module _ {ℓ} {W : Type ℓ} (post : Post → W → W × Reply (ℕ × Text))
    (new_request : Text → Reply (Unit {0})) (canonical : Text → Text) (http_error : ℕ → Text → Text)
    (wh : WebhookConfig) (alert_id : Text) (posts : W → ℕ)
    (post_counts : (p : Post) (w : W) → posts (post p w).0 ≡ posts w + 1) where
  abbrev rows : Db → ℕ
  rows db = length db.webhook_deliveries

  -- The marks of a success, where their statements do not fail.
  abbrev pub Marked : Faults → Db → Db → Type 0
  Marked f db db' =
      (db'.webhook_sent ≡ (if f.mark_alert then db.webhook_sent else alert_id ∷ db.webhook_sent))
      × (db'.last_triggered
          ≡ (if f.mark_webhook then db.last_triggered else wh.id ∷ db.last_triggered))

  abbrev pub Unmarked : Db → Db → Type 0
  Unmarked db db' = (db'.webhook_sent ≡ db.webhook_sent) × (db'.last_triggered ≡ db.last_triggered)

  -- What one attempt does to the rows.
  abbrev Recorded : Faults → Db → ℕ → Db → Outcome → Type 0
  Recorded f db attempt db' (delivered status) =
      Marked f db db'
      × (is_success status ≡ true)
      × ((rows db < rows db') ⊎ (f.log ≡ true))
      × (rows db ≤ rows db')
      × (rows db' ≤ rows db + 1)
  Recorded f db attempt db' (erred e) =
      Unmarked db db'
      × (attempt ≡ 2 → (rows db < rows db') ⊎ (f.log ≡ true))
      × (rows db ≤ rows db')
      × (rows db' ≤ rows db + 1)

  deliver_webhook-Recorded :
      (f : Faults) (payload : Reply Text) (attempt : ℕ) (w : W) (db : Db)
      → let (w', db', o) =
          deliver_webhook post new_request canonical http_error f wh alert_id payload attempt w
            db in
        Recorded f db attempt db' o
  unfolding deliver_webhook log_delivery mark_sent
  deliver_webhook-Recorded f (failed e) attempt w db = ground arith
  deliver_webhook-Recorded f (got payload) attempt w db = ground arith

  answered-posts :
      (f : Faults) (attempt : ℕ) (w : W) (db : Db) (r : Reply (ℕ × Text))
      → (answered post new_request canonical http_error f wh alert_id attempt w db r).0 ≡ w
  answered-posts f attempt w db (failed e) = refl
  answered-posts f attempt w db (got (status, body)) = ground arith

  requested-posts :
      (f : Faults) (attempt : ℕ) (payload : Text) (w : W) (db : Db) (r : Reply (Unit {0}))
      → posts
          (requested post new_request canonical http_error f wh alert_id attempt payload w db r).0
        ≤ posts w + 1
  requested-posts f attempt payload w db (failed e) = omega arith
  requested-posts f attempt payload w db (got _) =
      omega (arith, ap posts (answered-posts f attempt _ db _), post_counts _ w)

  -- An attempt posts once at most, whichever statements fail.
  deliver_webhook-posts :
      (f : Faults) (payload : Reply Text) (attempt : ℕ) (w : W) (db : Db)
      → posts
          (deliver_webhook post new_request canonical http_error f wh alert_id payload attempt w
            db).0
        ≤ posts w + 1
  unfolding deliver_webhook
  deliver_webhook-posts f (failed e) attempt w db = omega arith
  deliver_webhook-posts f (got payload) attempt w db =
      requested-posts f attempt payload w db (new_request wh.url)

  module _ (f : ℕ → Faults) where
    -- There are new rows, or a statement that writes one has failed.
    abbrev pub Traced : Db → Db → Type 0
    Traced db db' = (rows db < rows db') ⊎ ((n : ℕ) × ((f n).log ≡ true))

    -- What the loop does, from the rows before it to those after it, with `left` attempts left.
    abbrev pub Concluded : ℕ → Db → Db → Option ℕ → Type 0
    Concluded left db db' (some status) =
        ((n : ℕ) × Marked (f n) db db')
        × (is_success status ≡ true)
        × Traced db db'
        × (rows db ≤ rows db')
        × (rows db' ≤ rows db + left)
    Concluded left db db' none =
        Unmarked db db'
        × ((left ≡ 0) ⊎ Traced db db')
        × (rows db ≤ rows db')
        × (rows db' ≤ rows db + left)

    earlier-Traced : (db db' db'' : Db) → rows db ≤ rows db' → Traced db' db'' → Traced db db''
    earlier-Traced db db' db'' k (inl l) = inl (omega (arith, k, l))
    earlier-Traced db db' db'' k (inr n) = inr n

    later-Traced :
        (n : ℕ) (db db' db'' : Db)
        → rows db' ≤ rows db''
        → (rows db < rows db') ⊎ ((f n).log ≡ true)
        → Traced db db''
    later-Traced n db db' db'' k (inl l) = inl (omega (arith, k, l))
    later-Traced n db db' db'' k (inr e) = inr (n, e)

    then_Concluded :
        (left attempt : ℕ) (db db' db'' : Db) (e : Text) (r : Option ℕ)
        → attempt + suc left ≡ 3
        → Recorded (f attempt) db attempt db' (erred e)
        → Concluded left db' db'' r
        → Concluded (suc left) db db'' r
    then_Concluded left attempt db db' db'' e (some status) k (u, t, a, b) ((n, m), s, c, g, h) = (
      (n, ground (arith, u, m)),
      s,
      earlier-Traced db db' db'' a c,
      omega (arith, a, g),
      omega (arith, b, h),
    )
    then_Concluded left attempt db db' db'' e none k (u, t, a, b) (v, c, g, h) =
        (ground (arith, u, v), inr (traced c), omega (arith, a, g), omega (arith, b, h))
      where
        traced : (left ≡ 0) ⊎ Traced db' db'' → Traced db db''
        traced (inl z) = later-Traced attempt db db' db'' g (t (omega (arith, k, z)))
        traced (inr d) = earlier-Traced db db' db'' a d

    first_Concluded :
        (left attempt status : ℕ) (db db' : Db)
        → Recorded (f attempt) db attempt db' (delivered status)
        → Concluded (suc left) db db' (some status)
    first_Concluded left attempt status db db' (m, s, t, l, b) =
        ((attempt, m), s, later-Traced attempt db db' db' (omega arith) t, l, omega (arith, b))

    retry-Concluded :
        (left : ℕ) (payload : ℕ → Reply Text) (attempt : ℕ) (w : W) (db : Db)
        → attempt + left ≡ 3
        → let (w', db', waits, r) =
            retry post new_request canonical http_error f left wh alert_id payload attempt w db in
          Concluded left db db' r
    unfolding retry
    retry-Concluded zero payload attempt w db k = ((refl, refl), inl refl, omega arith, omega arith)
    retry-Concluded (suc left) payload attempt w db k =
        let out =
          deliver_webhook post new_request canonical http_error (f attempt) wh alert_id
            (payload attempt) attempt w db in
        let recorded = deliver_webhook-Recorded (f attempt) (payload attempt) attempt w db in
        elim (Outcome-cases out.2) [
          | inl (status, e) ↦
              rw (e, retry)
                (first_Concluded left attempt status db out.1
                  (subst (Recorded (f attempt) db attempt out.1) e recorded))
          | inr (err, e) ↦
              rw (e, retry)
                (then_Concluded left attempt db out.1 _ err _ k
                  (subst (Recorded (f attempt) db attempt out.1) e recorded)
                  (retry-Concluded left payload (attempt + 1) out.0 out.1 (omega (arith, k))))
        ]

  retry-posts :
      (f : ℕ → Faults) (left : ℕ) (payload : ℕ → Reply Text) (attempt : ℕ) (w : W) (db : Db)
      → posts
          (retry post new_request canonical http_error f left wh alert_id payload attempt w db).0
        ≤ posts w + left
  unfolding retry
  retry-posts f zero payload attempt w db = omega arith
  retry-posts f (suc left) payload attempt w db =
      let out =
        deliver_webhook post new_request canonical http_error (f attempt) wh alert_id
          (payload attempt) attempt w db in
      let once = deliver_webhook-posts (f attempt) (payload attempt) attempt w db in
      elim (Outcome-cases out.2) [
        | inl (status, e) ↦ rw (e, retry) (omega (arith, once))
        | inr (err, e) ↦
            rw (e, retry)
              (omega (arith, once, retry-posts f left payload (attempt + 1) out.0 out.1))
      ]

  -- A delivery comes to an end after at most three posts, and leaves at most three new rows. If it
  -- succeeds, with a 2xx status, the alert is marked as sent and the webhook as triggered, once, each
  -- unless its statement fails; if it is given up, no mark is set. Either way a row is left, unless a
  -- statement that writes one has failed. That each post adds one to the count of the posts is
  -- assumed of the network.
  pub delivery_recorded :
      (f : ℕ → Faults) (payload : ℕ → Reply Text) (w : W) (db : Db)
      → let (w', db', waits, r) =
          deliver_webhook_with_retry post new_request canonical http_error f wh alert_id payload w
            db in
        (posts w' ≤ posts w + 3) × Concluded f 3 db db' r
  unfolding deliver_webhook_with_retry
  delivery_recorded f payload w db =
      (retry-posts f 3 payload 0 w db, retry-Concluded f 3 payload 0 w db refl)
