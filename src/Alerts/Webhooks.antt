-- ===== src/Alerts/Webhooks.antt =====
-- backend/alerts/webhooks.go: which webhooks hear of an alert, and the delivery to one of them. The
-- network (its state `W` and `post`), the check of a URL by `http.NewRequest`, the canonical form
-- of a header's key and the payload that the builders give are arguments; the clock and the log of
-- the process are left out. Which statements of which attempt fail is an argument.
pub mod Delivery
use seagles.Common.{
  ℕ, zero, suc, ◌+◌, ◌-◌, ◌*◌, ◌^◌, Bool, true, false, ◌&&◌, Option, none, some, List, [], ◌∷◌, ltb,
  leb, nat_beq, ◌==◌, if◌then◌else◌,
}
use seagles.Text.{Text, codes, text_eq, to_lower}
use seagles.Dict.{insert}

-- The name is only logged, and the secret is not used.
pub record WebhookConfig : Type 0 where
  pub id : Text
  pub url : Text
  pub webhook_type : Text
  pub min_severity : Text
  pub is_active : Bool
  -- what `json.Unmarshal` makes of the column, nothing where it is empty or no object of strings
  pub headers : List (Text × Text)

unfoldable pub severity_level : Text → ℕ
severity_level sev =
    let s = to_lower sev in
    if s == codes "critical"
    then 4
    else (if s == codes "high"
        then 3
        else (if s == codes "medium" then 2 else (if s == codes "low" then 1 else 0)))

-- The webhooks for which `DispatchWebhooks` starts a delivery.
unfoldable pub dispatch_webhooks : Text → List WebhookConfig → List WebhookConfig
dispatch_webhooks severity [] = []
dispatch_webhooks severity (wh ∷ whs) =
    let rest = dispatch_webhooks severity whs in
    if wh.is_active && leb (severity_level wh.min_severity) (severity_level severity)
    then wh ∷ rest
    else rest

-- A row of webhook_deliveries.
pub record DeliveryRow : Type 0 where
  pub webhook_id : Text
  pub alert_id : Text
  pub status_code : ℕ
  pub response_body : Text
  pub error : Text

-- The rows that are written, the alerts that are marked as sent and the webhooks as triggered,
-- newest first.
pub record Db : Type 0 where
  pub webhook_deliveries : List DeliveryRow
  pub webhook_sent : List Text
  pub last_triggered : List Text

-- Which of the statements of an attempt fail; their errors are dropped.
pub record Faults : Type 0 where
  pub log : Bool
  pub mark_alert : Bool
  pub mark_webhook : Bool

unfoldable pub log_delivery : Faults → Text → Text → ℕ → Text → Text → Db → Db
log_delivery f webhook_id alert_id status_code response_body error db =
    if f.log then db else record db {
      webhook_deliveries =
          record {
            webhook_id = webhook_id;
            alert_id = alert_id;
            status_code = status_code;
            response_body = response_body;
            error = error;
          }
          ∷ db.webhook_deliveries;
    }

unfoldable pub mark_sent : Faults → Text → Text → Db → Db
mark_sent f webhook_id alert_id db = record db {
  webhook_sent = if f.mark_alert then db.webhook_sent else alert_id ∷ db.webhook_sent;
  last_triggered = if f.mark_webhook then db.last_triggered else webhook_id ∷ db.last_triggered;
}

pub record Post : Type 0 where
  pub url : Text
  pub headers : List (Text × Text)
  pub body : Text

-- What fails, with the error's text, or what comes back.
pub data Reply {ℓ} (A : Type ℓ) : Type ℓ where
  failed : Text → Reply A
  got : A → Reply A

abbrev set_headers : (Text → Text) → List (Text × Text) → List (Text × Text) → List (Text × Text)
set_headers canonical [] into = into
set_headers canonical ((k, v) ∷ hs) into = set_headers canonical hs (insert (canonical k) v into)

abbrev pub max_webhook_retries : ℕ
max_webhook_retries = 3

abbrev pub is_success : ℕ → Bool
is_success status = leb 200 status && ltb status 300

-- How an attempt ends: delivered, or an error.
pub data Outcome : Type 0 where
  delivered : ℕ → Outcome
  erred : Text → Outcome

module _ {ℓ} {W : Type ℓ} (post : Post → W → W × Reply (ℕ × Text))
    (new_request : Text → Reply (Unit {0})) (canonical : Text → Text)
    (http_error : ℕ → Text → Text) where
  abbrev answered : Faults → WebhookConfig → Text → ℕ → W → Db → Reply (ℕ × Text) → W × Db × Outcome
  answered f wh alert_id attempt w db (failed e) = (
    w,
    if nat_beq attempt (max_webhook_retries - 1)
        then log_delivery f wh.id alert_id 0 [] e db
        else db,
    erred e,
  )
  answered f wh alert_id attempt w db (got (status, body)) =
      let db' = log_delivery f wh.id alert_id status body [] db in
      if is_success status
      then (w, mark_sent f wh.id alert_id db', delivered status)
      else (w, db', erred (http_error status body))

  abbrev requested :
      Faults → WebhookConfig → Text → ℕ → Text → W → Db → Reply (Unit {0}) → W × Db × Outcome
  requested f wh alert_id attempt payload w db (failed e) =
      (w, log_delivery f wh.id alert_id 0 [] e db, erred e)
  requested f wh alert_id attempt payload w db (got _) =
      let (w', reply) =
        post
          (record {
            url = wh.url;
            headers = set_headers canonical wh.headers (
                (codes "Content-Type", codes "application/json")
                ∷ (codes "User-Agent", codes "Seagles-Webhook/2.0")
                ∷ []);
            body = payload;
          })
          w in
      answered f wh alert_id attempt w' db reply

  unfoldable pub deliver_webhook :
      Faults → WebhookConfig → Text → Reply Text → ℕ → W → Db → W × Db × Outcome
  unfolding log_delivery mark_sent
  deliver_webhook f wh alert_id (failed e) attempt w db =
      (w, log_delivery f wh.id alert_id 0 [] e db, erred e)
  deliver_webhook f wh alert_id (got payload) attempt w db =
      requested f wh alert_id attempt payload w db (new_request wh.url)

  -- The loop from `attempt` on, with `left` attempts left. The waits are in milliseconds.
  unfoldable pub retry :
      (ℕ → Faults)
      → ℕ
      → WebhookConfig
      → Text
      → (ℕ → Reply Text)
      → ℕ
      → W
      → Db
      → W × Db × List ℕ × Option ℕ
  retry f zero wh alert_id payload attempt w db = (w, db, [], none)
  retry f (suc left) wh alert_id payload attempt w db =
      let (w', db', o) = deliver_webhook (f attempt) wh alert_id (payload attempt) attempt w db in
      elim o [
        | delivered status ↦ (w', db', [], some status)
        | erred e ↦
            let (w'', db'', waits, r) = retry f left wh alert_id payload (attempt + 1) w' db' in
            (
              w'',
              db'',
              if ltb attempt (max_webhook_retries - 1) then (1000 * 2 ^ attempt) ∷ waits else waits,
              r,
            )
      ]

  -- The status of the delivery is handed back where the source logs it.
  unfoldable pub deliver_webhook_with_retry :
      (ℕ → Faults) → WebhookConfig → Text → (ℕ → Reply Text) → W → Db → W × Db × List ℕ × Option ℕ
  deliver_webhook_with_retry f wh alert_id payload w db =
      retry f max_webhook_retries wh alert_id payload 0 w db
