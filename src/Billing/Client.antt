-- ===== src/Billing/Client.antt =====
-- What the billing controller calls: the Kubernetes API (controller-runtime's client), Odoo, the
-- clock, Go's map order, time formats and the retry helper, none of which is in this repository's
-- sources. `W` is the state of all of these. A call returns its result and the next state.
use appcat.Common.{ℕ, String, Bool, List, ◌∷◌, Option, any, str_eq, ◌≡◌, ap}
use appcat.Billing.Types.{BillingService}

-- The kinds of API errors that the controller tells apart, and all others.
pub data ApiError : Type 0 where
  not_found conflict server_timeout too_many_requests service_unavailable : ApiError
  missing_instance_id event_gone no_creation_timestamp no_organization no_sales_order
        index_out_of_range :
      ApiError
  other : String → ApiError

pub data Result {ℓ} (A : Type ℓ) : Type ℓ where
  ok : A → Result A
  err : ApiError → Result A

-- odoo.InstanceEvent.
pub record InstanceEvent : Type 0 where
  pub product_id : String
  pub instance_id : String
  pub sales_order_id : String
  pub item_description : String
  pub item_group_description : String
  pub event_type : String
  pub size : String
  pub timestamp : String

-- `get`, `update` and `status_update` are about the one object that a request names; the last two
-- return the object as the server stored it. `walk` is an order in which Go walks a map's keys;
-- `organization`
-- reads status.salesOrderName of an Organization; `on_error` is retry.OnError with DefaultRetry.
pub record Client (W : Type 0) : Type 0 where
  pub now : W → ℕ × W
  pub walk : List String → W → List String × W
  pub get : W → Result BillingService × W
  pub update : BillingService → W → Result BillingService × W
  pub status_update : BillingService → W → Result BillingService × W
  pub send : InstanceEvent → W → Result (Unit {0}) × W
  pub organization : String → W → Result (Option String) × W
  pub on_error : (ApiError → Bool) → (W → Result BillingService × W) → W → Result BillingService × W
  pub format_time : ℕ → String
  pub parse_time : String → Option ℕ

-- A computation over the object that the Go code holds by pointer, and the world. What it did to
-- the object stays done when it fails.
abbrev pub M : Type 0 → Type 0 → Type 0
M W A = BillingService → W → Result A × BillingService × W

abbrev pub and_then :
    {W A B : Type 0} → Result A × BillingService × W → (A → M W B) → Result B × BillingService × W
and_then (ok a, svc, w) f = f a svc w
and_then (err e, svc, w) f = (err e, svc, w)

infixl 5 ◌>>=◌ ◌>>◌
abbrev pub ◌>>=◌ : {W A B : Type 0} → M W A → (A → M W B) → M W B
◌>>=◌ m f svc w = and_then (m svc w) f

abbrev pub ◌>>◌ : {W B : Type 0} → M W (Unit {0}) → M W B → M W B
m >> k = m >>= λ _. k

abbrev pub pure : {W A : Type 0} → A → M W A
pure a svc w = (ok a, svc, w)

-- The object is replaced by the server's answer, and left alone by a failed call.
abbrev pub replaced :
    {W : Type 0}
    → BillingService
    → Result BillingService × W
    → Result (Unit {0}) × BillingService × W
replaced svc (ok answer, w) = (ok tt, answer, w)
replaced svc (err e, w) = (err e, svc, w)

unfoldable pub push_status : {W : Type 0} → Client W → M W (Unit {0})
push_status c svc w = replaced svc (c.status_update svc w)

unfoldable pub push : {W : Type 0} → Client W → M W (Unit {0})
push c svc w = replaced svc (c.update svc w)

-- An API server that fails no call, while nobody else writes: `stored` is the object that it holds.
pub record Storage {W : Type 0} (c : Client W) (stored : W → BillingService) : Type 0 where
  pub now_keeps : (w : W) → stored (c.now w).1 ≡ stored w
  pub get_stored : (w : W) → c.get w ≡ (ok (stored w), w)
  pub status_accepted : (svc : BillingService) (w : W) → (c.status_update svc w).0 ≡ ok svc
  pub status_stored : (svc : BillingService) (w : W) → stored (c.status_update svc w).1 ≡ svc
  pub send_keeps : (e : InstanceEvent) (w : W) → stored (c.send e w).1 ≡ stored w
  -- A function that succeeds at once is not retried.
  pub on_error_success :
      (transient : ApiError → Bool) (f : W → Result BillingService × W) (w : W)
      {svc : BillingService} {w' : W}
      → f w ≡ (ok svc, w')
      → c.on_error transient f w ≡ (ok svc, w')

-- What Odoo has taken, the last message first: a call that it accepts adds its message, and the other
-- calls leave it alone.
pub record Hears {W : Type 0} (c : Client W) (heard : W → List InstanceEvent) : Type 0 where
  pub now_hears : (w : W) → heard (c.now w).1 ≡ heard w
  pub status_hears : (svc : BillingService) (w : W) → heard (c.status_update svc w).1 ≡ heard w
  pub send_hears :
      (e : InstanceEvent) (w w' : W) → c.send e w ≡ (ok tt, w') → heard w' ≡ e ∷ heard w

-- Odoo takes every event.
abbrev pub Accepts : {W : Type 0} → Client W → Type 0
Accepts {W} c = (e : InstanceEvent) (w : W) → (c.send e w).0 ≡ ok tt

pub push_status-accepted :
    {W : Type 0} {c : Client W} {stored : W → BillingService}
    → Storage c stored
    → (svc : BillingService) (w : W) → (push_status c svc w).1 ≡ svc
unfolding push_status
push_status-accepted {c = c} storage svc w =
    ap (λ r. (replaced svc (r, (c.status_update svc w).1)).1) (storage.status_accepted svc w)

pub push_status-eq :
    {W : Type 0} {c : Client W} {stored : W → BillingService}
    → Storage c stored
    → (svc : BillingService) (w : W) → push_status c svc w ≡ (ok tt, svc, (c.status_update svc w).1)
unfolding push_status
push_status-eq {c = c} storage svc w =
    ap (λ r. replaced svc (r, (c.status_update svc w).1)) (storage.status_accepted svc w)

-- A walk over a map's keys meets each key, and nothing else.
abbrev pub Walks : {W : Type 0} → Client W → Type 0
Walks {W} c =
    (keys : List String) (w : W) (k : String)
    → any (str_eq k) (c.walk keys w).0 ≡ any (str_eq k) keys

-- An update that is accepted, and answered with the object as it was sent.
abbrev pub Updates : {W : Type 0} → Client W → Type 0
Updates {W} c = (svc : BillingService) (w : W) → (c.update svc w).0 ≡ ok svc

pub push-accepted :
    {W : Type 0} (c : Client W)
    → Updates c
    → (svc : BillingService) (w : W) → push c svc w ≡ (ok tt, svc, (c.update svc w).1)
unfolding push
push-accepted c updates svc w = ap (λ r. replaced svc (r, (c.update svc w).1)) (updates svc w)
