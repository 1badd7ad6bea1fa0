-- ===== src/SliExporter/Probes.antt =====
-- The manager of the probes: pkg/sliexporter/probes/manager.go. Each running prober is a goroutine,
-- which is found by the number of its context; a Go map is a function. The steps are what the
-- goroutines and the callers do between two points where others may run: StartProbe and StopProbe hold
-- the lock of the manager, and the flag `probeRunning` is set in one atomic operation.
pub mod Invariant
pub mod Reached
pub mod Overlap
use appcat.Common.{
  ℕ, suc, ◌+◌, ◌-◌, ◌<◌, ◌==◌, Bool, true, false, ◌&&◌, ◌||◌, String, str_eq, Option, none, some,
  if◌then◌else◌, ◌≡◌,
}
use Prim.Native.String.{◌++◌ as text_append}

pub record ProbeInfo : Type 0 where
  pub service : String
  pub name : String
  pub claim_namespace : String
  pub instance_namespace : String
  pub organization : String
  pub high_available : Bool
  pub service_level : String
  pub composition_name : String

-- "%s; %s".
unfoldable pub get_key : ProbeInfo → String
get_key pi = text_append pi.service (text_append "; " pi.name)

-- The goroutine of runProbe: whether its context is cancelled, whether it has returned and closed its
-- prober, its flag, and how many of its calls of sendProbe run.
pub record Runner : Type 0 where
  pub key : String
  pub cancelled : Bool
  pub closed : Bool
  pub probe_running : Bool
  pub in_flight : ℕ

-- `probers` has the number of the context that each cancel function is for.
pub record Manager : Type 0 where
  pub probers : String → Option ℕ
  pub runners : ℕ → Option Runner
  pub next_context : ℕ

abbrev pub new_manager : Manager
new_manager = record { probers = λ k. none; runners = λ i. none; next_context = 0 }

abbrev pub new_runner : String → Runner
new_runner key = record {
  key = key;
  cancelled = false;
  closed = false;
  probe_running = false;
  in_flight = 0;
}

abbrev pub put_prober : String → Option ℕ → (String → Option ℕ) → String → Option ℕ
put_prober key entry probers k = if str_eq k key then entry else probers k

abbrev pub put_runner : ℕ → Option Runner → (ℕ → Option Runner) → ℕ → Option Runner
put_runner i entry runners j = if j == i then entry else runners j

abbrev pub as_cancelled : Option Runner → Option Runner
as_cancelled none = none
as_cancelled (some r) = some (record r { cancelled = true })

-- The call of a cancel function, if there is one.
unfoldable pub cancel : Option ℕ → (ℕ → Option Runner) → ℕ → Option Runner
cancel none runners = runners
cancel (some i) runners = put_runner i (as_cancelled (runners i)) runners

unfoldable pub start_probe : ProbeInfo → Manager → Manager
start_probe pi m = record {
  probers = put_prober (get_key pi) (some m.next_context) m.probers;
  runners =
      put_runner m.next_context (some (new_runner (get_key pi)))
        (cancel (m.probers (get_key pi)) m.runners);
  next_context = suc m.next_context;
}

unfoldable pub stop_probe : ProbeInfo → Manager → Manager
stop_probe pi m = record m {
  probers = put_prober (get_key pi) none m.probers;
  runners = cancel (m.probers (get_key pi)) m.runners;
}

-- A tick starts a probe unless one of this goroutine is still running.
unfoldable pub tick : Runner → Runner
tick r =
    if r.probe_running then r else record r { probe_running = true; in_flight = suc r.in_flight }

-- The loop returns, and its deferred calls close the prober.
unfoldable pub return : Runner → Runner
return r = record r { closed = true }

-- sendProbe returns, and the flag is reset.
unfoldable pub finish : Runner → Runner
finish r = record r { probe_running = false; in_flight = r.in_flight - 1 }

abbrev pub with_runner : ℕ → Runner → Manager → Manager
with_runner i r m = record m { runners = put_runner i (some r) m.runners }

pub data Step (m : Manager) : Manager → Type 0 where
  starts : (pi : ProbeInfo) → Step m (start_probe pi m)
  stops : (pi : ProbeInfo) → Step m (stop_probe pi m)
  ticks :
      (i : ℕ) (r : Runner)
      → m.runners i ≡ some r
      → r.closed ≡ false
      → Step m (with_runner i (tick r) m)
  returns :
      (i : ℕ) (r : Runner)
      → m.runners i ≡ some r
      → r.closed ≡ false
      → r.cancelled ≡ true
      → Step m (with_runner i (return r) m)
  finishes :
      (i : ℕ) (r : Runner)
      → m.runners i ≡ some r
      → 0 < r.in_flight
      → Step m (with_runner i (finish r) m)

-- What the goroutines and callers can reach, in any order of their steps.
pub data Reach (m : Manager) : Manager → Type 0 where
  here : Reach m m
  next : {m' m'' : Manager} → Reach m m' → Step m' m'' → Reach m m''

-- The error of the probe's context: none, its deadline, or its cancellation.
pub data ContextError : Type 0 where
  no_error deadline_exceeded canceled : ContextError

abbrev pub is_deadline : ContextError → Bool
is_deadline deadline_exceeded = true
is_deadline _ = false

abbrev pub is_canceled : ContextError → Bool
is_canceled canceled = true
is_canceled _ = false

-- The label "reason" of what sendProbe observes; `none` if it observes nothing. A probe fails with
-- ErrTimeout or another error.
unfoldable pub reason : Option Bool → ContextError → Option String
reason none context = some "success"
reason (some is_timeout) context =
    if is_timeout || is_deadline context
    then some "fail-timeout"
    else (if is_canceled context then none else some "fail-unknown")
