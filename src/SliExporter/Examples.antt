-- ===== src/SliExporter/Examples.antt =====
-- Two instances of the SLI exporter's prober that follow each other, as in
-- pkg/sliexporter/probes/manager_test.go, with concrete values.
use appcat.Common.{ℕ, ◌≤◌, true, false, ◌≡◌, refl, none, some, ◌↔◌, String}
use appcat.SliExporter.Probes.{
  ProbeInfo, get_key, Runner, Manager, new_manager, new_runner, cancel, start_probe, stop_probe,
  tick, with_runner, starts, ticks, Reach, here, next, no_error, deadline_exceeded, canceled,
  reason,
}
use appcat.SliExporter.Probes.Reached.{Reach-OneRunner}
use appcat.SliExporter.Probes.Overlap.{Reach-Overlap}

abbrev redis : ProbeInfo
redis = record {
  service = "VSHNRedis";
  name = "foo";
  claim_namespace = "bar";
  instance_namespace = "vshn-redis-foo";
  organization = "org";
  high_available = false;
  service_level = "besteffort";
  composition_name = "vshnredis.vshn.appcat.vshn.io";
}

abbrev started : Manager
started = start_probe redis new_manager

abbrev probing : Manager
probing = with_runner 0 (tick (new_runner "VSHNRedis; foo")) started

abbrev restarted : Manager
restarted = start_probe redis probing

restarted-Reach : Reach new_manager restarted
unfolding start_probe cancel get_key
restarted-Reach =
    next (next (next here (starts redis)) (ticks 0 (new_runner "VSHNRedis; foo") refl refl))
      (starts redis)

restarted_test :
    (restarted.probers "VSHNRedis; foo" ≡ some 1)
    × (restarted.runners 0
        ≡ some (record {
          key = "VSHNRedis; foo";
          cancelled = true;
          closed = false;
          probe_running = true;
          in_flight = 1;
        }))
unfolding start_probe cancel get_key tick
restarted_test = (refl, refl)

stopped_test : (stop_probe redis restarted).probers "VSHNRedis; foo" ≡ none
unfolding start_probe stop_probe cancel get_key tick
stopped_test = refl

reason_test :
    (reason (some false) deadline_exceeded ≡ some "fail-timeout")
    × (reason (some true) canceled ≡ some "fail-timeout")
    × (reason (some false) canceled ≡ none)
    × (reason (some false) no_error ≡ some "fail-unknown")
unfolding reason
reason_test = (refl, refl, refl, refl)

Reach-OneRunner_example :
    ((i j : ℕ) (r q : Runner)
      → restarted.runners i ≡ some r
      → restarted.runners j ≡ some q
      → r.cancelled ≡ false
      → q.cancelled ≡ false
      → r.key ≡ q.key
      → i ≡ j)
    × ((k : String) (i : ℕ)
        → (restarted.probers k ≡ some i)
          ↔ ((r : Runner) × (restarted.runners i ≡ some r) × (r.key ≡ k) × (r.cancelled ≡ false)))
    × ((i : ℕ) (r : Runner)
        → restarted.runners i ≡ some r
        → (r.in_flight ≤ 1) × (r.closed ≡ true → r.cancelled ≡ true))
Reach-OneRunner_example = Reach-OneRunner {m = restarted} restarted-Reach

Reach-Overlap_example :
    (m : Manager) × Reach new_manager m
    × (r : Runner) × (q : Runner) × (m.runners 0 ≡ some r)
    × (m.runners 1 ≡ some q)
    × (r.key ≡ get_key redis)
    × (q.key ≡ get_key redis)
    × (r.in_flight ≡ 1)
    × (q.in_flight ≡ 1)
Reach-Overlap_example = Reach-Overlap redis
