-- ===== src/SliExporter/Probes/Overlap.antt =====
-- Two goroutines of one instance at the same time, in pkg/sliexporter/probes/manager.go.
use appcat.Common.{true, ◌≡◌, refl, ap, eq_refl, some, none, if◌then◌else◌}
use appcat.SliExporter.Probes.{
  ProbeInfo, get_key, Runner, Manager, new_manager, new_runner, cancel, start_probe, tick,
  with_runner, starts, ticks, Reach, here, next,
}

-- For every instance there is an order of the steps after which two goroutines of its key have a probe in
-- flight at the same time: the second StartProbe cancels the first context, but does not wait for the
-- probe that runs in it.
pub Reach-Overlap :
    (pi : ProbeInfo)
    → (m : Manager) × Reach new_manager m
      × (r : Runner) × (q : Runner) × (m.runners 0 ≡ some r)
      × (m.runners 1 ≡ some q)
      × (r.key ≡ get_key pi)
      × (q.key ≡ get_key pi)
      × (r.in_flight ≡ 1)
      × (q.in_flight ≡ 1)
unfolding start_probe cancel tick
Reach-Overlap pi = (
  with_runner 1 (tick fresh) second,
  next (next (next (next here (starts pi)) (ticks 0 fresh refl refl)) (starts pi))
      (ticks 1 fresh refl refl),
  record (tick fresh) { cancelled = true },
  tick fresh,
  ap (λ b. cancel (if b then some 0 else none) first.runners 0) (eq_refl (get_key pi)),
  refl,
  refl,
  refl,
  refl,
  refl,
)
  where
    fresh : Runner
    fresh = new_runner (get_key pi)

    first : Manager
    first = with_runner 0 (tick fresh) (start_probe pi new_manager)

    second : Manager
    second = start_probe pi first
