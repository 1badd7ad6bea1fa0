-- ===== src/SliExporter/Probes/Reached.antt =====
-- The states that the goroutines and callers of pkg/sliexporter/probes/manager.go reach.
use appcat.Common.{
  ℕ, suc, ◌≤◌, ◌==◌, ==_iff, Bool, true, false, String, str_eq, eq_iff, eq_refl, Option, none, some,
  ◌≡◌, refl, ap, sym, subst, ◌∙◌, arith, inl, inr, ◌↔◌, Bool-cases, if◌then◌else◌,
}
use mathlib.Core.Path.{fun_ext}
use appcat.SliExporter.Probes.{
  ProbeInfo, get_key, Runner, Manager, new_manager, new_runner, put_prober, put_runner, start_probe,
  stop_probe, tick, return, finish, Step, starts, stops, ticks, returns, finishes, Reach, here,
  next,
}
use appcat.SliExporter.Probes.Invariant.{
  IsSound, IsValid, put_runner_other, put_runner_self, some_injective, with_runner-IsValid,
  stop_probe-IsValid,
}

-- The new goroutine of a key that has none.
abbrev with_new : String → Manager → Manager
with_new key m = record {
  probers = put_prober key (some m.next_context) m.probers;
  runners = put_runner m.next_context (some (new_runner key)) m.runners;
  next_context = suc m.next_context;
}

new_runner-IsSound : (key : String) → IsSound (new_runner key)
new_runner-IsSound key = record { flight = refl; ended = λ closed. cc }

is_new :
    (m : Manager) (j : ℕ)
    → m.next_context ≤ j
    → (j == m.next_context) ≡ false
    → suc m.next_context ≤ j
is_new m j above other = ground arith

with_new-IsValid :
    (key : String) (m : Manager) → IsValid m → m.probers key ≡ none → IsValid (with_new key m)
with_new-IsValid key m v nobody = record {
  fresh = λ j above.
      let other : (j == m.next_context) ≡ false = ground arith in
      put_runner_other m.next_context j (some (new_runner key)) m.runners other
      ∙ v.fresh j (omega arith);
  entry = λ k j found. elim (Bool-cases (str_eq k key)) [
    | inl same ↦
        let now : some m.next_context ≡ some j = rw same at found in
        let is_next : j ≡ m.next_context = cc in
        (
          new_runner key,
          put_runner_self m.next_context j (some (new_runner key)) m.runners
              ((==_iff j m.next_context).1 is_next),
          sym ((eq_iff k key).0 same),
          refl,
        )
    | inr other ↦
        let was : m.probers k ≡ some j = rw other at found in
        let (r, at, at_key, live) = v.entry k j was in
        (
          r,
          put_runner_other m.next_context j (some (new_runner key)) m.runners (old j r at) ∙ at,
          at_key,
          live,
        )
  ];
  active = λ j r found live. elim (Bool-cases (j == m.next_context)) [
    | inl same ↦
        let equal : new_runner key ≡ r =
          some_injective (
            sym (put_runner_self m.next_context j (some (new_runner key)) m.runners same)
            ∙ found) in
        ap (put_prober key (some m.next_context) m.probers) (ap (λ x. x.key) (sym equal))
        ∙ rw (eq_refl key) (ap some (sym ((==_iff j m.next_context).0 same)))
    | inr other ↦
        let was : m.runners j ≡ some r =
          sym (put_runner_other m.next_context j (some (new_runner key)) m.runners other) ∙ found in
        let there = v.active j r was live in
        elim (Bool-cases (str_eq r.key key)) [
          | inl same ↦
              let clash : none ≡ some j =
                sym nobody ∙ ap m.probers (sym ((eq_iff r.key key).0 same)) ∙ there in
              cc
          | inr differs ↦ rw differs there
        ]
  ];
  sound = λ j r found. elim (Bool-cases (j == m.next_context)) [
    | inl same ↦
        subst IsSound
          (some_injective
            (sym (put_runner_self m.next_context j (some (new_runner key)) m.runners same) ∙ found))
          (new_runner-IsSound key)
    | inr other ↦
        v.sound j r
          (sym (put_runner_other m.next_context j (some (new_runner key)) m.runners other) ∙ found)
  ];
}
  where
    old : (j : ℕ) (r : Runner) → m.runners j ≡ some r → (j == m.next_context) ≡ false
    old j r at = elim (Bool-cases (j == m.next_context)) [
      | inr other ↦ other
      | inl same ↦ let clash : none ≡ some r = sym (v.fresh j (ground arith)) ∙ at in cc
    ]

put_prober_put :
    (key : String) (e : Option ℕ) (probers : String → Option ℕ)
    → put_prober key e (put_prober key none probers) ≡ put_prober key e probers
put_prober_put key e probers =
    fun_ext (λ k. elim (Bool-cases (str_eq k key)) [
      | inl same ↦ rw same refl
      | inr other ↦ rw other refl
    ])

-- StartProbe does what StopProbe does, and then starts a goroutine.
start_probe-with_new :
    (pi : ProbeInfo) (m : Manager) → with_new (get_key pi) (stop_probe pi m) ≡ start_probe pi m
unfolding start_probe stop_probe
start_probe-with_new pi m =
    ap (λ entries. record (start_probe pi m) { probers = entries })
      (put_prober_put (get_key pi) (some m.next_context) m.probers)

stop_probe_gone : (pi : ProbeInfo) (m : Manager) → (stop_probe pi m).probers (get_key pi) ≡ none
unfolding stop_probe
stop_probe_gone pi m = rw (eq_refl (get_key pi)) refl

count :
    (r : Runner) (b : Bool) → IsSound r → r.probe_running ≡ b → r.in_flight ≡ (if b then 1 else 0)
count r b sound flag = sound.flight ∙ ap (λ x. if x then 1 else 0) flag

at_most_one : (r : Runner) → IsSound r → r.in_flight ≤ 1
at_most_one r sound = elim (Bool-cases r.probe_running) [
  | inl busy ↦ let one : r.in_flight ≡ 1 = count r true sound busy in omega arith
  | inr idle ↦ let no : r.in_flight ≡ 0 = count r false sound idle in omega arith
]

tick_lem :
    (r : Runner)
    → IsSound r
    → ((tick r).key ≡ r.key) × ((tick r).cancelled ≡ r.cancelled) × IsSound (tick r)
unfolding tick
tick_lem r sound = elim (Bool-cases r.probe_running) [
  | inl busy ↦ subst Kept (sym (ap (λ b. if b then r else busy_runner) busy)) (refl, refl, sound)
  | inr idle ↦
      subst Kept (sym (ap (λ b. if b then r else busy_runner) idle))
        (refl, refl, record { flight = ap suc (count r false sound idle); ended = sound.ended })
]
  where
    busy_runner : Runner
    busy_runner = record r { probe_running = true; in_flight = suc r.in_flight }

    Kept : Runner → Type 0
    Kept x = (x.key ≡ r.key) × (x.cancelled ≡ r.cancelled) × IsSound x

finish-IsSound : (r : Runner) → IsSound r → IsSound (finish r)
unfolding finish
finish-IsSound r sound =
    let few = at_most_one r sound in record { flight = omega arith; ended = sound.ended }

return-IsSound : (r : Runner) → r.cancelled ≡ true → IsSound r → IsSound (return r)
unfolding return
return-IsSound r done sound = record { flight = sound.flight; ended = λ closed. done }

Step-IsValid : {m m' : Manager} → Step m m' → IsValid m → IsValid m'
unfolding return finish
Step-IsValid {m} (starts pi) v = subst IsValid (start_probe-with_new pi m) (
    with_new-IsValid (get_key pi) (stop_probe pi m) (stop_probe-IsValid pi m v)
      (stop_probe_gone pi m))
Step-IsValid {m} (stops pi) v = stop_probe-IsValid pi m v
Step-IsValid {m} (ticks i r at runs) v =
    let (key, cancelled, sound) = tick_lem r (v.sound i r at) in
    with_runner-IsValid m i r (tick r) v at key cancelled sound
Step-IsValid {m} (returns i r at runs done) v =
    with_runner-IsValid m i r (return r) v at refl refl (return-IsSound r done (v.sound i r at))
Step-IsValid {m} (finishes i r at flying) v =
    with_runner-IsValid m i r (finish r) v at refl refl (finish-IsSound r (v.sound i r at))

new_manager-IsValid : IsValid new_manager
new_manager-IsValid = record {
  fresh = λ i above. refl;
  entry = λ k i found. cc;
  active = λ i r found live. cc;
  sound = λ i r found. cc;
}

Reach-IsValid : {m m' : Manager} → IsValid m → Reach m m' → IsValid m'
Reach-IsValid v here = v
Reach-IsValid v (next r step) = Step-IsValid step (Reach-IsValid v r)

-- In whatever order StartProbe, StopProbe and the goroutines take their steps: two goroutines whose
-- contexts are not cancelled have different keys, and the map has exactly these; a goroutine has at most
-- one probe in flight; and none returns before its context is cancelled.
pub Reach-OneRunner :
    {m : Manager}
    → Reach new_manager m
    → ((i j : ℕ) (r q : Runner)
        → m.runners i ≡ some r
        → m.runners j ≡ some q
        → r.cancelled ≡ false
        → q.cancelled ≡ false
        → r.key ≡ q.key
        → i ≡ j)
      × ((k : String) (i : ℕ)
          → (m.probers k ≡ some i)
            ↔ ((r : Runner) × (m.runners i ≡ some r) × (r.key ≡ k) × (r.cancelled ≡ false)))
      × ((i : ℕ) (r : Runner)
          → m.runners i ≡ some r
          → (r.in_flight ≤ 1) × (r.closed ≡ true → r.cancelled ≡ true))
Reach-OneRunner {m} reached =
    let v = Reach-IsValid new_manager-IsValid reached in
    (
      λ i j r q at_i at_j live_i live_j same.
          let one : some i ≡ some j =
            sym (v.active i r at_i live_i) ∙ ap m.probers same ∙ v.active j q at_j live_j in
          cc,
      λ k i. (
        λ found. v.entry k i found,
        λ (r, at, key, live). ap m.probers (sym key) ∙ v.active i r at live,
      ),
      λ i r at. (at_most_one r (v.sound i r at), (v.sound i r at).ended),
    )
