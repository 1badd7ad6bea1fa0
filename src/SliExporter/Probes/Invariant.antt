-- ===== src/SliExporter/Probes/Invariant.antt =====
-- What holds whenever the goroutines of pkg/sliexporter/probes/manager.go are interleaved.
use appcat.Common.{
  ℕ, ◌≤◌, ◌==◌, ==_iff, true, false, String, str_eq, eq_iff, Option, none, some, ◌≡◌, refl, ap, sym,
  subst, ◌∙◌, arith, ◌⊎◌, inl, inr, Bool-cases, if◌then◌else◌,
}
use appcat.SliExporter.Probes.{
  ProbeInfo, get_key, Runner, Manager, put_prober, put_runner, as_cancelled, cancel, stop_probe,
  with_runner,
}

-- One goroutine: its flag says whether a probe runs, and it has not returned before its context was
-- cancelled.
pub record IsSound (r : Runner) : Type 0 where
  pub flight : r.in_flight ≡ (if r.probe_running then 1 else 0)
  pub ended : r.closed ≡ true → r.cancelled ≡ true

-- The map has exactly the goroutines whose context is not cancelled.
pub record IsValid (m : Manager) : Type 0 where
  pub fresh : (i : ℕ) → m.next_context ≤ i → m.runners i ≡ none
  pub entry :
      (k : String) (i : ℕ)
      → m.probers k ≡ some i
      → (r : Runner) × (m.runners i ≡ some r) × (r.key ≡ k) × (r.cancelled ≡ false)
  pub active :
      (i : ℕ) (r : Runner) → m.runners i ≡ some r → r.cancelled ≡ false → m.probers r.key ≡ some i
  pub sound : (i : ℕ) (r : Runner) → m.runners i ≡ some r → IsSound r

-- The goroutine `i` is replaced, and no other.
pub put_runner_other :
    (i j : ℕ) (e : Option Runner) (runners : ℕ → Option Runner)
    → (j == i) ≡ false
    → put_runner i e runners j ≡ runners j
put_runner_other i j e runners differ = rw differ refl

pub put_runner_self :
    (i j : ℕ) (e : Option Runner) (runners : ℕ → Option Runner)
    → (j == i) ≡ true
    → put_runner i e runners j ≡ e
put_runner_self i j e runners same = rw same refl

pub some_injective : {a b : Runner} → some a ≡ some b → a ≡ b
some_injective e = cc

-- A step of one goroutine that keeps its key and its context.
pub with_runner-IsValid :
    (m : Manager) (i : ℕ) (r r' : Runner)
    → IsValid m
    → m.runners i ≡ some r
    → r'.key ≡ r.key
    → r'.cancelled ≡ r.cancelled
    → IsSound r'
    → IsValid (with_runner i r' m)
with_runner-IsValid m i r r' v at key cancelled good = record {
  fresh = λ j above. elim (Bool-cases (j == i)) [
    | inl same ↦
        let here : j ≡ i = (==_iff j i).0 same in
        let clash : none ≡ some r = sym (v.fresh j above) ∙ ap m.runners here ∙ at in cc
    | inr other ↦ put_runner_other i j (some r') m.runners other ∙ v.fresh j above
  ];
  entry = λ k j found. elim (Bool-cases (j == i)) [
    | inl same ↦
        let here : j ≡ i = (==_iff j i).0 same in
        let (r₀, at₀, key₀, live₀) = v.entry k j found in
        let equal : r₀ ≡ r = some_injective (sym at₀ ∙ ap m.runners here ∙ at) in
        (
          r',
          put_runner_self i j (some r') m.runners same,
          key ∙ ap (λ x. x.key) (sym equal) ∙ key₀,
          cancelled ∙ ap (λ x. x.cancelled) (sym equal) ∙ live₀,
        )
    | inr other ↦
        let (r₀, at₀, key₀, live₀) = v.entry k j found in
        (r₀, put_runner_other i j (some r') m.runners other ∙ at₀, key₀, live₀)
  ];
  active = λ j q found live. elim (Bool-cases (j == i)) [
    | inl same ↦
        let here : j ≡ i = (==_iff j i).0 same in
        let equal : r' ≡ q =
          some_injective (sym (put_runner_self i j (some r') m.runners same) ∙ found) in
        ap m.probers (ap (λ x. x.key) (sym equal) ∙ key)
        ∙ v.active i r at (sym cancelled ∙ ap (λ x. x.cancelled) equal ∙ live)
        ∙ ap some (sym here)
    | inr other ↦ v.active j q (sym (put_runner_other i j (some r') m.runners other) ∙ found) live
  ];
  sound = λ j q found. elim (Bool-cases (j == i)) [
    | inl same ↦
        let equal : r' ≡ q =
          some_injective (sym (put_runner_self i j (some r') m.runners same) ∙ found) in
        subst IsSound equal good
    | inr other ↦ v.sound j q (sym (put_runner_other i j (some r') m.runners other) ∙ found)
  ];
}

-- What a cancel function leaves: the goroutine that it is for is cancelled, the others are untouched.
cancel_cases :
    (o : Option ℕ) (runners : ℕ → Option Runner) (j : ℕ) (r : Runner)
    → cancel o runners j ≡ some r
    → ((runners j ≡ some r) × (o ≡ some j → ⊥))
      ⊎ ((r₀ : Runner) × (runners j ≡ some r₀) × (r ≡ record r₀ { cancelled = true }))
unfolding cancel
cancel_cases none runners j r found = inl (found, λ e. cc)
cancel_cases (some i) runners j r found = elim (Bool-cases (j == i)) [
  | inl same ↦
      let here : j ≡ i = (==_iff j i).0 same in
      was_cancelled (runners j) refl (
        ap (λ k. as_cancelled (runners k)) here
        ∙ sym (put_runner_self i j (as_cancelled (runners i)) runners same)
        ∙ found)
  | inr other ↦ inl (
    sym (put_runner_other i j (as_cancelled (runners i)) runners other) ∙ found,
    λ e. let same : i ≡ j = cc in ground arith,
  )
]
  where
    was_cancelled :
        (o : Option Runner)
        → runners j ≡ o
        → as_cancelled o ≡ some r
        → ((runners j ≡ some r) × (some i ≡ some j → ⊥))
          ⊎ ((r₀ : Runner) × (runners j ≡ some r₀) × (r ≡ record r₀ { cancelled = true }))
    was_cancelled none at e = cc
    was_cancelled (some r₀) at e = inr (r₀, at, sym (some_injective e))

cancel_untouched :
    (o : Option ℕ) (runners : ℕ → Option Runner) (j : ℕ)
    → (o ≡ some j → ⊥)
    → cancel o runners j ≡ runners j
unfolding cancel
cancel_untouched none runners j other = refl
cancel_untouched (some i) runners j other = elim (Bool-cases (j == i)) [
  | inl same ↦ absurd (other (ap some (sym ((==_iff j i).0 same))))
  | inr differ ↦ put_runner_other i j (as_cancelled (runners i)) runners differ
]

cancel-none :
    (o : Option ℕ) (runners : ℕ → Option Runner) (j : ℕ)
    → runners j ≡ none
    → cancel o runners j ≡ none
unfolding cancel
cancel-none none runners j gone = gone
cancel-none (some i) runners j gone = elim (Bool-cases (j == i)) [
  | inl same ↦
      put_runner_self i j (as_cancelled (runners i)) runners same
      ∙ ap as_cancelled (ap runners (sym ((==_iff j i).0 same)) ∙ gone)
  | inr differ ↦ put_runner_other i j (as_cancelled (runners i)) runners differ ∙ gone
]

cancelled-IsSound : (r : Runner) → IsSound r → IsSound (record r { cancelled = true })
cancelled-IsSound r sound = record { flight = sound.flight; ended = λ closed. refl }

put_prober-none :
    (key k : String) (probers : String → Option ℕ) {i : ℕ}
    → put_prober key none probers k ≡ some i
    → (str_eq k key ≡ false) × (probers k ≡ some i)
put_prober-none key k probers found = elim (Bool-cases (str_eq k key)) [
  | inl same ↦ let clash : none ≡ some _ = rw same at found in cc
  | inr other ↦ (other, rw other at found)
]

pub stop_probe-IsValid : (pi : ProbeInfo) (m : Manager) → IsValid m → IsValid (stop_probe pi m)
unfolding stop_probe
stop_probe-IsValid pi m v = record {
  fresh = λ j above. cancel-none (m.probers key) m.runners j (v.fresh j above);
  entry = λ k j found.
      let (other, was) = put_prober-none key k m.probers found in
      let (r, at, at_key, live) = v.entry k j was in
      (
        r,
        cancel_untouched (m.probers key) m.runners j (λ e. apart k j r other at at_key e) ∙ at,
        at_key,
        live,
      );
  active = λ j r found live. elim (cancel_cases (m.probers key) m.runners j r found) [
    | inl (was, untouched) ↦
        let there = v.active j r was live in
        elim (Bool-cases (str_eq r.key key)) [
          | inl same ↦ absurd (untouched (ap m.probers (sym ((eq_iff r.key key).0 same)) ∙ there))
          | inr other ↦ rw other there
        ]
    | inr (r₀, was, equal) ↦
        let clash : true ≡ false = ap (λ x. x.cancelled) (sym equal) ∙ live in cc
  ];
  sound = λ j r found. elim (cancel_cases (m.probers key) m.runners j r found) [
    | inl (was, untouched) ↦ v.sound j r was
    | inr (r₀, was, equal) ↦ subst IsSound (sym equal) (cancelled-IsSound r₀ (v.sound j r₀ was))
  ];
}
  where
    key : String
    key = get_key pi

    apart :
        (k : String) (j : ℕ) (r : Runner)
        → str_eq k (get_key pi) ≡ false
        → m.runners j ≡ some r
        → r.key ≡ k
        → m.probers (get_key pi) ≡ some j
        → ⊥
    apart k j r other at at_key e =
        let (r', at', key', live') = v.entry (get_key pi) j e in
        let equal : r ≡ r' = some_injective (sym at ∙ at') in
        let same : k ≡ get_key pi = sym at_key ∙ ap (λ x. x.key) equal ∙ key' in
        let yes_same : str_eq k (get_key pi) ≡ true = (eq_iff k (get_key pi)).1 same in cc
