-- ===== src/Maintenance/Postgresql/Streams.antt =====
-- What the wait of pkg/maintenance/postgresql.go says of the events that it reads.
use appcat.Common.{
  true, String, str_eq, eq_iff, List, [], ◌∷◌, Option, none, some, ◌≡◌, refl, sym, ◌∙◌, ◌↔◌, ◌⊎◌,
  inl, inr, Bool-cases,
}
use mathlib.Core.Bool.{true≢false}
use appcat.Common.Results.{Result, ok, err}
use appcat.Maintenance.Postgresql.{
  Error, not_found, timeout, watch_closed, watch_failed, watch_event, other, Condition, Event,
  modified, failure, unrelated, Stream, timed_out, closed, event, has_condition, is_finished,
  read_stream,
}

-- A condition of the list has the reason, with the status "True".
abbrev HasTrue : String → List Condition → Type 0
HasTrue reason [] = ⊥
HasTrue reason (c ∷ conditions) =
    ((c.reason ≡ reason) × (c.status ≡ "True")) ⊎ HasTrue reason conditions

-- An event says that the operation has completed.
abbrev IsCompletion : String → Event → Type 0
IsCompletion op (modified o (some conditions)) = (o ≡ op) × HasTrue "OperationCompleted" conditions
IsCompletion op (modified o none) = ⊥
IsCompletion op failure = ⊥
IsCompletion op unrelated = ⊥

-- The stream has such an event, and no error before it.
abbrev pub Completes : String → Stream → Type 0
Completes op timed_out = ⊥
Completes op closed = ⊥
Completes op (event x rest) = IsCompletion op x ⊎ ((x ≡ failure → ⊥) × Completes op rest)

-- The stream ends with the timer, without an error.
abbrev pub Expires : Stream → Type 0
Expires timed_out = Unit
Expires closed = ⊥
Expires (event x rest) = (x ≡ failure → ⊥) × Expires rest

-- The stream ends with the channel, or with an error event.
abbrev pub Breaks : Stream → Error → Type 0
Breaks timed_out e = ⊥
Breaks closed e = e ≡ watch_closed
Breaks (event x rest) e = ((x ≡ failure) × (e ≡ watch_event)) ⊎ Breaks rest e

has_condition_iff :
    (reason : String) (conditions : List Condition)
    → (has_condition reason conditions ≡ true) ↔ HasTrue reason conditions
unfolding has_condition
has_condition_iff reason [] = (λ h. cc, λ h. absurd h)
has_condition_iff reason (c ∷ conditions) =
    let (there, back) = has_condition_iff reason conditions in
    elim (Bool-cases (str_eq c.reason reason)) [
      | inl same ↦ elim (Bool-cases (str_eq c.status "True")) [
        | inl set ↦
            rw (same, set)
              (
                λ h. inl ((eq_iff c.reason reason).0 same, (eq_iff c.status "True").0 set),
                λ h. refl,
              )
        | inr unset ↦
            rw (same, unset)
              (
                λ h. inr (there h),
                λ h. elim h [
                  | inl (_, is) ↦ absurd (true≢false (sym ((eq_iff c.status "True").1 is) ∙ unset))
                  | inr later ↦ back later
                ],
              )
      ]
      | inr differs ↦ rw differs (
        λ h. inr (there h),
        λ h. elim h [
          | inl (is, _) ↦ absurd (true≢false (sym ((eq_iff c.reason reason).1 is) ∙ differs))
          | inr later ↦ back later
        ],
      )
    ]

is_finished_iff :
    (op o : String) (conditions : Option (List Condition))
    → (is_finished op o conditions ≡ true) ↔ IsCompletion op (modified o conditions)
unfolding is_finished
is_finished_iff op o none = (λ h. cc, λ h. absurd h)
is_finished_iff op o (some conditions) = elim (Bool-cases (str_eq o op)) [
  | inl same ↦ rw same (
    λ h. ((eq_iff o op).0 same, (has_condition_iff _ conditions).0 h),
    λ (_, h). (has_condition_iff _ conditions).1 h,
  )
  | inr differs ↦
      rw differs (λ h. cc, λ (same, _). absurd (true≢false (sym ((eq_iff o op).1 same) ∙ differs)))
]

-- What an answer of the wait says of the stream that it read.
abbrev pub Says : String → Stream → Result Error (Unit {0}) → Type 0
Says op s (ok a) = Completes op s
Says op s (err timeout) = Expires s × (Completes op s → ⊥)
Says op s (err e) = Breaks s e

-- An event that neither completes the operation nor is an error is passed over.
Says-skip :
    (op : String) (x : Event) (rest : Stream) (r : Result Error (Unit {0}))
    → (x ≡ failure → ⊥)
    → (IsCompletion op x → ⊥)
    → Says op rest r
    → Says op (event x rest) r
Says-skip op x rest (ok a) no_error no_end says = inr (no_error, says)
Says-skip op x rest (err timeout) no_error no_end (expires, never) =
    ((no_error, expires), λ h. elim h [ inl is ↦ no_end is | inr (_, later) ↦ never later ])
Says-skip op x rest (err not_found) no_error no_end says = inr says
Says-skip op x rest (err watch_closed) no_error no_end says = inr says
Says-skip op x rest (err watch_failed) no_error no_end says = inr says
Says-skip op x rest (err watch_event) no_error no_end says = inr says
Says-skip op x rest (err (other t)) no_error no_end says = inr says

pub read_stream-Says : (op : String) (s : Stream) → Says op s (read_stream op s)
unfolding read_stream
read_stream-Says op timed_out = (tt, λ h. h)
read_stream-Says op closed = refl
read_stream-Says op (event (modified o conditions) rest) =
    elim (Bool-cases (is_finished op o conditions)) [
      | inl over ↦ rw over (inl ((is_finished_iff op o conditions).0 over))
      | inr on ↦ rw on (
          Says-skip op (modified o conditions) rest (read_stream op rest) (λ h. cc)
            (λ h. true≢false (sym ((is_finished_iff op o conditions).1 h) ∙ on))
            (read_stream-Says op rest))
    ]
read_stream-Says op (event failure rest) = inl (refl, refl)
read_stream-Says op (event unrelated rest) =
    Says-skip op unrelated rest (read_stream op rest) (λ h. cc) (λ h. h) (read_stream-Says op rest)
