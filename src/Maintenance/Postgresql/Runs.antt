-- ===== src/Maintenance/Postgresql/Runs.antt =====
-- Runs of a schedule of operations, and the calls of pkg/maintenance/postgresql.go that make up a run: to
-- have an operation made, and to wait for it.
use appcat.Common.{String, List, [], ◌∷◌, ◌++◌, ◌≡◌, refl, sym, subst, ap, ◌∙◌, ◌⊎◌, inl, inr}
use mathlib.Core.List.{append_assoc, append-nil}
use appcat.Common.Results.{Result, ok, err, Io, ◌>>◌, and_then}
use appcat.Maintenance.Postgresql.Streams.{Completes, Expires, Breaks, Says, read_stream-Says}
use appcat.Maintenance.Postgresql.{
  Error, not_found, timeout, watch_closed, watch_failed, watch_event, other, DbOps, Claim, Stream,
  Outside, Library, PostgreSql, after_delete, apply_db_ops, wait_for_upgrade, after_wait, wait_then,
}

-- What a maintenance is to do: to have an operation made, or to wait until one has completed.
pub data Step : Type 0 where
  make : DbOps → Step
  wait : String → Step

-- What happened: an operation was accepted, or a watch was read.
pub data Entry : Type 0 where
  made : DbOps → Entry
  watched : Stream → Entry

-- The runs of a schedule, with the answer and what happened. A wait that times out ends the run without
-- an error, and an error ends it as it is.
pub data Ran : List Step → Result Error (Unit {0}) → List Entry → Type 0 where
  finished : Ran [] (ok tt) []
  stopped : (e : Error) (steps : List Step) → Ran steps (err e) []
  accepted :
      (obj : DbOps) (steps : List Step) (r : Result Error (Unit {0})) (es : List Entry)
      → Ran steps r es
      → Ran (make obj ∷ steps) r (made obj ∷ es)
  completed :
      (op : String) (s : Stream) (steps : List Step) (r : Result Error (Unit {0})) (es : List Entry)
      → Completes op s
      → Ran steps r es
      → Ran (wait op ∷ steps) r (watched s ∷ es)
  ran_out :
      (op : String) (s : Stream) (steps : List Step)
      → Expires s
      → (Completes op s → ⊥)
      → Ran (wait op ∷ steps) (ok tt) (watched s ∷ [])
  broke :
      (op : String) (s : Stream) (steps : List Step) (e : Error)
      → Breaks s e
      → Ran (wait op ∷ steps) (err e) (watched s ∷ [])

-- A journal of the outside has what was accepted and read, and the other calls leave it alone.
pub record Journaled {W : Type 0} (o : Outside W) (journal : W → List Entry) : Type 0 where
  pub list_clusters : (ns : String) (w : W) → journal ((o.list_clusters ns w).1) ≡ journal w
  pub get_available_versions : (w : W) → journal ((o.get_available_versions w).1) ≡ journal w
  pub delete : (obj : DbOps) (w : W) → journal ((o.delete obj w).1) ≡ journal w
  pub get_claim : (ns name : String) (w : W) → journal ((o.get_claim ns name w).1) ≡ journal w
  pub update_claim : (claim : Claim) (w : W) → journal ((o.update_claim claim w).1) ≡ journal w
  pub create_ok :
      (obj : DbOps) (w w' : W)
      → o.create obj w ≡ (ok tt, w')
      → journal w' ≡ journal w ++ (made obj ∷ [])
  pub create_err :
      (obj : DbOps) (e : Error) (w w' : W) → o.create obj w ≡ (err e, w') → journal w' ≡ journal w
  pub watch_ok :
      (ns : String) (s : Stream) (w w' : W)
      → o.watch ns w ≡ (ok s, w')
      → journal w' ≡ journal w ++ (watched s ∷ [])
  pub watch_err :
      (ns : String) (e : Error) (w w' : W) → o.watch ns w ≡ (err e, w') → journal w' ≡ journal w

out-cases :
    {W A : Type 0} (out : Result Error A × W)
    → ((a : A) × (w' : W) × (out ≡ (ok a, w'))) ⊎ ((e : Error) × (w' : W) × (out ≡ (err e, w')))
out-cases (ok a, w') = inl (a, w', refl)
out-cases (err e, w') = inr (e, w', refl)

module _ {W : Type 0} (journal : W → List Entry) where
  -- A call that answers `a` gains entries, and one that fails gains none.
  abbrev pub Does : {A : Type 0} → A → List Entry → W → Result Error A × W → Type 0
  Does a gain w out =
      ((w' : W) × (out ≡ (ok a, w')) × (journal w' ≡ journal w ++ gain))
      ⊎ ((e : Error) × (w' : W) × (out ≡ (err e, w')) × (journal w' ≡ journal w))

  -- What a state has gained, with the answer.
  abbrev pub Runs : List Step → W → Result Error (Unit {0}) × W → Type 0
  Runs steps w out = (es : List Entry) × (journal (out.1) ≡ journal w ++ es) × Ran steps (out.0) es

  pub Runs-quiet :
      (steps : List Step) (w w₁ : W) (out : Result Error (Unit {0}) × W)
      → journal w₁ ≡ journal w
      → Runs steps w₁ out
      → Runs steps w out
  Runs-quiet steps w w₁ out same (es, gained, ran) = (es, gained ∙ ap (λ l. l ++ es) same, ran)

  Runs-stopped :
      (steps : List Step) (e : Error) (w w' : W) → journal w' ≡ journal w → Runs steps w (err e, w')
  Runs-stopped steps e w w' same = ([], same ∙ sym (append-nil (journal w)), stopped e steps)

  gained_more :
      (x : Entry) (es : List Entry) (w w₁ w' : W)
      → journal w₁ ≡ journal w ++ (x ∷ [])
      → journal w' ≡ journal w₁ ++ es
      → journal w' ≡ journal w ++ (x ∷ es)
  gained_more x es w w₁ w' first rest =
      rest ∙ ap (λ l. l ++ es) first ∙ append_assoc (journal w) (x ∷ []) es

  -- A call that is to make an operation, and then the rest.
  pub Runs-make :
      {A : Type 0} (a : A) (obj : DbOps) (steps : List Step) (w : W) (out : Result Error A × W)
      (next : A → Io W Error (Unit {0}))
      → Does a (made obj ∷ []) w out
      → Runs steps (out.1) (next a (out.1))
      → Runs (make obj ∷ steps) w (and_then out next)
  Runs-make a obj steps w out next (inl (w₁, answer, first)) rest =
      let (es, gained, ran) = subst (λ z. Runs steps z (next a z)) (ap (λ z. z.1) answer) rest in
      subst (λ z. Runs (make obj ∷ steps) w (and_then z next)) (sym answer)
        (made obj ∷ es, gained_more (made obj) es w w₁ _ first gained, accepted obj steps _ es ran)
  Runs-make a obj steps w out next (inr (e, w₁, answer, same)) rest =
      subst (λ z. Runs (make obj ∷ steps) w (and_then z next)) (sym answer)
        (Runs-stopped (make obj ∷ steps) e w w₁ same)

module _ {W V : Type 0} (o : Outside W) (lib : Library V) (p : PostgreSql)
    (journal : W → List Entry) (j : Journaled o journal) where
  create-Does : (obj : DbOps) (w : W) → Does journal tt (made obj ∷ []) w (o.create obj w)
  create-Does obj w = elim (out-cases (o.create obj w)) [
    | inl (a, w', answer) ↦ inl (w', answer, j.create_ok obj w w' answer)
    | inr (e, w', answer) ↦ inr (e, w', answer, j.create_err obj e w w' answer)
  ]

  pub Does-quiet :
      {A : Type 0} (a : A) (gain : List Entry) (w w₁ : W) (out : Result Error A × W)
      → journal w₁ ≡ journal w
      → Does journal a gain w₁ out
      → Does journal a gain w out
  Does-quiet a gain w w₁ out same (inl (w', answer, gained)) =
      inl (w', answer, gained ∙ ap (λ l. l ++ gain) same)
  Does-quiet a gain w w₁ out same (inr (e, w', answer, kept)) = inr (e, w', answer, kept ∙ same)

  after_delete-Does :
      (obj : DbOps) (w : W) (out : Result Error (Unit {0}) × W)
      → journal (out.1) ≡ journal w
      → Does journal tt (made obj ∷ []) w (after_delete o lib p obj out)
  unfolding after_delete
  after_delete-Does obj w (ok a, w₁) same = Does-quiet tt _ w w₁ _ same (create-Does obj w₁)
  after_delete-Does obj w (err not_found, w₁) same =
      Does-quiet tt _ w w₁ _ same (create-Does obj w₁)
  after_delete-Does obj w (err timeout, w₁) same = inr (timeout, w₁, refl, same)
  after_delete-Does obj w (err watch_closed, w₁) same = inr (watch_closed, w₁, refl, same)
  after_delete-Does obj w (err watch_failed, w₁) same = inr (watch_failed, w₁, refl, same)
  after_delete-Does obj w (err watch_event, w₁) same = inr (watch_event, w₁, refl, same)
  after_delete-Does obj w (err (other s), w₁) same = inr (other s, w₁, refl, same)

  pub apply_db_ops-Does :
      (obj : DbOps) (w : W) → Does journal tt (made obj ∷ []) w (apply_db_ops o lib p obj w)
  unfolding apply_db_ops
  apply_db_ops-Does obj w = after_delete-Does obj w (o.delete obj w) (j.delete obj w)

  pub Runs-apply :
      (obj : DbOps) (steps : List Step) (next : Io W Error (Unit {0})) (w : W)
      → Runs journal steps ((apply_db_ops o lib p obj w).1) (next ((apply_db_ops o lib p obj w).1))
      → Runs journal (make obj ∷ steps) w ((apply_db_ops o lib p obj >> next) w)
  Runs-apply obj steps next w rest =
      Runs-make journal tt obj steps w (apply_db_ops o lib p obj w) (λ _. next)
        (apply_db_ops-Does obj w) rest

  read_stream-Runs :
      (op : String) (s : Stream) (steps : List Step) (next : Io W Error (Unit {0})) (w w₁ : W)
      (r : Result Error (Unit {0}))
      → Runs journal steps w₁ (next w₁)
      → journal w₁ ≡ journal w ++ (watched s ∷ [])
      → Says op s r
      → Runs journal (wait op ∷ steps) w (after_wait o lib p next (r, w₁))
  unfolding after_wait
  read_stream-Runs op s steps next w w₁ (ok a) rest first answer =
      let (es, gained, ran) = rest in
      (
        watched s ∷ es,
        gained_more journal (watched s) es w w₁ _ first gained,
        completed op s steps _ es answer ran,
      )
  read_stream-Runs op s steps next w w₁ (err timeout) rest first answer =
      (watched s ∷ [], first, ran_out op s steps answer.0 answer.1)
  read_stream-Runs op s steps next w w₁ (err not_found) rest first answer =
      (watched s ∷ [], first, broke op s steps _ answer)
  read_stream-Runs op s steps next w w₁ (err watch_closed) rest first answer =
      (watched s ∷ [], first, broke op s steps _ answer)
  read_stream-Runs op s steps next w w₁ (err watch_failed) rest first answer =
      (watched s ∷ [], first, broke op s steps _ answer)
  read_stream-Runs op s steps next w w₁ (err watch_event) rest first answer =
      (watched s ∷ [], first, broke op s steps _ answer)
  read_stream-Runs op s steps next w w₁ (err (other t)) rest first answer =
      (watched s ∷ [], first, broke op s steps _ answer)

  pub Runs-wait :
      (op : String) (steps : List Step) (next : Io W Error (Unit {0})) (w : W)
      → Runs journal steps
          ((o.watch p.instance_namespace w).1)
          (next ((o.watch p.instance_namespace w).1))
      → Runs journal (wait op ∷ steps) w (wait_then o lib p op next w)
  unfolding wait_then wait_for_upgrade after_wait
  Runs-wait op steps next w rest = elim (out-cases (o.watch p.instance_namespace w)) [
    | inl (s, w₁, answer) ↦
        subst
          (λ z.
            Runs journal (wait op ∷ steps) w
              (after_wait o lib p next (wait_for_upgrade o lib p op z)))
          (sym answer)
          (read_stream-Runs op s steps next w w₁ _
            (subst (λ z. Runs journal steps z (next z)) (ap (λ z. z.1) answer) rest)
            (j.watch_ok _ s w w₁ answer) (read_stream-Says op s))
    | inr (e, w₁, answer) ↦
        subst
          (λ z.
            Runs journal (wait op ∷ steps) w
              (after_wait o lib p next (wait_for_upgrade o lib p op z)))
          (sym answer)
          (Runs-stopped journal (wait op ∷ steps) watch_failed w w₁ (j.watch_err _ e w w₁ answer))
  ]
