-- ===== src/Maintenance/Examples/Databases.antt =====
-- Runs of pkg/maintenance/postgresql.go: a cluster with version 15.1, whose state is what happened.
use appcat.Common.{
  ℕ, ltb, ◌/◌, false, String, str_eq, List, [], ◌∷◌, ◌++◌, Option, none, some, ◌≡◌, refl, sym, ap,
  subst, arith, ◌⊎◌, inl, inr, Bool-cases, if◌then◌else◌,
}
use appcat.Common.Results.{ok, err}
use appcat.Maintenance.Postgresql.{
  not_found, Cluster, DbOps, modified, closed, event, Stream, Outside, Library, PostgreSql,
  add_valid, valid_versions, get_latest_minor_version, do_maintenance,
}
use appcat.Maintenance.Postgresql.Runs.{Entry, made, watched, Journaled, Ran}
use appcat.Maintenance.Postgresql.Schedule.{Chosen, schedule, do_maintenance_refines}
use appcat.Maintenance.Postgresql.Versions.{In, IsSorting, IsLatest, get_latest_minor_version_lem}

-- A version is 1000 times its major version, plus the minor one.
abbrev parse_number : String → Option ℕ
parse_number s =
    if str_eq s "15.1"
    then some 15001
    else (if str_eq s "15.4" then some 15004 else (if str_eq s "16.2" then some 16002 else none))

abbrev print_number : ℕ → String
print_number n = if ltb n 15004 then "15.1" else (if ltb n 16000 then "15.4" else "16.2")

unfoldable insert : ℕ → List ℕ → List ℕ
insert x [] = x ∷ []
insert x (y ∷ ys) = let rest = insert x ys in if ltb x y then y ∷ rest else x ∷ (y ∷ ys)

unfoldable insertion_sort : List ℕ → List ℕ
insertion_sort [] = []
insertion_sort (x ∷ xs) = insert x (insertion_sort xs)

abbrev numbers : Library ℕ
numbers = record {
  new_version = parse_number;
  major = λ n. n / 1000;
  less_than = ltb;
  original = print_number;
  sort_reverse = insertion_sort;
}

insert-In : (x u : ℕ) (ys : List ℕ) → In u (insert x ys) → (x ≡ u) ⊎ In u ys
unfolding insert
insert-In x u [] h = h
insert-In x u (y ∷ ys) h = elim (Bool-cases (ltb x y)) [
  | inl less ↦ elim (rw less at h) [
    | inl first ↦ inr (inl first)
    | inr later ↦ elim (insert-In x u ys later) [ inl new ↦ inl new | inr old ↦ inr (inr old) ]
  ]
  | inr more ↦ rw more at h
]

In-insert : (x u : ℕ) (ys : List ℕ) → (x ≡ u) ⊎ In u ys → In u (insert x ys)
unfolding insert
In-insert x u [] h = h
In-insert x u (y ∷ ys) h = elim (Bool-cases (ltb x y)) [
  | inl less ↦ rw less (elim h [
    | inl new ↦ inr (In-insert x u ys (inl new))
    | inr (inl first) ↦ inl first
    | inr (inr later) ↦ inr (In-insert x u ys (inr later))
  ])
  | inr more ↦ rw more h
]

insertion_sort-kept : (xs : List ℕ) (u : ℕ) → In u (insertion_sort xs) → In u xs
unfolding insertion_sort
insertion_sort-kept [] u h = h
insertion_sort-kept (x ∷ xs) u h = elim (insert-In x u (insertion_sort xs) h) [
  | inl new ↦ inl new
  | inr old ↦ inr (insertion_sort-kept xs u old)
]

insertion_sort_all : (xs : List ℕ) (u : ℕ) → In u xs → In u (insertion_sort xs)
unfolding insertion_sort
insertion_sort_all [] u h = h
insertion_sort_all (x ∷ xs) u (inl first) = In-insert x u (insertion_sort xs) (inl first)
insertion_sort_all (x ∷ xs) u (inr later) =
    In-insert x u (insertion_sort xs) (inr (insertion_sort_all xs u later))

abbrev HasTop : List ℕ → Type 0
HasTop [] = Unit
HasTop (y ∷ ys) = (u : ℕ) → In u ys → ltb y u ≡ false

insert-HasTop : (x : ℕ) (ys : List ℕ) → HasTop ys → HasTop (insert x ys)
unfolding insert
insert-HasTop x [] h = λ u below. absurd below
insert-HasTop x (y ∷ ys) h = elim (Bool-cases (ltb x y)) [
  | inl less ↦ rw less (λ u below. elim (insert-In x u ys below) [
    | inl new ↦ subst (λ z. ltb y z ≡ false) new (ground arith)
    | inr old ↦ h u old
  ])
  | inr more ↦ rw more (λ u below. elim below [
    | inl first ↦ subst (λ z. ltb x z ≡ false) first more
    | inr later ↦ let top = h u later in ground arith
  ])
]

insertion_sort-HasTop : (xs : List ℕ) → HasTop (insertion_sort xs)
unfolding insertion_sort
insertion_sort-HasTop [] = tt
insertion_sort-HasTop (x ∷ xs) = insert-HasTop x (insertion_sort xs) (insertion_sort-HasTop xs)

numbers-IsSorting : IsSorting numbers
numbers-IsSorting = record {
  irreflexive = λ a. ground arith;
  at_least_trans = λ a b c h k. ground arith;
  kept = insertion_sort-kept;
  all_there = insertion_sort_all;
  descending = λ vs rest v e. subst HasTop e (insertion_sort-HasTop vs);
}

get_latest_minor_version_lem_example :
    (v : ℕ) × (get_latest_minor_version numbers "15.1" (some ("16.2" ∷ "15.4" ∷ []))
      ≡ some (print_number v))
    × IsLatest numbers 15001 ("16.2" ∷ "15.4" ∷ []) v
unfolding valid_versions add_valid
get_latest_minor_version_lem_example =
    get_latest_minor_version_lem numbers "15.1" 15001 ("16.2" ∷ "15.4" ∷ []) (15004 ∷ [])
      numbers-IsSorting refl refl

abbrev database : Cluster
database = record {
  name = "db";
  instances = 1;
  version = "15.1";
  conditions = some (record { reason = "ClusterRequiresUpgrade"; status = "True" } ∷ []);
}

-- Each watch sees the completion of both upgrades.
abbrev completes : Stream
completes =
    event
      (modified "securityUpgrade"
        (some (record { reason = "OperationCompleted"; status = "True" } ∷ [])))
      (event
        (modified "minorVersionUpgrade"
          (some (record { reason = "OperationCompleted"; status = "True" } ∷ [])))
        closed)

abbrev cluster : Outside (List Entry)
cluster = record {
  list_clusters = λ ns w. (ok (database ∷ []), w);
  get_available_versions = λ w. (ok ("16.2" ∷ "15.4" ∷ []), w);
  watch = λ ns w. (ok completes, w ++ (watched completes ∷ []));
  delete = λ obj w. (err not_found, w);
  create = λ obj w. (ok tt, w ++ (made obj ∷ []));
  get_claim = λ ns name w. (err not_found, w);
  update_claim = λ claim w. (ok tt, w);
}

abbrev whole_journal : List Entry → List Entry
whole_journal w = w

cluster-Journaled : Journaled cluster whole_journal
cluster-Journaled = record {
  list_clusters = λ ns w. refl;
  get_available_versions = λ w. refl;
  delete = λ obj w. refl;
  get_claim = λ ns name w. refl;
  update_claim = λ claim w. refl;
  create_ok = λ obj w w' e. sym (ap (λ z. z.1) e);
  create_err = λ obj e w w' h. cc;
  watch_ok = λ ns s w w' h. cc;
  watch_err = λ ns e w w' h. cc;
}

abbrev settings : PostgreSql
settings = record {
  instance_namespace = "vshn-postgresql-db";
  claim_namespace = "shop";
  claim_name = "db";
  repack = "true";
  vacuum = "";
}

do_maintenance_refines_example :
    (up : DbOps) × Chosen numbers settings database (ok ("16.2" ∷ "15.4" ∷ [])) up
    × (es : List Entry) × ((do_maintenance cluster numbers settings []).1 ≡ [] ++ es)
    × Ran (schedule settings database up) ((do_maintenance cluster numbers settings []).0) es
do_maintenance_refines_example =
    do_maintenance_refines cluster numbers settings whole_journal cluster-Journaled database [] []
      [] refl
