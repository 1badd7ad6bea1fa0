-- ===== src/Webhooks/Disk/Growth.antt =====
-- What an answer of ValidateDiskDownsizing in pkg/controller/webhooks/default_handler.go says of the
-- two sizes.
use appcat.Common.{
  true, false, String, str_eq, eq_iff, Option, none, some, ◌≡◌, refl, sym, ap, ◌∙◌, subst, ◌↔◌, ◌⊎◌,
  inl, inr, Bool-cases, Option-cases,
}
use appcat.Common.Results.{Result, ok, err}
use appcat.Webhooks.Disk.{
  Error, Composite, Outside, invalid_format, downsized, get_effective_disk_size, compare_parsed,
  compare_sizes, with_new_size, with_old_size, validate_disk_downsizing,
}
use appcat.Webhooks.Disk.Size.{SizeIs, size_there, size_back}

module _ {Q W : Type 0} (o : Outside Q W) where
  abbrev parse : String → Option Q
  parse = o.quantities.parse_quantity

  -- Two sizes that are set and are quantities, the new one smaller than the old one.
  pub record Shrinks (old_size new_size : String) : Type 0 where
    pub old : Q
    pub new : Q
    pub old_set : str_eq old_size "" ≡ false
    pub new_set : str_eq new_size "" ≡ false
    pub old_parsed : o.quantities.parse_quantity old_size ≡ some old
    pub new_parsed : o.quantities.parse_quantity new_size ≡ some new
    pub smaller : o.quantities.less new old ≡ true

  -- A new size that is not set, or is a quantity that is not smaller.
  abbrev pub Holds : Q → String → Type 0
  Holds old new_size =
      (new_size ≡ "")
      ⊎ ((new : Q) × (o.quantities.parse_quantity new_size ≡ some new)
          × (o.quantities.less new old ≡ false))

  compare_parsed_lem :
      (old_size new_size a b : String) (x y : Option Q)
      → compare_parsed o old_size new_size x y ≡ some (downsized a b)
      → (a ≡ old_size)
        × (b ≡ new_size)
        × ((old : Q) × (new : Q) × (x ≡ some old)
            × (y ≡ some new)
            × (o.quantities.less new old ≡ true))
  unfolding compare_parsed
  compare_parsed_lem old_size new_size a b none y found = cc
  compare_parsed_lem old_size new_size a b (some old) none found = cc
  compare_parsed_lem old_size new_size a b (some old) (some new) found =
      elim (Bool-cases (o.quantities.less new old)) [
        | inl less ↦
            let same : some (downsized old_size new_size) ≡ some (downsized a b) =
              rw less at found in
            (cc, cc, (old, new, refl, refl, less))
        | inr more ↦ let clash : none ≡ some (downsized a b) = rw more at found in cc
      ]

  compare_sizes_lem :
      (old_size new_size a b : String)
      → str_eq old_size "" ≡ false
      → (compare_sizes o old_size new_size ≡ some (downsized a b))
        ↔ (a ≡ old_size) × (b ≡ new_size) × Shrinks old_size new_size
  unfolding compare_sizes compare_parsed
  compare_sizes_lem old_size new_size a b set = elim (Bool-cases (str_eq new_size "")) [
    | inl unset ↦
        rw unset
          (λ found. cc, λ (same, same', s). let clash : true ≡ false = sym unset ∙ s.new_set in cc)
    | inr new_set ↦ rw new_set (
      λ found.
          let (same, same', (old, new, old_parsed, new_parsed, smaller)) =
            compare_parsed_lem old_size new_size a b (parse old_size) (parse new_size) found in
          (
            same,
            same',
            record {
              old = old;
              new = new;
              old_set = set;
              new_set = new_set;
              old_parsed = old_parsed;
              new_parsed = new_parsed;
              smaller = smaller;
            },
          ),
      λ (same, same', s). rw (s.old_parsed, s.new_parsed) (rw s.smaller (rw (same, same') refl)),
    )
  ]

  compare_sizes-passes :
      (old_size new_size : String) (old : Q)
      → parse old_size ≡ some old
      → compare_sizes o old_size new_size ≡ none
      → Holds old new_size
  unfolding compare_sizes compare_parsed
  compare_sizes-passes old_size new_size old parsed passed =
      elim (Bool-cases (str_eq new_size "")) [
        | inl unset ↦ inl ((eq_iff new_size "").0 unset)
        | inr set ↦
            let compared : compare_parsed o old_size new_size (some old) (parse new_size) ≡ none =
              rw (set, parsed) at passed in
            elim (Option-cases (parse new_size)) [
              | inl bad ↦
                  let clash : some (invalid_format new_size) ≡ none = rw bad at compared in cc
              | inr (new, good) ↦ elim (Bool-cases (o.quantities.less new old)) [
                | inr more ↦ inr (new, good, more)
                | inl less ↦
                    let clash : some (downsized old_size new_size) ≡ none =
                      rw (good, less) at compared in
                    cc
              ]
            ]
      ]

  -- The sizes of the two composites, which are looked up one after the other.
  abbrev pub SizesAre : Composite → Composite → String → W → String → String → Type 0
  SizesAre old_comp new_comp service w old_size new_size =
      (between : W) × (after : W) × SizeIs o old_comp service w old_size between
      × SizeIs o new_comp service between new_size after

  abbrev LookedUp : Composite → Composite → String → W → String → String → Type 0
  LookedUp old_comp new_comp service w old_size new_size =
      ((get_effective_disk_size o old_comp service w).0 ≡ ok old_size)
      × ((get_effective_disk_size o new_comp service
            (get_effective_disk_size o old_comp service w).1).0
          ≡ ok new_size)

  sizes_iff :
      (old_comp new_comp : Composite) (service : String) (w : W) (a b : String)
      → LookedUp old_comp new_comp service w a b ↔ SizesAre old_comp new_comp service w a b
  sizes_iff old_comp new_comp service w a b =
      let old = get_effective_disk_size o old_comp service w in
      let new = get_effective_disk_size o new_comp service old.1 in
      (
        λ (known, known'). (
          old.1,
          new.1,
          size_there o old_comp service w old.1 a (ap (λ r. (r, old.1)) known),
          size_there o new_comp service old.1 new.1 b (ap (λ r. (r, new.1)) known'),
        ),
        λ (between, after, sized, sized').
            let known = size_back o old_comp service w between a sized in
            let known' = size_back o new_comp service between after b sized' in
            (
              ap (λ r. r.0) known,
              ap (λ v. (get_effective_disk_size o new_comp service v).0) (ap (λ r. r.1) known)
                  ∙ ap (λ r. r.0) known',
            ),
      )

  with_new_size_lem :
      (old_size a b : String) (r : Result Error String × W)
      → str_eq old_size "" ≡ false
      → ((with_new_size o old_size r).0 ≡ some (downsized a b))
        ↔ (a ≡ old_size) × (r.0 ≡ ok b) × Shrinks old_size b
  unfolding with_new_size
  with_new_size_lem old_size a b (err e, w) set = (λ found. cc, λ (same, clash, s). cc)
  with_new_size_lem old_size a b (ok new_size, w) set =
      let (there, back) = compare_sizes_lem old_size new_size a b set in
      (
        λ found.
            let (same, same', s) = there found in
            (same, ap ok (sym same'), subst (Shrinks old_size) (sym same') s),
        λ (same, known, s).
            let here : new_size ≡ b = cc in
            back (same, sym here, subst (Shrinks old_size) (sym here) s),
      )

  with_new_size-passes :
      (old_size : String) (old : Q) (r : Result Error String × W)
      → parse old_size ≡ some old
      → (with_new_size o old_size r).0 ≡ none
      → (new_size : String) × (r.0 ≡ ok new_size) × Holds old new_size
  unfolding with_new_size
  with_new_size-passes old_size old (err e, w) parsed passed = cc
  with_new_size-passes old_size old (ok new_size, w) parsed passed =
      (new_size, refl, compare_sizes-passes old_size new_size old parsed passed)

  with_old_size_lem :
      (new_comp : Composite) (service a b : String) (r : Result Error String × W)
      → ((with_old_size o new_comp service r).0 ≡ some (downsized a b))
        ↔ ((r.0 ≡ ok a) × ((get_effective_disk_size o new_comp service r.1).0 ≡ ok b)) × Shrinks a b
  unfolding with_old_size
  with_old_size_lem new_comp service a b (err e, w) = (λ found. cc, λ ((clash, _), s). cc)
  with_old_size_lem new_comp service a b (ok old_size, w) = elim (Bool-cases (str_eq old_size "")) [
    | inl unset ↦ rw unset (
      λ found. cc,
      λ ((known, _), s).
          let here : old_size ≡ a = cc in
          let clash : true ≡ false = sym unset ∙ ap (λ x. str_eq x "") here ∙ s.old_set in cc,
    )
    | inr set ↦
        let (there, back) =
          with_new_size_lem old_size a b (get_effective_disk_size o new_comp service w) set in
        rw set (
          λ found.
              let (same, known, s) = there found in
              ((ap ok (sym same), known), subst (λ x. Shrinks x b) (sym same) s),
          λ ((known, known'), s).
              let here : a ≡ old_size = cc in back (here, known', subst (λ x. Shrinks x b) here s),
        )
  ]

  with_old_size-passes :
      (new_comp : Composite) (service old_size : String) (old : Q) (r : Result Error String × W)
      → r.0 ≡ ok old_size
      → str_eq old_size "" ≡ false
      → parse old_size ≡ some old
      → (with_old_size o new_comp service r).0 ≡ none
      → (new_size : String) × ((get_effective_disk_size o new_comp service r.1).0 ≡ ok new_size)
        × Holds old new_size
  unfolding with_old_size
  with_old_size-passes new_comp service old_size old (err e, w) known set parsed passed = cc
  with_old_size-passes new_comp service old_size old (ok s, w) known set parsed passed =
      let here : s ≡ old_size = cc in
      let unset : str_eq s "" ≡ false = ap (λ x. str_eq x "") here ∙ set in
      with_new_size-passes s old (get_effective_disk_size o new_comp service w)
        (ap parse here ∙ parsed) (rw unset at passed)

  -- An update is refused as a downsizing exactly if the disks of the old and the new composite, their
  -- own or those of their plans, are set and are quantities and the new one is smaller. If the old
  -- disk is set and is a quantity, an update that passes has a new disk that is not set or not
  -- smaller. The other refusals, for a new plan that cannot be read or a new size that is no quantity,
  -- are not part of this.
  pub validate_disk_downsizing_lem :
      (old_comp new_comp : Composite) (service : String) (w : W)
      → ((a b : String)
          → ((validate_disk_downsizing o old_comp new_comp service w).0 ≡ some (downsized a b))
            ↔ SizesAre old_comp new_comp service w a b × Shrinks a b)
        × ((old_size : String) (old : Q) (between : W)
            → SizeIs o old_comp service w old_size between
            → str_eq old_size "" ≡ false
            → o.quantities.parse_quantity old_size ≡ some old
            → (validate_disk_downsizing o old_comp new_comp service w).0 ≡ none
            → (new_size : String) × SizesAre old_comp new_comp service w old_size new_size
              × Holds old new_size)
  unfolding validate_disk_downsizing
  validate_disk_downsizing_lem old_comp new_comp service w =
      let r = get_effective_disk_size o old_comp service w in
      (
        λ a b.
            let (there, back) = with_old_size_lem new_comp service a b r in
            let (sizes, looked_up) = sizes_iff old_comp new_comp service w a b in
            (
              λ found. let (known, s) = there found in (sizes known, s),
              λ (known, s). back (looked_up known, s),
            ),
        λ old_size old between sized set parsed passed.
            let known = ap (λ r. r.0) (size_back o old_comp service w between old_size sized) in
            let (new_size, known', holds) =
              with_old_size-passes new_comp service old_size old r known set parsed passed in
            (
              new_size,
              (sizes_iff old_comp new_comp service w old_size new_size).0 (known, known'),
              holds,
            ),
      )
