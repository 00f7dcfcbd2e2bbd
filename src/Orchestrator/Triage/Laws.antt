-- ===== src/Orchestrator/Triage/Laws.antt =====
-- Which labels the triage agent sets.
pub mod Safety
use talki_llm_admission_sche.Base.{
  ◌≡◌, refl, ◌⊎◌, inl, inr, ◌&&◌, ◌||◌, Bool, true, false, not, Bool-cases, Option, none, some,
  List, [], ◌∷◌, ◌++◌, All, arith, if◌then◌else◌,
}
use talki_llm_admission_sche.Orchestrator.Text.{Text, is_empty, same_text, strip}
use talki_llm_admission_sche.Orchestrator.Labels.{has_label}
use talki_llm_admission_sche.Orchestrator.Budget.Refinement.{same_text_refl}
use talki_llm_admission_sche.Orchestrator.Roles.Laws.{same_text_sound}
use talki_llm_admission_sche.Orchestrator.Triage.{
  Verdict, valid_areas, valid_kinds, ready_label, info_label, commented_label, with_label,
  with_valid, with_area_and_kind, by_missing, by_ready, new_labels, all_in,
}

-- Where a label comes from: it was there; or it is the area or the kind of the verdict, and one of those
-- allowed; or the issue is ready, by a verdict that says so; or information is missing.
pub data IsGrounded (v : Verdict) (labels : List Text) : Text → Type 0 where
  old : (l : Text) → has_label l labels ≡ true → IsGrounded v labels l
  area : has_label v.area valid_areas ≡ true → IsGrounded v labels v.area
  kind : has_label v.kind valid_kinds ≡ true → IsGrounded v labels v.kind
  ready : v.ready ≡ true → has_label info_label labels ≡ false → IsGrounded v labels ready_label
  info : is_empty (strip v.missing_info) ≡ false → IsGrounded v labels info_label
  asked : has_label commented_label labels ≡ false → IsGrounded v labels commented_label

-- No label is lost, and each has its ground.
pub record IsSound (v : Verdict) (labels new : List Text) : Type 0 where
  pub kept : all_in labels new ≡ true
  pub grounded : All (IsGrounded v labels) new

has_label-append :
    (l : Text) (labels k : List Text) → has_label l labels ≡ true → has_label l (labels ++ k) ≡ true
unfolding has_label
has_label-append l [] k h = absurd (cc)
has_label-append l (m ∷ labels) k h = ground (arith, h, has_label-append l labels k)

all_in-append : (ls labels k : List Text) → all_in ls labels ≡ true → all_in ls (labels ++ k) ≡ true
unfolding all_in
all_in-append [] labels k h = refl
all_in-append (l ∷ ls) labels k h =
    ground (arith, h, has_label-append l labels k, all_in-append ls labels k)

all_in_more :
    (ls labels : List Text) (m : Text) → all_in ls labels ≡ true → all_in ls (m ∷ labels) ≡ true
unfolding all_in has_label
all_in_more [] labels m h = refl
all_in_more (l ∷ ls) labels m h = ground (arith, h, all_in_more ls labels m)

all_in_refl : (labels : List Text) → all_in labels labels ≡ true
unfolding all_in has_label
all_in_refl [] = refl
all_in_refl (l ∷ labels) =
    ground (arith, same_text_refl l, all_in_more labels labels l (all_in_refl labels))

and_parts : (a b : Bool) → (a && b) ≡ true → (a ≡ true) × (b ≡ true)
and_parts true true h = (refl, refl)
and_parts true false h = absurd (cc)
and_parts false b h = absurd (cc)

All_of_in :
    (v : Verdict) (ls labels : List Text) → all_in ls labels ≡ true → All (IsGrounded v labels) ls
unfolding all_in
All_of_in v [] labels h = tt
All_of_in v (l ∷ ls) labels h =
    let (p, q) = and_parts (has_label l labels) (all_in ls labels) h in
    (old l p, All_of_in v ls labels q)

All-append : (P : Text → Type 0) (l : List Text) (m : Text) → All P l → P m → All P (l ++ (m ∷ []))
All-append P [] m h p = (p, tt)
All-append P (x ∷ l) m h p = (h.0, All-append P l m h.1 p)

missing_label :
    (ls labels : List Text) (name : Text)
    → all_in ls labels ≡ true
    → has_label name labels ≡ false
    → has_label name ls ≡ false
unfolding all_in has_label
missing_label [] labels name h e = refl
missing_label (l ∷ ls) labels name h e =
    let (p, q) = and_parts (has_label l labels) (all_in ls labels) h in
    elim (Bool-cases (same_text l name)) [
      | inl t ↦ let same = same_text_sound l name t in absurd (cc (p, e, same))
      | inr t ↦ let rest = missing_label ls labels name q e in rw (t, has_label) rest
    ]

module _ (v : Verdict) (labels : List Text) where
  unchanged-IsSound : IsSound v labels labels
  unchanged-IsSound = record {
    kept = all_in_refl labels;
    grounded = All_of_in v labels labels (all_in_refl labels);
  }

  append-IsSound :
      (new : List Text) (name : Text)
      → IsGrounded v labels name
      → IsSound v labels new
      → IsSound v labels (new ++ (name ∷ []))
  append-IsSound new name g s = record {
    kept = all_in-append labels new (name ∷ []) s.kept;
    grounded = All-append (IsGrounded v labels) new name s.grounded g;
  }

  with_label-IsSound :
      (new : List Text) (name : Text)
      → IsGrounded v labels name
      → IsSound v labels new
      → IsSound v labels (with_label name new)
  with_label-IsSound new name g s = elim (Bool-cases (has_label name new)) [
    | inl e ↦ rw (e, with_label) s
    | inr e ↦ rw (e, with_label) (append-IsSound new name g s)
  ]

  with_valid-IsSound :
      (allowed new : List Text) (name : Text)
      → (has_label name allowed ≡ true → IsGrounded v labels name)
      → IsSound v labels new
      → IsSound v labels (with_valid allowed name new)
  with_valid-IsSound allowed new name g s = elim (Bool-cases (has_label name allowed)) [
    | inl e ↦ rw (e, with_valid) (with_label-IsSound new name (g e) s)
    | inr e ↦ rw (e, with_valid) s
  ]

  by_missing-IsSound :
      (new : List Text) → IsSound v labels new → IsSound v labels (by_missing v labels new).0
  by_missing-IsSound new s = elim (Bool-cases (is_empty (strip v.missing_info))) [
    | inl e ↦ rw (e, by_missing) s
    | inr e ↦ elim (Bool-cases (has_label commented_label labels)) [
      | inl c ↦ rw (e, c, by_missing) (with_label-IsSound new info_label (info e) s)
      | inr c ↦
          rw (e, c, by_missing)
            (append-IsSound (with_label info_label new) commented_label (asked c)
              (with_label-IsSound new info_label (info e) s))
    ]
  ]

  by_ready-IsSound :
      (new : List Text) → IsSound v labels new → IsSound v labels (by_ready v labels new).0
  by_ready-IsSound new s = elim (Bool-cases (v.ready && not (has_label info_label new))) [
    | inl e ↦
        let (p, q) = and_parts v.ready (not (has_label info_label new)) e in
        rw (e, by_ready)
          (with_label-IsSound new ready_label
            (ready p
              (missing_label labels new info_label s.kept (not_true (has_label info_label new) q)))
            s)
    | inr e ↦ rw (e, by_ready) (by_missing-IsSound new s)
  ]
    where
      not_true : (b : Bool) → not b ≡ true → b ≡ false
      not_true true h = absurd (cc)
      not_true false h = refl

  -- Whatever the verdict is, the new labels have all of the issue's, and each of the others has its
  -- ground: `ready-for-dev` only by a verdict that says so, and only where there is no `needs-info`.
  pub new_labels-IsSound : IsSound v labels (new_labels v labels).0
  unfolding new_labels
  new_labels-IsSound = by_ready-IsSound (with_area_and_kind v labels) (
      with_valid-IsSound valid_kinds (with_valid valid_areas v.area labels) v.kind kind
        (with_valid-IsSound valid_areas labels v.area area unchanged-IsSound))

  -- What is asked of the author, if anything is, is what the verdict says to be missing, and the author was not
  -- asked before.
  abbrev pub IsAsked : Option Text → Type 0
  IsAsked none = Unit
  IsAsked (some t) =
      (is_empty (strip v.missing_info) ≡ false)
      × (has_label commented_label labels ≡ false)
      × (t ≡ strip v.missing_info)

  by_missing-IsAsked : (new : List Text) → IsAsked (by_missing v labels new).1
  by_missing-IsAsked new = elim (Bool-cases (is_empty (strip v.missing_info))) [
    | inl e ↦ rw (e, by_missing) tt
    | inr e ↦ elim (Bool-cases (has_label commented_label labels)) [
      | inl c ↦ rw (e, c, by_missing) tt
      | inr c ↦ rw (e, c, by_missing) (e, c, refl)
    ]
  ]

  pub new_labels-IsAsked : IsAsked (new_labels v labels).1
  unfolding new_labels
  new_labels-IsAsked =
      let new = with_area_and_kind v labels in
      elim (Bool-cases (v.ready && not (has_label info_label new))) [
        | inl e ↦ rw (e, by_ready) tt
        | inr e ↦ rw (e, by_ready) (by_missing-IsAsked new)
      ]
