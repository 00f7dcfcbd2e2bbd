-- ===== src/Orchestrator/Backend/Paths/Laws.antt =====
-- What the check of the paths accepts, and where an accepted path may lead.
use mathlib.Core.Path.{subst}
use talki_llm_admission_sche.Base.{
  ◌≡◌, ◌≢◌, refl, sym, ◌∙◌, ◌↔◌, ◌&&◌, if◌then◌else◌, false, Option, none, some, List, [], ◌∷◌,
  ◌++◌, codes, All,
}
use talki_llm_admission_sche.Orchestrator.Text.{
  Text, starts_with, strip, lstrip_by, rstrip_by, is_space, is_empty,
}
use talki_llm_admission_sche.Orchestrator.Charter.{matches_forbidden, forbidden_patterns}
use talki_llm_admission_sche.Orchestrator.Charter.Laws.{IsFree, first_match_iff}
use talki_llm_admission_sche.Orchestrator.Charter.Reflect.{iff_trans}
use talki_llm_admission_sche.Orchestrator.Backend.{FileChange, GeneratedChanges}
use talki_llm_admission_sche.Orchestrator.Backend.Paths.{
  lstrip_slash, checked_path, hit_of, bad_path, bad_paths, all_files, validate_paths, joined,
}

-- The path that is checked is not empty and fits no pattern of the forbidden zones.
pub record IsAccepted (f : FileChange) : Type 0 where
  pub present : checked_path f ≢ []
  pub free : IsFree forbidden_patterns (checked_path f)

append_nil_iff {ℓ} : {A : Type ℓ} (l k : List A) → ((l ++ k) ≡ []) ↔ ((l ≡ []) × (k ≡ []))
append_nil_iff [] k = (λ h. (refl, h), λ h. h.1)
append_nil_iff (x ∷ l) k = (λ h. absurd (cc), λ h. absurd (cc))

hit_of_iff : (p : Text) (o : Option Text) → (hit_of p o ≡ []) ↔ (o ≡ none)
hit_of_iff p none = (λ h. refl, λ h. refl)
hit_of_iff p (some hit) = (λ h. absurd (cc), λ h. absurd (cc))

bad_path_iff : (p : Text) → (bad_path p ≡ []) ↔ ((p ≢ []) × IsFree forbidden_patterns p)
unfolding matches_forbidden
bad_path_iff [] = (λ h. absurd (cc), λ h. absurd (h.0 refl))
bad_path_iff (c ∷ p) =
    let rest =
      iff_trans (hit_of_iff (c ∷ p) (matches_forbidden (c ∷ p)))
        (first_match_iff forbidden_patterns (c ∷ p)) in
    (λ h. ((λ e. cc), rest.0 h), λ h. rest.1 h.1)

bad_paths_iff : (files : List FileChange) → (bad_paths files ≡ []) ↔ All IsAccepted files
unfolding bad_paths
bad_paths_iff [] = (λ h. tt, λ h. refl)
bad_paths_iff (f ∷ files) =
    let rest = bad_paths_iff files in
    let this = bad_path_iff (checked_path f) in
    let both = append_nil_iff (bad_path (checked_path f)) (bad_paths files) in
    (
      λ h.
          let (p, q) = this.0 (both.0 h).0 in
          (record { present = p; free = q }, rest.0 (both.0 h).1),
      λ h. both.1 (this.1 (h.0.present, h.0.free), rest.1 h.1),
    )

-- The backend agent accepts a change exactly if each path of its files and its tests, with the space
-- around it and the slashes before it taken off, is not empty and fits no pattern of the forbidden zones.
pub validate_paths_iff :
    (changes : GeneratedChanges)
    → (validate_paths changes ≡ []) ↔ All IsAccepted (all_files changes)
unfolding validate_paths
validate_paths_iff changes = bad_paths_iff (all_files changes)

at_equal : (pats : List Text) {p q : Text} → p ≡ q → IsFree pats q → IsFree pats p
at_equal pats e = subst (λ t. IsFree pats t) (sym e)

slash_kept :
    (r : Text) → lstrip_slash (if is_empty r && false then [] else b'/' ∷ r) ≡ lstrip_slash r
unfolding lstrip_by
slash_kept [] = refl
slash_kept (c ∷ r) = refl

slash_before :
    (p : Text)
    → lstrip_by is_space p ≡ p
    → lstrip_slash (strip (codes "/" ++ p)) ≡ lstrip_slash (strip p)
unfolding strip lstrip_by rstrip_by
slash_before p h = rw h (slash_kept (rstrip_by is_space p))

-- A path that the backend agent accepts, and that does not begin with a space, it accepts with a slash
-- before it too; but then the file is written under the root of the file system, outside the worktree.
pub absolute_path_accepted :
    (root p : Text) (content : Option Text)
    → lstrip_by is_space p ≡ p
    → IsAccepted (record { path = some p; content = content })
    → IsAccepted (record { path = some (codes "/" ++ p); content = content })
      × (joined root (codes "/" ++ p) ≡ codes "/" ++ p)
absolute_path_accepted root p content h accepted =
    let same = slash_before p h in
    (
      record {
        present = λ e. accepted.present (sym same ∙ e);
        free = at_equal forbidden_patterns same accepted.free;
      },
      unfold starts_with in refl,
    )
