-- ===== src/Orchestrator/Llm/Laws.antt =====
-- When the second model is asked.
use talki_llm_admission_sche.Base.{
  ℕ, ◌≤◌, leb, ◌≡◌, refl, ap, ◌↔◌, Bool, true, false, Option, none, some, [], ◌∷◌, arith,
}
use talki_llm_admission_sche.Orchestrator.Text.{Text}
use talki_llm_admission_sche.Orchestrator.Roles.{Role}
use talki_llm_admission_sche.Orchestrator.Llm.{
  LlmResult, Post, connect_error, read_timeout, http_error, answered, llm_error, Attempt, served,
  retryable, broken, read_answer, try_one, fall_back, after_primary, call, Calls,
}

-- The model is not there: there is no connection, or the status is that of an error of the server.
abbrev pub IsAbsent : Post → Type 0
IsAbsent (answered status body) = 500 ≤ status
IsAbsent connect_error = Unit
IsAbsent _ = ⊥

by_status :
    (body : Option LlmResult) (a b : Bool)
    → (elim a as (λ _. Attempt) [
      | true ↦ retryable
      | false ↦ elim b [ true ↦ broken llm_error | false ↦ read_answer body ]
    ]
        ≡ retryable)
      ↔ (a ≡ true)
by_status body true b = (λ h. refl, λ h. refl)
by_status body false true = (λ h. absurd (cc), λ h. absurd (cc))
by_status none false false = (λ h. absurd (cc), λ h. absurd (cc))
by_status (some r) false false = (λ h. absurd (cc), λ h. absurd (cc))

try_one_iff : (p : Post) → (try_one p ≡ retryable) ↔ IsAbsent p
unfolding try_one
try_one_iff connect_error = (λ h. tt, λ h. refl)
try_one_iff read_timeout = (λ h. absurd (cc), elim [ ])
try_one_iff http_error = (λ h. absurd (cc), elim [ ])
try_one_iff (answered status body) =
    let both = by_status body (leb 500 status) (leb 400 status) in
    (λ h. let e = both.0 h in ground (arith, e), λ h. both.1 (ground (arith, h)))

-- The second model is asked.
abbrev pub WasAsked : Text → ℕ → Calls → Type 0
WasAsked alias timeout ([], c) = ⊥
WasAsked alias timeout (a ∷ [], c) = ⊥
WasAsked alias timeout (a ∷ b ∷ l, c) = b ≡ (alias, timeout)

fall_back_iff :
    (role : Role) (second : Text → Post) (o : Option Text) (alias : Text)
    → WasAsked alias role.fallback_timeout_s (fall_back role second o) ↔ (o ≡ some alias)
fall_back_iff role second none alias = (elim [ ], λ h. absurd (cc))
fall_back_iff role second (some a) alias = (
  λ h. ap some (ap (λ p. p.0) h),
  λ h. let e : a ≡ alias = cc h in ap (λ t. (t, role.fallback_timeout_s)) e,
)

after_primary_iff :
    (role : Role) (second : Text → Post) (t : Attempt) (alias : Text)
    → WasAsked alias role.fallback_timeout_s (after_primary role second t)
      ↔ ((t ≡ retryable) × (role.fallback_alias ≡ some alias))
after_primary_iff role second (served r) alias = (elim [ ], λ h. absurd (cc (h.0)))
after_primary_iff role second (broken e) alias = (elim [ ], λ h. absurd (cc (h.0)))
after_primary_iff role second retryable alias =
    let both = fall_back_iff role second role.fallback_alias alias in
    (λ h. (refl, both.0 h), λ h. both.1 h.1)

-- A call asks a second model exactly if the role has one and the first is not there, by a connection
-- refused or a status from 500 on; never after a timeout or after another answer. It is asked with the
-- role's second timeout.
pub call_iff :
    (role : Role) (first second : Text → Post) (alias : Text)
    → WasAsked alias role.fallback_timeout_s (call role first second)
      ↔ (IsAbsent (first role.primary_alias) × (role.fallback_alias ≡ some alias))
unfolding call
call_iff role first second alias =
    let tried = try_one_iff (first role.primary_alias) in
    let both = after_primary_iff role second (try_one (first role.primary_alias)) alias in
    (λ h. let (a, b) = both.0 h in (tried.0 a, b), λ h. both.1 (tried.1 h.0, h.1))
