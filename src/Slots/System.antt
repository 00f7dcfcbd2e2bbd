-- ===== src/Slots/System.antt =====
-- The service as a whole: any number of clients, whose commands interleave in every way. The states of the data after
-- each command are listed. A client that sends its next command has run up to it: before each command
-- that it sent it found the state which the others had left, one of the list, and after the next one nothing has
-- happened yet. A run that is looked at up to a command is one all of whose later commands fail. That a client
-- finds the states of the list in their order is not asked, so that more is allowed than can happen.
use talki_llm_admission_sche.Base.{ℕ, String, ◌≡◌, sym, ◌⊎◌, inl, inr, List, [], ◌∷◌, All, Among}
use mathlib.Core.Path.{subst}
use talki_llm_admission_sche.Base.Int.{ℤ}
use talki_llm_admission_sche.Config.{AppConfig}
use talki_llm_admission_sche.Python.{IntParser}
use talki_llm_admission_sche.Redis.{Env, IsRedis, World, Keyspace}
use talki_llm_admission_sche.Admission.{Submission, admit}
use talki_llm_admission_sche.Api.Jobs.{cancel_job}
use talki_llm_admission_sche.Dispatcher.{Worker, run}
use talki_llm_admission_sche.Integrity.{check_all_models}
use talki_llm_admission_sche.LeaseWatcher.{scan_all_models}
use talki_llm_admission_sche.Slots.Bound.{InBound}
use talki_llm_admission_sche.Slots.Tasks.{run-InBound}
use talki_llm_admission_sche.Slots.Repair.{check_all_models-InBound}
use talki_llm_admission_sche.Slots.Reclaim.{scan_all_models-InBound}
use talki_llm_admission_sche.Slots.Requests.{cancel_job-InBound}
use talki_llm_admission_sche.Slots.Admissions.{admit-InBound}

-- A state of the past.
abbrev pub IsPast : List Keyspace → Keyspace → Type 0
IsPast past s = Among (λ t. t ≡ s) past

-- Before each command the others have left a state of the past, or nothing has happened.
abbrev pub Recalls : List Keyspace → Env → Type 0
Recalls past env =
    (k : ℕ)
    → ((s : Keyspace) → env.others k s ≡ s)
      ⊎ ((t : Keyspace) × IsPast past t × ((s : Keyspace) → env.others k s ≡ t))

-- What a command of a part of the service can leave, after the states of the past.
pub data Turn (config : AppConfig) (past : List Keyspace) : Keyspace → Type 0 where
  dispatches :
      (env : Env) (n rounds : ℕ) (wk : Worker) (w : World)
      → IsRedis env.srv
      → Recalls past env
      → IsPast past w.keys
      → Turn config past (run n rounds env wk w).1.keys
  submits :
      (env : Env) (r : Submission) (w : World)
      → IsRedis env.srv
      → Recalls past env
      → IsPast past w.keys
      → Turn config past (admit env config r w).1.keys
  cancels :
      (env : Env) (j : String) (w : World)
      → IsRedis env.srv
      → Recalls past env
      → IsPast past w.keys
      → Turn config past (cancel_job env j w).1.keys
  reclaims :
      (env : Env) (p : IntParser) (w : World)
      → IsRedis env.srv
      → Recalls past env
      → IsPast past w.keys
      → Turn config past (scan_all_models env p config w).1.keys
  checks :
      (env : Env) (w : World)
      → IsRedis env.srv
      → Recalls past env
      → IsPast past w.keys
      → Turn config past (check_all_models env config w).1.keys

-- The states from the first one on, the latest first.
pub data History (config : AppConfig) : List Keyspace → Type 0 where
  begins : (s : Keyspace) → History config (s ∷ [])
  goes_on :
      {past : List Keyspace} {t : Keyspace}
      → History config past
      → Turn config past t
      → History config (t ∷ past)

-- The state from which a history begins.
abbrev pub origin : Keyspace → List Keyspace → Keyspace
origin s [] = s
origin s (t ∷ past) = origin t past

module _ (config : AppConfig) (model : String) (c : ℤ) where
  past-InBound :
      (past : List Keyspace) (s : Keyspace)
      → IsPast past s
      → All (InBound model c) past
      → InBound model c s
  past-InBound [] s k h = elim k [ ]
  past-InBound (t ∷ past) s (inl e) h = subst (InBound model c) e h.0
  past-InBound (t ∷ past) s (inr k) h = past-InBound past s k h.1

  recalls-InBound :
      (past : List Keyspace) (env : Env)
      → Recalls past env
      → All (InBound model c) past
      → (k : ℕ) (s : Keyspace) → InBound model c s
      → InBound model c (env.others k s)
  recalls-InBound past env recalls h k s p = elim (recalls k) [
    | inl same ↦ subst (InBound model c) (sym (same s)) p
    | inr r ↦ subst (InBound model c) (sym (r.2 s)) (past-InBound past r.0 r.1 h)
  ]

  turn-InBound :
      (past : List Keyspace) (t : Keyspace)
      → Turn config past t
      → All (InBound model c) past
      → InBound model c t
  turn-InBound past t (dispatches env n rounds wk w redis recalls from) h =
      run-InBound model c n rounds env wk w redis (recalls-InBound past env recalls h)
        (past-InBound past w.keys from h)
  turn-InBound past t (submits env r w redis recalls from) h =
      admit-InBound model c env config r w redis (recalls-InBound past env recalls h)
        (past-InBound past w.keys from h)
  turn-InBound past t (cancels env j w redis recalls from) h =
      cancel_job-InBound model c env j w redis (recalls-InBound past env recalls h)
        (past-InBound past w.keys from h)
  turn-InBound past t (reclaims env p w redis recalls from) h =
      scan_all_models-InBound model c env p config w redis (recalls-InBound past env recalls h)
        (past-InBound past w.keys from h)
  turn-InBound past t (checks env w redis recalls from) h =
      check_all_models-InBound model c env config w redis (recalls-InBound past env recalls h)
        (past-InBound past w.keys from h)

  -- Whatever dispatchers, submissions, cancellations, lease watchers and integrity checks run, however
  -- their commands interleave and whatever commands fail, a model never has more slots in use than its capacity: it is
  -- so in every state of a history, if it is so in the first one and the server does as documented.
  pub history-InBound :
      (past : List Keyspace) (s : Keyspace)
      → History config (s ∷ past)
      → InBound model c (origin s past)
      → All (InBound model c) (s ∷ past)
  history-InBound [] s h first = (first, tt)
  history-InBound (t ∷ past) s (goes_on h turn) first =
      let before = history-InBound past t h first in (turn-InBound (t ∷ past) s turn before, before)
