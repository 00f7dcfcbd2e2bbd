-- ===== src/Orchestrator/Backend/Changes.antt =====
-- How the backend agent has the language model write a change, and a correction of one.
use talki_llm_admission_sche.Base.{
  ℕ, ◌&&◌, Bool, true, false, Option, none, some, List, [], ◌∷◌, String, if◌then◌else◌,
}
use talki_llm_admission_sche.Orchestrator.Text.{Text}
use talki_llm_admission_sche.Orchestrator.Actions.{
  M, pure, raise, perform, observe, other_error, ◌>>=◌, ◌>>◌, ask_llm, reserve_tokens,
  commit_tokens, log_event, make_parent, write_file,
}
use talki_llm_admission_sche.Orchestrator.Backend.{
  FileChange, GeneratedChanges, Proposal, Reply, replied, timed_out, llm_error, Reserved, granted,
  exceeded, unavailable, Env,
}
use talki_llm_admission_sche.Orchestrator.Backend.Paths.{joined, all_files}

abbrev pub is_nil {ℓ} : {A : Type ℓ} → List A → Bool
is_nil [] = true
is_nil (x ∷ l) = false

-- An event, after which the agent has no change.
abbrev pub give_up : Env → String → M (Option GeneratedChanges)
give_up env event = do perform env.failure (log_event event); pure none

-- `expected`
abbrev pub expected_tokens : ℕ
expected_tokens = 8000

-- `commit`, if there is a reservation.
abbrev pub settle : Env → Bool → ℕ → M (Unit {0})
settle env reserved tokens = elim reserved [
  | true ↦ perform env.failure (commit_tokens tokens)
  | false ↦ pure tt
]

abbrev pub by_reply :
    Env
    → Bool
    → (Option Proposal → M (Option GeneratedChanges))
    → Reply
    → M (Option GeneratedChanges)
by_reply env reserved finish (replied content tokens) = do
  settle env reserved tokens
  finish content
by_reply env reserved finish timed_out = do
  settle env reserved expected_tokens
  give_up env "llm-timeout"
by_reply env reserved finish llm_error = do
  settle env reserved expected_tokens
  give_up env "llm-error"

abbrev pub consult :
    Env → (Option Proposal → M (Option GeneratedChanges)) → Bool → M (Option GeneratedChanges)
consult env finish reserved = do
  perform env.failure ask_llm
  reply ← observe env.reply
  by_reply env reserved finish reply

abbrev pub by_reserved :
    Env → (Option Proposal → M (Option GeneratedChanges)) → Reserved → M (Option GeneratedChanges)
by_reserved env finish granted = consult env finish true
by_reserved env finish exceeded = give_up env "budget-exceeded"
by_reserved env finish unavailable = do
  perform env.failure (log_event "budget-unavailable")
  consult env finish false

-- What `_generate_changes` and `_generate_fix` share, up to the reading of the answer.
unfoldable pub ask :
    Env → (Option Proposal → M (Option GeneratedChanges)) → M (Option GeneratedChanges)
ask env finish = do
  perform env.failure (reserve_tokens expected_tokens)
  reserved ← observe env.reserved
  by_reserved env finish reserved

-- The end of `_generate_changes`.
abbrev pub finish_changes : Env → Option Proposal → M (Option GeneratedChanges)
finish_changes env none = give_up env "json-parse-fail"
finish_changes env (some p) = elim p.is_blocked [
  | true ↦ give_up env "llm-blocked"
  | false ↦ pure (if is_nil p.proposed.files then none else some p.proposed)
]

unfoldable pub generate_changes : Env → M (Option GeneratedChanges)
unfolding ask
generate_changes env = ask env (finish_changes env)

-- `new or old`
abbrev pub or_previous : List FileChange → List FileChange → List FileChange
or_previous [] old = old
or_previous (f ∷ files) old = f ∷ files

abbrev pub corrected : GeneratedChanges → GeneratedChanges → GeneratedChanges
corrected previous new = record {
  files = or_previous new.files previous.files;
  tests = or_previous new.tests previous.tests;
}

-- The end of `_generate_fix`.
abbrev pub finish_fix : Env → GeneratedChanges → Option Proposal → M (Option GeneratedChanges)
finish_fix env previous none = give_up env "json-parse-fail"
finish_fix env previous (some p) = pure (
    if is_nil p.proposed.files && is_nil p.proposed.tests
    then none
    else some (corrected previous p.proposed))

unfoldable pub generate_fix : Env → GeneratedChanges → M (Option GeneratedChanges)
unfolding ask
generate_fix env previous = ask env (finish_fix env previous)

-- A key that is missing, or a content that is no text, is an error.
abbrev pub write_content : Env → Text → Option Text → M (Unit {0})
write_content env target none = raise other_error
write_content env target (some content) = perform env.failure (write_file target)

abbrev pub write_one : Env → Text → Option Text → Option Text → M (Unit {0})
write_one env root none content = raise other_error
write_one env root (some path) content = do
  perform env.failure (make_parent (joined root path))
  write_content env (joined root path) content

unfoldable pub write_each : Env → Text → List FileChange → M (Unit {0})
write_each env root [] = pure tt
write_each env root (f ∷ files) = do write_one env root f.path f.content; write_each env root files

-- `_write_files`
unfoldable pub write_files : Env → Text → GeneratedChanges → M (Unit {0})
unfolding write_each
write_files env root changes = write_each env root (all_files changes)
