-- ===== src/Scripts/Lua.antt =====
-- The steps of a Lua script: `redis.call`, `return`, and an error that ends the script.
use talki_llm_admission_sche.Base.{none, some}
use talki_llm_admission_sche.Redis.{Server, Script, Command, Reply}

abbrev pub return : {A : Type 0} → A → Script A
return a s = (some a, s)

abbrev pub fail : {A : Type 0} → Script A
fail s = (none, s)

abbrev pub call : (srv : Server) (c : Command) → Script (Reply c)
call srv c s = let (r, s') = srv c s in (some r, s')

infixl 5 ◌>>=◌ ◌>>◌
abbrev pub ◌>>=◌ : {A B : Type 0} → Script A → (A → Script B) → Script B
◌>>=◌ m f s = let (r, s') = m s in elim r [ some a ↦ f a s' | none ↦ (none, s') ]

abbrev pub ◌>>◌ : {A B : Type 0} → Script A → Script B → Script B
m >> k = m >>= λ _. k
