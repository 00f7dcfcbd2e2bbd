-- ===== src/Scripts/Text.antt =====
-- The flat text of a job's fields: joined with NUL by the client, split and paired by the script.
use Prim.Native.Char.{code, nul}
use Prim.Native.String.{◌++◌}
use talki_llm_admission_sche.Base.{
  true, false, Option, none, some, List, [], ◌∷◌, String, str_eq, ◌==◌, if◌then◌else◌,
}
use talki_llm_admission_sche.Redis.{Fields}

-- "\0"
abbrev pub nul_text : String
nul_text = String.◌∷◌ nul String.[]

-- `"\0".join(field_values)`
unfoldable pub join_nul : List String → String
join_nul [] = String.[]
join_nul (x ∷ []) = x
join_nul (x ∷ y ∷ l) = x ++ (nul_text ++ join_nul (y ∷ l))

-- `string.gmatch(t, '([^%z]*)%z')`: each run of characters that a NUL ends.
unfoldable pub tokens_from : String → String → List String
tokens_from run String.[] = []
tokens_from run (String.◌∷◌ c t) = elim (code c == 0) [
  | true ↦ run ∷ tokens_from String.[] t
  | false ↦ tokens_from (run ++ String.◌∷◌ c String.[]) t
]

unfoldable pub tokens : String → List String
unfolding tokens_from
tokens t = tokens_from String.[] t

-- `for j = 1, #parts do if parts[j] ~= '' …`
unfoldable pub drop_empty : List String → List String
drop_empty [] = []
drop_empty (x ∷ l) = if str_eq x "" then drop_empty l else x ∷ drop_empty l

-- The arguments of HSET in pairs. A field with no value is an error, and so is no field at all.
abbrev pub some_cons : String × String → Option Fields → Option Fields
some_cons p none = none
some_cons p (some fs) = some (p ∷ fs)

unfoldable pub pairs : List String → Option Fields
pairs [] = none
pairs (f ∷ []) = none
pairs (f ∷ v ∷ []) = some ((f, v) ∷ [])
pairs (f ∷ v ∷ g ∷ l) = some_cons (f, v) (pairs (g ∷ l))

-- The flat list of a list of fields.
unfoldable pub flat : Fields → List String
flat [] = []
flat ((f, v) ∷ fs) = f ∷ v ∷ flat fs
