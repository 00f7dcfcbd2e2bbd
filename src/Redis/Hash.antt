-- ===== src/Redis/Hash.antt =====
-- Redis hashes: fields with their values. The key of an empty hash does not exist.
use talki_llm_admission_sche.Base.{Option, none, some, List, [], ◌∷◌, String, str_eq, if◌then◌else◌}

abbrev pub Fields : Type 0
Fields = List (String × String)

abbrev pub get : String → Fields → Option String
get f [] = none
get f ((g, v) ∷ h) = if str_eq g f then some v else get f h

abbrev pub put : String → String → Fields → Fields
put f v [] = (f, v) ∷ []
put f v ((g, w) ∷ h) = if str_eq g f then (f, v) ∷ h else (g, w) ∷ put f v h

abbrev pub put_all : Fields → Fields → Fields
put_all [] h = h
put_all ((f, v) ∷ fs) h = put_all fs (put f v h)
