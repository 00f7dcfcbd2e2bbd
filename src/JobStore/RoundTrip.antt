-- ===== src/JobStore/RoundTrip.antt =====
-- Storing and loading of responses (app/storage/job_store.py).
use talki_llm_admission_sche.Base.{
  ℕ, ◌≡◌, refl, Option, some, [], ◌∷◌, String, str_eq, Bool-cases, inl, inr, eq_refl,
}
use talki_llm_admission_sche.Keys.{job}
use talki_llm_admission_sche.Redis.{
  Server, IsRedis, IsRedis-eq, World, ok, documented, calm, Fields,
}
use talki_llm_admission_sche.Redis.Hash
use talki_llm_admission_sche.JobStore.{store_response_blob, load_stored_blob}

get-put : (f v : String) (fields : Fields) → Hash.get f (Hash.put f v fields) ≡ some v
get-put f v [] = rw (eq_refl f) refl
get-put f v ((g, x) ∷ fields) = elim (Bool-cases (str_eq g f)) [
  | inl e ↦ rw e (rw (eq_refl f) refl)
  | inr e ↦ rw e (rw e (get-put f v fields))
]

module _ (srv : Server) (iso : ℕ → String) (ns : ℕ → ℕ) (sha : String → String) where
  stored_here :
      (zip : String → String) (unzip : String → Option String) (j response : String) (w : World)
      → unzip (zip response) ≡ some response
      → let (o, w') = store_response_blob (calm documented iso ns sha) zip j response w in
        (load_stored_blob (calm documented iso ns sha) unzip j w').0 ≡ ok (some response)
  unfolding store_response_blob load_stored_blob
  stored_here zip unzip j response w back =
      rw (eq_refl j)
        (rw (get-put "response_blob" (zip response) (w.keys.hashes (job j))) (rw back refl))

  -- A response that is stored for a job, whatever the job's hash held, is what is loaded for it
  -- next. Decompressing and parsing undo compressing and printing the response, the server does as
  -- documented, every command succeeds and no other client is at work.
  pub load_stored_blob-store_response_blob :
      (zip : String → String) (unzip : String → Option String) (j response : String) (w : World)
      → IsRedis srv
      → unzip (zip response) ≡ some response
      → let (o, w') = store_response_blob (calm srv iso ns sha) zip j response w in
        (load_stored_blob (calm srv iso ns sha) unzip j w').0 ≡ ok (some response)
  load_stored_blob-store_response_blob zip unzip j response w redis back =
      rw (IsRedis-eq redis) (stored_here zip unzip j response w back)
