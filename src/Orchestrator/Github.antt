-- ===== src/Orchestrator/Github.antt =====
-- orchestrator/github_app.py: the token of the installation with its renewal, and the one request that all
-- methods make. The httpx client, the signing of the JWT, the clock and the reading of dates are arguments.
pub mod Methods
pub mod Rules
pub mod Fresh
pub mod Authorized
pub mod Statuses
use talki_llm_admission_sche.Base.{
  ℕ, zero, suc, ◌+◌, ◌-◌, ◌==◌, leb, Bool, true, false, ◌&&◌, ◌||◌, not, Option, none, some, List,
  [], ◌∷◌, ◌++◌, codes, String, length, if◌then◌else◌,
}
use talki_llm_admission_sche.Base.Int.{ℤ, pos, ◌-ℤ◌, ◌+ℤ◌, ltb_ℤ}
use talki_llm_admission_sche.Base.Decimal
use talki_llm_admission_sche.Orchestrator.Text.{Text, is_empty}
use talki_llm_admission_sche.Orchestrator.Json.{Json, null, str, obj, Fields, get}

pub data Method : Type 0 where
  get_method post put patch delete : Method

abbrev pub method_name : Method → Text
method_name get_method = codes "GET"
method_name post = codes "POST"
method_name put = codes "PUT"
method_name patch = codes "PATCH"
method_name delete = codes "DELETE"

-- A request on the repository: `json` is null where there is no body.
pub record Request : Type 0 where
  pub method : Method
  pub path : Text
  pub json : Json
  pub params : List (Text × Text)

-- What is sent: the request for a token, with the JWT, or a request on the repository, with the token.
pub data Sent : Type 0 where
  access_token : Text → Sent
  with_token : Text → Request → Sent

-- An answer with its status, its text, and the value that `r.json()` reads, if it is one.
pub record HttpAnswer : Type 0 where
  pub status : ℕ
  pub text : Text
  pub value : Option Json

-- The file of the private key is not there, cannot be read, or holds a text.
pub data KeyFile : Type 0 where
  missing unreadable : KeyFile
  pem : Text → KeyFile

-- Each argument that may change is given the number of the requests sent before: how a request ends, where
-- `none` is an exception of httpx, and the time in microseconds. `sign` has the issuer, `iat`, `exp` and the key;
-- `from_iso` is `datetime.fromisoformat`, in microseconds.
pub record Env : Type 0 where
  pub app_id : Text
  pub installation_id : Text
  pub repo : Text
  pub key : KeyFile
  pub now : ℕ → ℤ
  pub now_seconds : ℕ → ℤ
  pub sign : Text → ℤ → ℤ → Text → Option Text
  pub from_iso : Text → Option ℤ
  pub http : ℕ → Sent → Option HttpAnswer

-- The object, with all that it has sent, the latest first.
pub record Client : Type 0 where
  pub token : Option Text
  pub expires : Option ℤ
  pub sent : List Sent

-- GitHubAppError with its text, or another exception.
pub data Failure : Type 0 where
  github_error : Text → Failure
  other_error : Failure

pub data Outcome (A : Type 0) : Type 0 where
  ok : A → Outcome A
  failed : Failure → Outcome A

abbrev pub M : Type 0 → Type 0
M A = Client → Outcome A × Client

abbrev pub pure : {A : Type 0} → A → M A
pure a c = (ok a, c)

abbrev pub raise : {A : Type 0} → Failure → M A
raise e c = (failed e, c)

abbrev pub continue {ℓ} : {A : Type 0} {B : Type ℓ} → Outcome A → (A → B) → (Failure → B) → B
continue (ok a) f g = f a
continue (failed e) f g = g e

infixl 5 ◌>>=◌
abbrev pub ◌>>=◌ : {A B : Type 0} → M A → (A → M B) → M B
(m >>= f) c = let (r, d) = m c in continue r (λ a. f a d) (λ e. (failed e, d))

-- `try: m except …: h`
abbrev pub attempt : {A : Type 0} → M A → (Failure → M A) → M A
attempt m h c = let (r, d) = m c in continue r (λ a. (ok a, d)) (λ e. h e d)

-- A value that may be missing, which is then an exception other than GitHubAppError.
abbrev pub or_raise : {A : Type 0} → Option A → M A
or_raise none = raise other_error
or_raise (some a) = pure a

-- The object as it is made.
abbrev pub new_client : Client
new_client = record { token = none; expires = none; sent = [] }

abbrev pub log_sent : Sent → Client → Client
log_sent s c = record c { sent = s ∷ c.sent }

abbrev pub send : Env → Sent → M HttpAnswer
send env s c = or_raise (env.http (length c.sent) s) (log_sent s c)

abbrev pub set_token : Option Text → M (Unit {0})
set_token t c = (ok tt, record c { token = t })

abbrev pub set_expires : ℤ → M (Unit {0})
set_expires e c = (ok tt, record c { expires = some e })

abbrev pub first {ℓ} : {A : Type ℓ} → ℕ → List A → List A
first zero xs = []
first (suc n) [] = []
first (suc n) (x ∷ xs) = x ∷ first n xs

-- `d[k]`: anything but an object with the key is a KeyError or a TypeError.
abbrev pub item : String → Json → Option Json
item k (obj fs) = get k fs
item k v = none

-- A token that is null is None; GitHub sends a text.
abbrev pub token_value : Json → Option (Option Text)
token_value null = some none
token_value (str t) = some (some t)
token_value v = none

abbrev pub text_value : Json → Option Text
text_value (str t) = some t
text_value v = none

abbrev pub and_then : {A B : Type 0} → Option A → (A → Option B) → Option B
and_then none f = none
and_then (some a) f = f a

-- `s.replace("Z", "+00:00")`
unfoldable pub with_offset : Text → Text
with_offset [] = []
with_offset (c ∷ s) = if c == b'Z' then codes "+00:00" ++ with_offset s else c ∷ with_offset s

-- TOKEN_RENEW_MARGIN_S, in microseconds
abbrev pub renew_margin : ℤ
renew_margin = pos 600000000

-- `raise GitHubAppError` unless the App is configured
abbrev pub require_app : Env → M (Unit {0})
require_app env =
    if is_empty env.app_id || is_empty env.installation_id
    then raise (
        github_error (codes "KOLA_TEAM_APP_ID ou KOLA_TEAM_APP_INSTALLATION_ID manquant dans .env"))
    else pure tt

abbrev pub read_pem : KeyFile → M Text
read_pem missing = raise (github_error (codes "clé privée GitHub App introuvable"))
read_pem unreadable = raise other_error
read_pem (pem t) = pure t

-- The JWT is valid from a minute before now until nine minutes after.
abbrev pub app_jwt : Env → Text → M Text
app_jwt env t c =
    let now = env.now_seconds (length c.sent) in
    or_raise (env.sign env.app_id (now -ℤ pos 60) (now +ℤ pos 540) t) c

-- The token is set before the date is read.
abbrev pub store_token : Env → Json → M (Unit {0})
store_token env d = or_raise (and_then (item "token" d) token_value) >>= λ t. set_token t >>= λ _.
    or_raise (and_then (item "expires_at" d) text_value) >>= λ date.
    or_raise (env.from_iso (with_offset date)) >>= λ e. set_expires e

abbrev pub by_created : Env → HttpAnswer → M (Unit {0})
by_created env r =
    if r.status == 201
    then or_raise r.value >>= store_token env
    else raise (
        github_error (
          codes "echec génération installation token : "
          ++ codes (Decimal.str (pos r.status))
          ++ codes " "
          ++ first 300 r.text))

-- `_refresh`
unfoldable pub refresh : Env → M (Unit {0})
unfolding with_offset
refresh env = require_app env >>= λ _. read_pem env.key >>= λ t.
    app_jwt env t >>= λ jwt. send env (access_token jwt) >>= λ r. by_created env r

-- `self._token` and `self._expires`, if neither is false
abbrev pub cached : Option Text → Option ℤ → Option (Text × ℤ)
cached none e = none
cached (some t) none = none
cached (some t) (some e) = if is_empty t then none else some (t, e)

-- `assert self._token`
abbrev pub assert_token : Option Text → M Text
assert_token none = raise other_error
assert_token (some t) = if is_empty t then raise other_error else pure t

abbrev pub renewed : Env → M Text
renewed env = refresh env >>= λ _ c. assert_token c.token c

abbrev pub if_fresh : Env → Option (Text × ℤ) → M Text
if_fresh env none c = renewed env c
if_fresh env (some (t, e)) c =
    if ltb_ℤ renew_margin (e -ℤ env.now (length c.sent)) then (ok t, c) else renewed env c

-- `token`; its lock makes each call end before the next begins.
unfoldable pub token : Env → M Text
unfolding refresh
token env c = if_fresh env (cached c.token c.expires) c

abbrev pub status_text : Request → HttpAnswer → Text
status_text q r =
    method_name q.method
    ++ codes " "
    ++ q.path
    ++ codes " → "
    ++ codes (Decimal.str (pos r.status))
    ++ codes " : "
    ++ first 400 r.text

abbrev pub status_error : Request → HttpAnswer → Failure
status_error q r = github_error (status_text q r)

-- What is returned of an answer. An answer without content has no text.
abbrev pub by_status : Request → HttpAnswer → M Json
by_status q r = elim (leb 400 r.status) [
  | true ↦ raise (status_error q r)
  | false ↦ elim ((r.status == 204) || is_empty r.text) [
    | true ↦ pure null
    | false ↦ or_raise r.value
  ]
]

-- The token is taken and goes with the request.
unfoldable pub ask : Env → Request → M HttpAnswer
unfolding token
ask env q = token env >>= λ t. send env (with_token t q)

-- `_req`
unfoldable pub req : Env → Request → M Json
unfolding ask
req env q = ask env q >>= by_status q
