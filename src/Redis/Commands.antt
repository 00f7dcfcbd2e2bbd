-- ===== src/Redis/Commands.antt =====
-- The commands, and what a server that does as documented makes of them.
use talki_llm_admission_sche.Base.{
  ℕ, ◌≡◌, ◌||◌, Bool, true, false, Option, none, some, List, [], ◌∷◌, String, if◌then◌else◌, length,
}
use talki_llm_admission_sche.Base.Int.{ℤ, pos, negsuc, ◌+ℤ◌}
use talki_llm_admission_sche.Keys.{Key, update}
use talki_llm_admission_sche.Redis.Data.{Keyspace, member}
use talki_llm_admission_sche.Redis.Hash
use talki_llm_admission_sche.Redis.Hash.{Fields}
use talki_llm_admission_sche.Redis.Zset

pub data Command : Type 0 where
  -- GET of a number and of a text
  get_number get_text : Key → Command
  -- SET of a number; SETNX; SET with EX and NX; SETEX
  set_number setnx : Key → ℤ → Command
  set_text_nx : Key → String → ℕ → Command
  setex : Key → ℕ → String → Command
  incr decr exists ttl delete : Key → Command
  expire : Key → ℕ → Command
  hset : Key → Fields → Command
  hget : Key → String → Command
  hgetall : Key → Command
  zadd : Key → ℤ → String → Command
  zrem zrank zscore : Key → String → Command
  -- ZCARD; ZRANGE 0 0 WITHSCORES; BZPOPMIN, `none` at its timeout
  zcard zfirst bzpopmin : Key → Command
  zrangebyscore : Key → ℤ → ℤ → Command
  sadd : Key → String → Command
  scard : Key → Command
  publish : String → String → Command

-- The type of a command's answer.
abbrev pub Reply : Command → Type 0
Reply (get_number k) = Option ℤ
Reply (get_text k) = Option String
Reply (incr k) = ℤ
Reply (decr k) = ℤ
Reply (exists k) = Bool
Reply (ttl k) = ℤ
Reply (hget k f) = Option String
Reply (hgetall k) = Fields
Reply (zrem k m) = ℕ
Reply (zrank k m) = Option ℕ
Reply (zscore k m) = Option ℤ
Reply (zcard k) = ℕ
Reply (zfirst k) = Option (ℤ × String)
Reply (bzpopmin k) = Option (ℤ × String)
Reply (zrangebyscore k lo hi) = List String
Reply (scard k) = ℕ
Reply _ = Unit

abbrev pub get_or {ℓ} : {A : Type ℓ} → A → Option A → A
get_or d none = d
get_or d (some a) = a

abbrev pub is_some {ℓ} : {A : Type ℓ} → Option A → Bool
is_some none = false
is_some (some a) = true

abbrev pub nonempty {ℓ} : {A : Type ℓ} → List A → Bool
nonempty [] = false
nonempty (x ∷ l) = true

abbrev pub has_key : Key → Keyspace → Bool
has_key k s =
    is_some (s.counters k)
    || is_some (s.strings k)
    || nonempty (s.hashes k)
    || nonempty (s.zsets k)
    || nonempty (s.sets k)

-- INCRBY
abbrev bump : ℤ → Key → Keyspace → Keyspace
bump d k s = record s { counters = update s.counters k (some (get_or (pos 0) (s.counters k) +ℤ d)) }

abbrev seconds_left : Option ℕ → ℤ
seconds_left none = negsuc 0
seconds_left (some n) = pos n

-- The effect of each command on the data.
abbrev pub effect : Command → Keyspace → Keyspace
effect (set_number k n) s = record s {
  counters = update s.counters k (some n);
  expires = update s.expires k none;
}
effect (setnx k n) s =
    if is_some (s.counters k) then s else record s { counters = update s.counters k (some n) }
effect (set_text_nx k v ex) s =
    if is_some (s.strings k)
    then s
    else record s { strings = update s.strings k (some v); expires = update s.expires k (some ex) }
effect (setex k ex v) s = record s {
  strings = update s.strings k (some v);
  expires = update s.expires k (some ex);
}
effect (incr k) s = bump (pos 1) k s
effect (decr k) s = bump (negsuc 0) k s
effect (delete k) s = record s {
  counters = update s.counters k none;
  strings = update s.strings k none;
  hashes = update s.hashes k [];
  zsets = update s.zsets k [];
  sets = update s.sets k [];
  expires = update s.expires k none;
}
effect (expire k n) s =
    if has_key k s then record s { expires = update s.expires k (some n) } else s
effect (hset k fs) s = record s { hashes = update s.hashes k (Hash.put_all fs (s.hashes k)) }
effect (zadd k x m) s = record s { zsets = update s.zsets k (Zset.add x m (s.zsets k)) }
effect (zrem k m) s = record s { zsets = update s.zsets k (Zset.remove m (s.zsets k)) }
effect (bzpopmin k) s = record s { zsets = update s.zsets k (Zset.rest (s.zsets k)) }
effect (sadd k m) s = record s {
  sets = update s.sets k (if member m (s.sets k) then s.sets k else m ∷ s.sets k);
}
effect (publish channel text) s = record s { published = (channel, text) ∷ s.published }
effect _ s = s

-- The answer to each command, from the data before it.
abbrev pub answer : (c : Command) → Keyspace → Reply c
answer (get_number k) s = s.counters k
answer (get_text k) s = s.strings k
answer (incr k) s = get_or (pos 0) (s.counters k) +ℤ pos 1
answer (decr k) s = get_or (pos 0) (s.counters k) +ℤ negsuc 0
answer (exists k) s = has_key k s
answer (ttl k) s = if has_key k s then seconds_left (s.expires k) else negsuc 1
answer (hget k f) s = Hash.get f (s.hashes k)
answer (hgetall k) s = s.hashes k
answer (zrem k m) s = if Zset.has m (s.zsets k) then 1 else 0
answer (zrank k m) s = Zset.rank m (s.zsets k)
answer (zscore k m) s = Zset.score m (s.zsets k)
answer (zcard k) s = length (s.zsets k)
answer (zfirst k) s = Zset.first (s.zsets k)
answer (bzpopmin k) s = Zset.first (s.zsets k)
answer (zrangebyscore k lo hi) s = Zset.between lo hi (s.zsets k)
answer (scard k) s = length (s.sets k)
answer (set_number k n) s = tt
answer (setnx k n) s = tt
answer (set_text_nx k v ex) s = tt
answer (setex k ex v) s = tt
answer (delete k) s = tt
answer (expire k n) s = tt
answer (hset k fs) s = tt
answer (zadd k x m) s = tt
answer (sadd k m) s = tt
answer (publish channel text) s = tt

-- What answers commands: any function from the data and a command to an answer and new data.
abbrev pub Server : Type 0
Server = (c : Command) → Keyspace → Reply c × Keyspace

abbrev pub documented : Server
documented c s = (answer c s, effect c s)

-- The server does as the commands are documented.
abbrev pub IsRedis : Server → Type 0
IsRedis srv = (c : Command) (s : Keyspace) → srv c s ≡ documented c s

pub IsRedis-eq : {srv : Server} → IsRedis srv → srv ≡ documented
IsRedis-eq h = λ i c s. h c s i
