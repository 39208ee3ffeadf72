-- ===== src/Cache/Redis.antt =====
-- `RedisCache` of cache/redis_cache.py: Redis, behind a breaker that skips it for a while after a
-- failure. Redis itself is a service and a parameter.
use mcp_server_for_sql_agent.World.{World}
use mcp_server_for_sql_agent.Cache.{Cache}
use mcp_server_for_sql_agent.Prelude.{
  subst, ◌∙◌, ap, sym, suc, arith, ◌++◌, ◌∷◌, [], List, some, none, Option, false, true, Bool, ◌≡◌,
  ◌<◌, ◌+◌, length, leb, ℕ,
}
use mcp_server_for_sql_agent.Prelude.Strs.{codes, Str}

-- A command is answered, or fails with one of `_FAILURES`.
pub data Reply (A : Type 0) : Type 0 where
  answered : A → Reply A
  failed : Reply A

pub record Redis : Type 0 where
  pub get : Str → World → Reply (Option Str) × World
  pub set : Str → Str → ℕ → World → Reply (Unit {0}) × World
  pub get_number : Str → World → Reply (Option ℕ) × World
  pub incr : Str → World → Reply ℕ × World

abbrev pub cooldown : ℕ
cooldown = 10000

unfoldable pub entry_key : Str → Str
entry_key key = codes "mcpsql:" ++ key

unfoldable pub version_key : Str → Str
version_key family = codes "mcpsql:version:" ++ family

-- The operations that the breaker guards.
pub data Guarded : Type 0 where
  get : Str → Guarded
  set : Str → Str → ℕ → Guarded
  version : Str → Guarded

module _ (clock : ℕ → ℕ) (redis : Redis) where
  abbrev pub tick : World → World
  tick w = record w { readings = w.readings + 1 }

  -- `time.monotonic() >= self._down_until`
  unfoldable pub available : World → Bool × World
  available w = (leb w.cache_down_until (clock w.readings), tick w)

  -- `_failed` reads the clock for the log, and again for the end of the pause.
  unfoldable pub trip : World → World
  trip w = record (tick (tick w)) { cache_down_until = clock (w.readings + 1) + cooldown }

  abbrev pub on_get : Reply (Option Str) × World → Option Str × World
  on_get (answered v, w) = (v, w)
  on_get (failed, w) = (none, trip w)

  abbrev pub on_version : Reply (Option ℕ) × World → Option ℕ × World
  on_version (answered (some n), w) = (some n, w)
  on_version (answered none, w) = (some 0, w)
  on_version (failed, w) = (none, trip w)

  abbrev pub on_set : Reply (Unit {0}) × World → World
  on_set (answered done, w) = w
  on_set (failed, w) = trip w

  -- A failed bump reads the clock once, and is logged as an error.
  abbrev pub on_bump : Reply ℕ × World → World
  on_bump (answered n, w) = w
  on_bump (failed, w) = record (tick w) { cache_down_until = clock w.readings + cooldown }

  unfoldable pub redis_get : Str → World → Option Str × World
  unfolding available entry_key trip
  redis_get key w =
      let (up, w') = available w in
      elim up [ true ↦ on_get (redis.get (entry_key key) w') | false ↦ (none, w') ]

  unfoldable pub redis_set : Str → Str → ℕ → World → World
  unfolding available entry_key trip
  redis_set key value ttl w =
      let (up, w') = available w in
      elim up [ true ↦ on_set (redis.set (entry_key key) value ttl w') | false ↦ w' ]

  unfoldable pub redis_version : Str → World → Option ℕ × World
  unfolding available version_key trip
  redis_version family w =
      let (up, w') = available w in
      elim up [ true ↦ on_version (redis.get_number (version_key family) w') | false ↦ (none, w') ]

  -- Always attempted, even while the breaker is open.
  unfoldable pub redis_bump : Str → World → World
  unfolding version_key
  redis_bump family w = on_bump (redis.incr (version_key family) w)

  abbrev pub redis_cache : Cache
  redis_cache = record {
    get = redis_get;
    set = redis_set;
    version = redis_version;
    bump = redis_bump;
  }

  unfoldable pub perform : Guarded → World → World
  unfolding redis_get redis_set redis_version
  perform (Guarded.get k) w = (redis_get k w).1
  perform (Guarded.set k v t) w = redis_set k v t w
  perform (Guarded.version f) w = (redis_version f w).1

  unfoldable pub perform_all : List Guarded → World → World
  unfolding perform
  perform_all [] w = w
  perform_all (op ∷ ops) w = perform_all ops (perform op w)

  leb-false : (a b : ℕ) → b < a → leb a b ≡ false
  leb-false a b h = ground arith

  perform-open :
      (op : Guarded) (w : World) → clock w.readings < w.cache_down_until → perform op w ≡ tick w
  unfolding perform available
  perform-open (Guarded.get k) w h = rw (
    leb-false w.cache_down_until (clock w.readings) h,
    perform,
    redis_get,
    redis_set,
    redis_version,
  )
  perform-open (Guarded.set k v t) w h = rw (
    leb-false w.cache_down_until (clock w.readings) h,
    perform,
    redis_get,
    redis_set,
    redis_version,
  )
  perform-open (Guarded.version f) w h = rw (
    leb-false w.cache_down_until (clock w.readings) h,
    perform,
    redis_get,
    redis_set,
    redis_version,
  )

  shift : (a n : ℕ) → a + suc n ≡ a + 1 + n
  shift a n = omega arith

  suc-below : (n m : ℕ) → n < m → suc n < suc m
  suc-below n m h = omega arith

  -- While the breaker is open, that is as long as every reading of the clock is before the end of the pause, no sequence of lookups, stores and version checks touches Redis or moves the end of the pause: all that changes is that each reads the clock once.
  pub perform_all-open :
      (ops : List Guarded) (w : World)
      → ((n : ℕ) → n < length ops → clock (w.readings + n) < w.cache_down_until)
      → perform_all ops w ≡ record w { readings = w.readings + length ops }
  unfolding perform_all
  perform_all-open [] w h =
      let none_read : w.readings ≡ w.readings + 0 = omega arith in
      ap (λ n. record w { readings = n }) none_read
  perform_all-open (op ∷ ops) w h =
      let same : w.readings + 0 ≡ w.readings = omega arith in
      let first : clock w.readings < w.cache_down_until =
        subst (λ n. clock n < w.cache_down_until) same (h 0 (omega arith)) in
      let later : perform_all ops (tick w) ≡ record w { readings = w.readings + 1 + length ops } =
        perform_all-open ops (tick w) (λ n below.
          subst (λ k. clock k < w.cache_down_until) (shift w.readings n)
            (h (suc n) (suc-below n (length ops) below))) in
      ap (perform_all ops) (perform-open op w first)
      ∙ (later ∙ ap (λ n. record w { readings = n }) (sym (shift w.readings (length ops))))
