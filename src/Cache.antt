-- ===== src/Cache.antt =====
-- The cache of mcp-server/mcp_sql_server/cache: the interface, the cache that does nothing, and
-- `cached_json` of cache/helpers.py.
pub mod Redis
pub mod Stored
pub mod Answers
pub mod Fingerprint
pub mod Laws
use mcp_server_for_sql_agent.Errors.{Result, ok, raised}
use mcp_server_for_sql_agent.Exec.{Exec}
use mcp_server_for_sql_agent.World.{World}
use mcp_server_for_sql_agent.Prelude.{◌++◌, ◌∷◌, some, none, Option, not, ℕ}
use mcp_server_for_sql_agent.Prelude.Strs.{Str}
use mcp_server_for_sql_agent.Prelude.Decimal.{decimal}

-- No operation raises: a failure is a miss, or a version that is not known.
pub record Cache : Type 0 where
  pub get : Str → World → Option Str × World
  pub set : Str → Str → ℕ → World → World
  pub version : Str → World → Option ℕ × World
  pub bump : Str → World → World

abbrev pub null_cache : Cache
null_cache = record {
  get = λ k w. (none, w);
  set = λ k v t w. w;
  version = λ f w. (none, w);
  bump = λ f w. w;
}

-- `f"{family}:{version}:{key}"`
unfoldable pub full_key : Str → ℕ → Str → Str
full_key family version key = family ++ (b':' ∷ (decimal version ++ (b':' ∷ key)))

-- `decode` and `encode` are those of the pydantic adapter; `none` stands for a `ValidationError`.
module _ {T : Type 0} (cache : Cache) (decode : Str → Option T) (encode : T → Str) where
  -- What is loaded is kept, and an exception is not.
  unfoldable pub keep_loaded : Str → ℕ → Result T × World → Result T × World
  keep_loaded key ttl (ok t, w) = (ok t, cache.set key (encode t) ttl w)
  keep_loaded key ttl (raised e, w) = (raised e, w)

  unfoldable pub hit_or_load : Str → ℕ → Exec World T → Option T → World → Result T × World
  unfolding keep_loaded
  hit_or_load key ttl load (some t) w = (ok t, w)
  hit_or_load key ttl load none w = keep_loaded key ttl (load w)

  abbrev pub decoded : Option Str → Option T
  decoded none = none
  decoded (some text) = decode text

  unfoldable pub with_version : Str → Str → ℕ → Exec World T → Option ℕ → Exec World T
  unfolding full_key hit_or_load
  with_version family key ttl load none w = load w
  with_version family key ttl load (some v) w =
      let (hit, w') = cache.get (full_key family v key) w in
      hit_or_load (full_key family v key) ttl load (decoded hit) w'

  unfoldable pub cached_json : Str → Str → ℕ → Exec World T → Exec World T
  unfolding with_version
  cached_json family key ttl load w =
      let (v, w') = cache.version family w in with_version family key ttl load v w'
