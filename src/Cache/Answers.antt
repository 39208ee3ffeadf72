-- ===== src/Cache/Answers.antt =====
-- The answers of `cached_json` of cache/helpers.py.
use mcp_server_for_sql_agent.Errors.{Result, ok, raised}
use mcp_server_for_sql_agent.Exec.{Exec}
use mcp_server_for_sql_agent.World.{World}
use mcp_server_for_sql_agent.Cache.{
  Cache, full_key, keep_loaded, hit_or_load, decoded, with_version, cached_json,
}
use mcp_server_for_sql_agent.Prelude.{some, none, Option, sym, refl, ◌≡◌, ℕ}
use mcp_server_for_sql_agent.Prelude.Strs.{Str}

module _ {T : Type 0} (cache : Cache) (decode : Str → Option T) (encode : T → Str) where
  -- The answer is what `load` gives, or what an entry under the family's version decodes to.
  pub data Answers (family key : Str) (load : Exec World T) : Result T → Type 0 where
    loaded : {r : Result T} (w : World) → (load w).0 ≡ r → Answers family key load r
    hit :
        {t : T} (v : ℕ) (text : Str) (w w' : World)
        → (cache.version family w).0 ≡ some v
        → (cache.get (full_key family v key) w').0 ≡ some text
        → decode text ≡ some t
        → Answers family key load (ok t)

  keep_loaded-answer :
      (k : Str) (ttl : ℕ) (p : Result T × World) → (keep_loaded cache decode encode k ttl p).0 ≡ p.0
  unfolding keep_loaded
  keep_loaded-answer k ttl (ok t, w) = refl
  keep_loaded-answer k ttl (raised e, w) = refl

  hit_or_load-Answers :
      (family key : Str) (ttl : ℕ) (load : Exec World T) (v : ℕ) (w w' w'' : World) (o : Option Str)
      → (cache.version family w).0 ≡ some v
      → (cache.get (full_key family v key) w').0 ≡ o
      → Answers family key load
          (hit_or_load cache decode encode
            (full_key family v key)
            ttl
            load
            (decoded cache decode encode o)
            w'').0
  unfolding hit_or_load
  hit_or_load-Answers family key ttl load v w w' w'' none e g =
      loaded w'' (sym (keep_loaded-answer _ ttl (load w'')))
  hit_or_load-Answers family key ttl load v w w' w'' (some text) e g = go (decode text) refl
    where
      go :
          (d : Option T)
          → decode text ≡ d
          → Answers family key load
              (hit_or_load cache decode encode (full_key family v key) ttl load d w'').0
      go none x = loaded w'' (sym (keep_loaded-answer _ ttl (load w'')))
      go (some t) x = hit v text w w' e g x

  -- Whatever the cache does, `cached_json` answers with what `load` gives, its exceptions included, or with what decodes from the text that the cache has under the key stamped with the family's current version; a failure of the cache is no exception.
  pub cached_json-Answers :
      (family key : Str) (ttl : ℕ) (load : Exec World T) (w : World)
      → Answers family key load (cached_json cache decode encode family key ttl load w).0
  unfolding cached_json with_version
  cached_json-Answers family key ttl load w = go (cache.version family w).0 refl
    where
      w₁ : World
      w₁ = (cache.version family w).1

      go :
          (v : Option ℕ)
          → (cache.version family w).0 ≡ v
          → Answers family key load (with_version cache decode encode family key ttl load v w₁).0
      go none e = loaded w₁ refl
      go (some v) e =
          hit_or_load-Answers family key ttl load v w w₁ (cache.get (full_key family v key) w₁).1
            (cache.get (full_key family v key) w₁).0 e refl
