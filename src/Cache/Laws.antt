-- ===== src/Cache/Laws.antt =====
-- The laws of the store's interface and `CachedMetaStore` of cache/cached_meta_store.py.
use mcp_server_for_sql_agent.Errors.{Result, ok, raised}
use mcp_server_for_sql_agent.Exec.{Exec}
use mcp_server_for_sql_agent.Models.{ConnectionRecord}
use mcp_server_for_sql_agent.World.{World}
use mcp_server_for_sql_agent.Store.{MetaStore, Described, IsQuiet, StoreLaws}
use mcp_server_for_sql_agent.Permissions.Opens.{IsQuiet-bind, IsQuiet-pure}
use mcp_server_for_sql_agent.Cache.{
  Cache, cached_json, with_version, hit_or_load, keep_loaded, full_key,
}
use mcp_server_for_sql_agent.Cache.Stored.{
  Codec, cached_list_connections, cached_allowed_tables, cached_allowed_tools, cached_meta_store,
}
use mcp_server_for_sql_agent.Prelude.{List, some, none, Option, ◌∙◌, refl, ◌≡◌, ℕ}
use mcp_server_for_sql_agent.Prelude.Strs.{Str}

-- A change of the world that asks no target database and leaves app_meta alone.
pub record IsAside (w w' : World) : Type 0 where
  pub calls : w'.db_calls ≡ w.db_calls
  pub meta : w'.app_meta ≡ w.app_meta

-- The operations of a cache change nothing else.
pub record CacheLaws (cache : Cache) : Type 0 where
  pub get : (k : Str) (w : World) → IsAside w (cache.get k w).1
  pub set : (k v : Str) (t : ℕ) (w : World) → IsAside w (cache.set k v t w)
  pub version : (f : Str) (w : World) → IsAside w (cache.version f w).1
  pub bump : (f : Str) (w : World) → IsAside w (cache.bump f w)

pub IsAside-trans : {a b c : World} → IsAside a b → IsAside b c → IsAside a c
IsAside-trans x y = record { calls = y.calls ∙ x.calls; meta = y.meta ∙ x.meta }

module _ (cache : Cache) (laws : CacheLaws cache) {T : Type 0} (decode : Str → Option T)
    (encode : T → Str) where
  keep_loaded-IsAside :
      (k : Str) (ttl : ℕ) (w : World) (p : Result T × World)
      → IsAside w p.1
      → IsAside w (keep_loaded cache decode encode k ttl p).1
  unfolding keep_loaded
  keep_loaded-IsAside k ttl w (ok t, w') x = IsAside-trans x (laws.set k (encode t) ttl w')
  keep_loaded-IsAside k ttl w (raised e, w') x = x

  hit_or_load-IsAside :
      (k : Str) (ttl : ℕ) (load : Exec World T) (o : Option T) (w : World)
      → IsQuiet load
      → IsAside w (hit_or_load cache decode encode k ttl load o w).1
  unfolding hit_or_load
  hit_or_load-IsAside k ttl load (some t) w q = record { calls = refl; meta = refl }
  hit_or_load-IsAside k ttl load none w q =
      keep_loaded-IsAside k ttl w (load w) (record { calls = q.calls w; meta = q.meta w })

  with_version-IsAside :
      (family key : Str) (ttl : ℕ) (load : Exec World T) (v : Option ℕ) (w : World)
      → IsQuiet load
      → IsAside w (with_version cache decode encode family key ttl load v w).1
  unfolding with_version
  with_version-IsAside family key ttl load none w q = record { calls = q.calls w; meta = q.meta w }
  with_version-IsAside family key ttl load (some v) w q =
      IsAside-trans (laws.get (full_key family v key) w)
        (hit_or_load-IsAside (full_key family v key) ttl load _ _ q)

  cached_json-quiet :
      (family key : Str) (ttl : ℕ) (load : Exec World T)
      → IsQuiet load
      → IsQuiet (cached_json cache decode encode family key ttl load)
  unfolding cached_json
  cached_json-quiet family key ttl load q = record {
    calls = λ w. (aside w).calls;
    meta = λ w. (aside w).meta;
  }
    where
      aside : (w : World) → IsAside w (cached_json cache decode encode family key ttl load w).1
      aside w = IsAside-trans (laws.version family w) (
          with_version-IsAside family key ttl load (cache.version family w).0
            (cache.version family w).1 q)

-- The store behind the cache keeps the laws of the interface.
pub cached_meta_store-StoreLaws :
    (digest : Str → Str) (uuid : ℕ → Str) (cache : Cache) (records : Codec (List ConnectionRecord))
    (names : Codec (List Str)) (rows : Codec (List Described)) (permission_ttl description_ttl : ℕ)
    (inner : MetaStore)
    → CacheLaws cache
    → StoreLaws inner
    → StoreLaws (
        cached_meta_store digest uuid cache records names rows permission_ttl description_ttl inner)
unfolding cached_list_connections cached_allowed_tables cached_allowed_tools
cached_meta_store-StoreLaws digest uuid cache records names rows pt dt inner laws store = record {
  list_connections = λ s.
      cached_json-quiet cache laws records.decode records.encode _ _ pt _
        (store.list_connections s);
  get_connection = store.get_connection;
  allowed_tables = λ id s.
      cached_json-quiet cache laws names.decode names.encode _ _ pt _
        (IsQuiet-bind _ _ (store.allowed_tables id s) (λ found. IsQuiet-pure _));
  allowed_tools = λ s.
      cached_json-quiet cache laws names.decode names.encode _ _ pt _
        (IsQuiet-bind _ _ (store.allowed_tools s) (λ found. IsQuiet-pure _));
  write_audit = store.write_audit;
}
