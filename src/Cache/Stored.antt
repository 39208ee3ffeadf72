-- ===== src/Cache/Stored.antt =====
-- `CachedMetaStore` of cache/cached_meta_store.py and `CachedAdapter` of cache/cached_adapter.py.
use mcp_server_for_sql_agent.Exec.{Exec, pure, ◌>>=◌}
use mcp_server_for_sql_agent.Models.{
  Subject, SubjectType, user, role, ConnectionRecord, TableInfo, TableDescription,
}
use mcp_server_for_sql_agent.World.{World}
use mcp_server_for_sql_agent.Store.{MetaStore, DbAdapter, Described}
use mcp_server_for_sql_agent.Unicode.{Unicode, casefold}
use mcp_server_for_sql_agent.Cache.{Cache, cached_json}
use mcp_server_for_sql_agent.Prelude.{map, ◌++◌, ◌∷◌, [], List, Option, take, ℕ}
use mcp_server_for_sql_agent.Prelude.Strs.{codes, Str}
use mcp_server_for_sql_agent.Prelude.Sorting.{sorted_set, sorted}

-- What a pydantic `TypeAdapter` does.
pub record Codec (T : Type 0) : Type 0 where
  pub decode : Str → Option T
  pub encode : T → Str

abbrev pub meta_family : Str
meta_family = codes "meta"

abbrev pub schema_family : Str
schema_family = codes "schema"

-- `f"{kind}:{name}"`
unfoldable pub subject_text : Subject → Str
subject_text (user, name) = codes "user:" ++ name
subject_text (role, name) = codes "role:" ++ name

-- `"\n".join(...)`
unfoldable pub join_lines : List Str → Str
join_lines [] = []
join_lines (l ∷ []) = l
join_lines (l ∷ m ∷ ls) = l ++ (10 ∷ join_lines (m ∷ ls))

-- the names of the subjects of one type
unfoldable pub names_of : SubjectType → List Subject → List Str
names_of kind [] = []
names_of user ((user, n) ∷ ss) = n ∷ names_of user ss
names_of role ((role, n) ∷ ss) = n ∷ names_of role ss
names_of kind (s ∷ ss) = names_of kind ss

-- `sorted(subjects)` has the roles before the users, each by name.
unfoldable pub sorted_subjects : List Subject → List Subject
unfolding names_of
sorted_subjects ss =
    map (λ n. (role, n)) (sorted (names_of role ss))
    ++ map (λ n. (user, n)) (sorted (names_of user ss))

-- `digest` is `hashlib.sha256(...).hexdigest()`.
unfoldable pub subjects_fingerprint : (Str → Str) → List Subject → Str
unfolding sorted_subjects subject_text join_lines
subjects_fingerprint digest ss =
    take 32 (digest (join_lines (map subject_text (sorted_subjects ss))))

module _ (digest : Str → Str) (uuid : ℕ → Str) (cache : Cache)
    (records : Codec (List ConnectionRecord)) (names : Codec (List Str))
    (rows : Codec (List Described)) (permission_ttl description_ttl : ℕ) (inner : MetaStore) where
  -- `_sorted`: the loaded set as a sorted list
  abbrev pub load_sorted : Exec World (List Str) → Exec World (List Str)
  load_sorted load = do found ← load; pure (sorted_set found)

  unfoldable pub cached_list_connections : List Subject → Exec World (List ConnectionRecord)
  unfolding cached_json subjects_fingerprint
  cached_list_connections ss =
      cached_json cache records.decode records.encode meta_family
        (codes "connections:" ++ subjects_fingerprint digest ss) permission_ttl
        (inner.list_connections ss)

  unfoldable pub cached_allowed_tables : ℕ → List Subject → Exec World (List Str)
  unfolding cached_json subjects_fingerprint
  cached_allowed_tables id ss =
      cached_json cache names.decode names.encode meta_family
        (codes "tables:" ++ (uuid id ++ (b':' ∷ subjects_fingerprint digest ss))) permission_ttl
        (load_sorted (inner.allowed_tables id ss))

  unfoldable pub cached_allowed_tools : List Subject → Exec World (List Str)
  unfolding cached_json subjects_fingerprint
  cached_allowed_tools ss =
      cached_json cache names.decode names.encode meta_family
        (codes "tools:" ++ subjects_fingerprint digest ss) permission_ttl
        (load_sorted (inner.allowed_tools ss))

  unfoldable pub cached_descriptions : ℕ → Exec World (List Described)
  unfolding cached_json
  cached_descriptions id =
      cached_json cache rows.decode rows.encode meta_family (codes "descriptions:" ++ uuid id)
        description_ttl (inner.descriptions id)

  abbrev pub cached_meta_store : MetaStore
  cached_meta_store = record {
    list_connections = cached_list_connections;
    get_connection = inner.get_connection;
    allowed_tables = cached_allowed_tables;
    allowed_tools = cached_allowed_tools;
    descriptions = cached_descriptions;
    search_descriptions = inner.search_descriptions;
    write_audit = inner.write_audit;
  }

module _ (u : Unicode) (cache : Cache) (tables : Codec (List TableInfo))
    (description : Codec TableDescription) (namespace : Str) (ttl : ℕ) (inner : DbAdapter) where
  unfoldable pub cached_list_tables : Exec World (List TableInfo)
  unfolding cached_json
  cached_list_tables =
      cached_json cache tables.decode tables.encode schema_family (namespace ++ codes ":tables") ttl
        inner.list_tables

  unfoldable pub cached_describe_table : Str → Exec World TableDescription
  unfolding cached_json
  cached_describe_table table =
      cached_json cache description.decode description.encode schema_family
        (namespace ++ (codes ":table:" ++ casefold u table)) ttl (inner.describe_table table)

  abbrev pub cached_adapter : DbAdapter
  cached_adapter = record {
    dialect_name = inner.dialect_name;
    default_schema = inner.default_schema;
    list_tables = cached_list_tables;
    describe_table = cached_describe_table;
    execute = inner.execute;
    explain = inner.explain;
    sample_rows = inner.sample_rows;
  }
