-- ===== src/Backend/Details.antt =====
-- The settings of a target database: `validate_details` of routers/connections.py, and the check for
-- secrets of connection_check.py.
pub mod Safe
pub mod Validated
use mcp_server_for_sql_agent.Exec.{Exec, pure, ◌>>◌}
use mcp_server_for_sql_agent.Prelude.{
  map, ◌++◌, ◌∷◌, [], List, some, none, Option, ◌||◌, ◌&&◌, not, false, true, Bool, ℕ, keep_if,
  if◌then◌else◌, ◌==◌, ltb,
}
use mcp_server_for_sql_agent.Prelude.Strs.{is_some_item, join, str_in, str_eq, codes, Str}
use mcp_server_for_sql_agent.Prelude.Ints.{pos}
use mcp_server_for_sql_agent.Prelude.Sorting.{sorted_set}
use mcp_server_for_sql_agent.Introspection.{text_or_empty, is_present, truthy_claim}
use mcp_server_for_sql_agent.Values.{Members, Jsons, Json}
use mcp_server_for_sql_agent.Unicode.{is_word_char, Unicode}
use mcp_server_for_sql_agent.Regex.{text_of, search, any_pattern, one, Pattern}
use mcp_server_for_sql_agent.Registry.{member_of}
use mcp_server_for_sql_agent.Backend.{refuse_if, refuse}
use mcp_server_for_sql_agent.Errors.{http, raised, ok}
use mcp_server_for_sql_agent.Validator.Patterns.{same_letter}

abbrev pub secret_words : List Str
secret_words =
    codes "pass"
    ∷ codes "secret"
    ∷ codes "token"
    ∷ codes "pwd"
    ∷ codes "credential"
    ∷ codes "apikey"
    ∷ codes "api_key"
    ∷ []

-- `SECRET_LOOKING`, which ignores case.
unfoldable pub secret_looking_re : Pattern
secret_looking_re = any_pattern (map (text_of same_letter) secret_words)

-- `[\s/@]`
abbrev pub not_in_host_re : (ℕ → Bool) → Pattern
not_in_host_re is_space = one (λ c. is_space c || (c == b'/' || c == b'@'))

-- `ENGINE_FIELDS` of an engine.
pub record EngineInfo : Type 0 where
  pub engine : Str
  pub label : Str
  pub default_port : Option ℕ
  pub required : List Str

abbrev server_settings : List Str
server_settings = codes "host" ∷ codes "database" ∷ codes "username" ∷ []

unfoldable pub engine_fields : List EngineInfo
engine_fields =
    record {
      engine = codes "postgresql";
      label = codes "PostgreSQL";
      default_port = some 5432;
      required = server_settings;
    }
    ∷ record {
      engine = codes "mysql";
      label = codes "MySQL / MariaDB";
      default_port = some 3306;
      required = server_settings;
    }
    ∷ record {
      engine = codes "mssql";
      label = codes "SQL Server";
      default_port = some 1433;
      required = server_settings;
    }
    ∷ record {
      engine = codes "sqlite";
      label = codes "SQLite (file)";
      default_port = none;
      required = codes "path" ∷ [];
    }
    ∷ []

-- `ALLOWED_DETAIL_KEYS`
unfoldable pub allowed_detail_keys : List Str
allowed_detail_keys =
    codes "host"
    ∷ codes "port"
    ∷ codes "database"
    ∷ codes "username"
    ∷ codes "path"
    ∷ codes "options"
    ∷ codes "schemas"
    ∷ []

-- `ENGINE_FIELDS[engine]["required"]`; the request's type admits no other engine.
unfoldable pub required_of : Str → List EngineInfo → List Str
required_of engine [] = []
required_of engine (i ∷ is) =
    let later = required_of engine is in if str_eq i.engine engine then i.required else later

unfoldable pub member_keys : Members → List Str
member_keys Members.end = []
member_keys (Members.member k v ms) = k ∷ member_keys ms

-- `isinstance(v, str | int | bool)`
abbrev pub is_simple : Json → Bool
is_simple (Json.str s) = true
is_simple (Json.int n) = true
is_simple (Json.bool b) = true
is_simple _ = false

unfoldable pub all_simple : Members → Bool
all_simple Members.end = true
all_simple (Members.member k v ms) = is_simple v && all_simple ms

unfoldable pub all_text : Jsons → Bool
all_text Jsons.nil = true
all_text (Jsons.cons (Json.str s) vs) = all_text vs
all_text (Jsons.cons _ vs) = false

-- `details.get("options") or {}`
unfoldable pub options_of : Option Json → Json
unfolding truthy_claim
options_of o = elim o [
  | none ↦ Json.object Members.end
  | some v ↦ if truthy_claim (some v) then v else Json.object Members.end
]

-- `schemas is not None and not (isinstance(schemas, list) and all(isinstance(s, str) ...))`
unfoldable pub bad_schemas : Option Json → Bool
unfolding all_text
bad_schemas none = false
bad_schemas (some Json.null) = false
bad_schemas (some (Json.array vs)) = not (all_text vs)
bad_schemas (some _) = true

-- `port is not None and not (isinstance(port, int) and 0 < port < 65536)`; a `bool` is an `int`,
-- and `True` is 1.
unfoldable pub bad_port : Option Json → Bool
bad_port none = false
bad_port (some Json.null) = false
bad_port (some (Json.int (pos n))) = not (ltb 0 n && ltb n 65536)
bad_port (some (Json.bool b)) = not b
bad_port (some _) = true

-- `v not in (None, "")`
abbrev pub is_blank : Json → Bool
is_blank Json.null = true
is_blank (Json.str []) = true
is_blank _ = false

unfoldable pub without_blanks : Members → Members
without_blanks Members.end = Members.end
without_blanks (Members.member k v ms) =
    let rest = without_blanks ms in if is_blank v then rest else Members.member k v rest

-- `as_text` is `str(value)`.
module _ (u : Unicode) (as_text : Json → Str) where
  -- `SECRET_LOOKING.search(text)`
  unfoldable pub looks_secret : Str → Bool
  unfolding secret_looking_re search
  looks_secret s = is_present (search (is_word_char u) secret_looking_re s)

  unfoldable pub secret_key : Members → Option Str
  unfolding looks_secret
  secret_key Members.end = none
  secret_key (Members.member k v ms) =
      let later = secret_key ms in if looks_secret k then some k else later

  unfoldable pub secret_option : Members → Option Str
  unfolding looks_secret
  secret_option Members.end = none
  secret_option (Members.member k v ms) =
      let later = secret_option ms in
      if looks_secret k || looks_secret (as_text v) then some k else later

  unfoldable pub missing_settings : Str → Members → List Str
  unfolding required_of truthy_claim member_of engine_fields
  missing_settings engine details =
      keep_if (λ f. not (truthy_claim (member_of details f))) (required_of engine engine_fields)

  abbrev pub refuse_found : {S : Type 0} → Option Str → (Str → Str) → Exec S (Unit {0})
  refuse_found none detail s = (ok tt, s)
  refuse_found (some key) detail s = (raised (http 422 (detail key)), s)

  -- `isinstance(options, dict) and all(...)`, and then the look for secrets among them
  abbrev pub check_options : {S : Type 0} → Json → Exec S (Unit {0})
  check_options (Json.object ms) = do
    refuse_if (not (all_simple ms)) 422 (codes "Options must be a set of simple name/value pairs.")
    refuse_found (secret_option ms) (λ key.
        codes "Option '"
        ++ (key ++ codes "' looks like a secret. Put credentials in the secret field."))
  check_options _ = refuse 422 (codes "Options must be a set of simple name/value pairs.")

  abbrev pub has_bad_host : Str → Members → Bool
  has_bad_host engine details =
      not (str_eq engine (codes "sqlite"))
      && is_present (
          search (is_word_char u) (not_in_host_re u.is_space)
            (text_or_empty u as_text (member_of details (codes "host"))))

  unfoldable pub validate_details : {S : Type 0} → Str → Members → Exec S Members
  unfolding sorted_set member_keys allowed_detail_keys secret_key secret_option options_of
      bad_schemas bad_port missing_settings without_blanks refuse refuse_if all_simple member_of
      search join str_in
  validate_details engine details = do
    refuse_if
        (is_some_item (keep_if (λ k. not (str_in k allowed_detail_keys)) (member_keys details))) 422
        (codes "Unknown setting: "
          ++ (join (codes ", ") (
                sorted_set
                  (keep_if (λ k. not (str_in k allowed_detail_keys)) (member_keys details)))
              ++ codes "."))
    refuse_found (secret_key details) (λ key.
        b'\'' ∷ (key ++ codes "' looks like a secret. Put credentials in the secret field."))
    check_options (options_of (member_of details (codes "options")))
    refuse_if (bad_schemas (member_of details (codes "schemas"))) 422
        (codes "Schemas must be a list of names.")
    refuse_if (bad_port (member_of details (codes "port"))) 422
        (codes "The port must be a number between 1 and 65535.")
    refuse_if (is_some_item (missing_settings engine details)) 422 (
        codes "Missing required setting: "
        ++ (join (codes ", ") (missing_settings engine details) ++ codes "."))
    refuse_if (has_bad_host engine details) 422
        (codes "The host should be a plain host name or address.")
    pure (without_blanks details)
