-- ===== src/Values.antt =====
-- services/serialization.py: what a database driver hands over, and the JSON that callers get.
use mcp_server_for_sql_agent.Prelude.Ints.{ℤ}
use mcp_server_for_sql_agent.Prelude.Decimal.{decimal}
use mcp_server_for_sql_agent.Prelude.{◌++◌, ◌&&◌, Bool, ℕ, if◌then◌else◌}
use mcp_server_for_sql_agent.Prelude.Strs.{str_eq, codes, Str}

-- A `float` is kept as its `repr`, with the answer of `math.isfinite`.
pub record Float : Type 0 where
  pub repr : Str
  pub is_finite : Bool

-- The JSON-friendly values.
mutual
  pub data Json : Type 0 where
    null : Json
    bool : Bool → Json
    int : ℤ → Json
    float : Float → Json
    str : Str → Json
    array : Jsons → Json
    object : Members → Json

  pub data Jsons : Type 0 where
    nil : Jsons
    cons : Json → Jsons → Jsons

  pub data Members : Type 0 where
    end : Members
    member : Str → Json → Members → Members

-- A value of a driver, by the case of `to_json_safe` that it falls under, with what Python's
-- conversions make of it: `decimal_number` has `str(value)`, `float(value)` and whether the float is the
-- exact value; `binary` has its length; `entry` has `str(key)`.
mutual
  pub data DbValue : Type 0 where
    null : DbValue
    bool : Bool → DbValue
    int : ℤ → DbValue
    str : Str → DbValue
    float : Float → DbValue
    decimal_number : Str → Float → Bool → DbValue
    date_or_time : Str → DbValue
    interval uuid other : Str → DbValue
    binary : ℕ → DbValue
    sequence : DbValues → DbValue
    mapping : DbEntries → DbValue

  pub data DbValues : Type 0 where
    nil : DbValues
    cons : DbValue → DbValues → DbValues

  pub data DbEntries : Type 0 where
    end : DbEntries
    entry : Str → DbValue → DbEntries → DbEntries

abbrev float_or_text : Bool → Float → Str → Json
float_or_text b f s = if b then Json.float f else Json.str s

-- `d[key] = value`: a key that is there keeps its place and takes the new value.
unfoldable pub put : Str → Json → Members → Members
put key value Members.end = Members.member key value Members.end
put key value (Members.member k v ms) =
    let rest = put key value ms in
    if str_eq key k then Members.member k value ms else Members.member k v rest

unfoldable mutual
  unfolding put

  pub to_json_safe : DbValue → Json
  to_json_safe DbValue.null = Json.null
  to_json_safe (DbValue.bool b) = Json.bool b
  to_json_safe (DbValue.int n) = Json.int n
  to_json_safe (DbValue.str s) = Json.str s
  to_json_safe (DbValue.float f) = float_or_text f.is_finite f f.repr
  to_json_safe (DbValue.decimal_number s f exact) = float_or_text (f.is_finite && exact) f s
  to_json_safe (DbValue.date_or_time s) = Json.str s
  to_json_safe (DbValue.interval s) = Json.str s
  to_json_safe (DbValue.uuid s) = Json.str s
  to_json_safe (DbValue.other s) = Json.str s
  to_json_safe (DbValue.binary n) = Json.str (codes "<binary, " ++ (decimal n ++ codes " bytes>"))
  to_json_safe (DbValue.sequence vs) = Json.array (to_json_safes vs)
  to_json_safe (DbValue.mapping es) = Json.object (to_json_members es Members.end)

  pub to_json_safes : DbValues → Jsons
  to_json_safes DbValues.nil = Jsons.nil
  to_json_safes (DbValues.cons v vs) = Jsons.cons (to_json_safe v) (to_json_safes vs)

  -- The dictionary that is built entry by entry.
  pub to_json_members : DbEntries → Members → Members
  to_json_members DbEntries.end built = built
  to_json_members (DbEntries.entry k v es) built = to_json_members es (put k (to_json_safe v) built)
