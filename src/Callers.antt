-- ===== src/Callers.antt =====
-- auth/caller.py: the `Caller` that a token's claims or the configuration stand for.
use mcp_server_for_sql_agent.Prelude.{
  map, ◌∷◌, [], List, some, none, Option, ℕ, keep_if, if◌then◌else◌, ◌==◌,
}
use mcp_server_for_sql_agent.Prelude.Strs.{truthy, codes, Str}
use mcp_server_for_sql_agent.Registry.{member_of}
use mcp_server_for_sql_agent.Values.{Json, Members}
use mcp_server_for_sql_agent.Unicode.{strip, Unicode}
use mcp_server_for_sql_agent.Introspection.{
  keys_of, items_of, truthy_claim, split_words, AccessToken, reversed,
}
use mcp_server_for_sql_agent.Errors.{not_authenticated, domain, ok, raised, unexpected, Exn, Result}
use mcp_server_for_sql_agent.Models.{Caller}

-- `s.split(c)` for a separator of one character; `word` is the part that is being read, backwards.
unfoldable pub split_at : ℕ → Str → Str → List Str
split_at sep word [] = reversed word [] ∷ []
split_at sep word (c ∷ s) =
    let ended = split_at sep [] s in
    let longer = split_at sep (c ∷ word) s in if c == sep then reversed word [] ∷ ended else longer

-- `value[part]`, or nothing if there is no such part
abbrev pub part_of : Str → Json → Option Json
part_of part (Json.object ms) = member_of ms part
part_of part _ = none

unfoldable pub follow : List Str → Json → Option Json
unfolding member_of
follow [] value = some value
follow (part ∷ parts) value = elim (part_of part value) [ none ↦ none | some v ↦ follow parts v ]

-- `none` stands for `None`.
unfoldable pub claim_at_path : Members → Str → Option Json
unfolding split_at follow
claim_at_path claims path = follow (split_at b'.' [] path) (Json.object claims)

-- `s.replace(",", " ")`
unfoldable pub commas_to_spaces : Str → Str
commas_to_spaces [] = []
commas_to_spaces (c ∷ s) = (if c == b',' then 32 else c) ∷ commas_to_spaces s

abbrev pub type_error_of : Json → Exn
type_error_of v = unexpected (codes "TypeError")

-- What pydantic raises for a field that does not fit.
abbrev pub validation_error : Exn
validation_error = unexpected (codes "ValidationError")

-- The `name` of a `Caller` is a text or `None`.
abbrev name_value : Option Json → Result (Option Str)
name_value none = ok none
name_value (some Json.null) = ok none
name_value (some (Json.str s)) = ok (some s)
name_value (some v) = raised validation_error

-- `claims.get("name") or claims.get("preferred_username") or claims.get("email")`
unfoldable pub name_in : Members → Result (Option Str)
unfolding truthy_claim member_of
name_in claims =
    if truthy_claim (member_of claims (codes "name"))
    then name_value (member_of claims (codes "name"))
    else if truthy_claim (member_of claims (codes "preferred_username"))
    then name_value (member_of claims (codes "preferred_username"))
    else name_value (member_of claims (codes "email"))

-- `Caller(...)`, which wants a `sub` that is not empty.
unfoldable pub make_caller : Str → Result (Option Str) → List Str → Result Caller
make_caller [] name roles = raised validation_error
make_caller (c ∷ sub) (raised e) roles = raised e
make_caller (c ∷ sub) (ok name) roles = ok (record { sub = c ∷ sub; name = name; roles = roles })

-- `as_text` is `str(value)`.
module _ (u : Unicode) (as_text : Json → Str) where
  -- `roles or []`, of which each is turned into a text; a text holds several.
  unfoldable pub roles_in : Option Json → Result (List Str)
  unfolding split_words commas_to_spaces items_of keys_of truthy_claim
  roles_in (some (Json.str s)) = ok (split_words u.is_space [] (commas_to_spaces s))
  roles_in (some (Json.array vs)) = ok (map as_text (items_of vs))
  roles_in (some (Json.object ms)) = ok (map as_text (keys_of ms))
  roles_in none = ok []
  roles_in (some v) = if truthy_claim (some v) then raised (type_error_of v) else ok []

  unfoldable pub caller_from_claims : Members → Str → Result Caller
  unfolding claim_at_path roles_in name_in make_caller member_of
  caller_from_claims claims roles_claim = elim (member_of claims (codes "sub")) [
    | none ↦ raised (unexpected (codes "KeyError"))
    | some sub ↦ elim (roles_in (claim_at_path claims roles_claim)) [
      | raised e ↦ raised e
      | ok roles ↦ make_caller (as_text sub) (name_in claims) roles
    ]
  ]

  -- `token` is the access token of the current request.
  unfoldable pub token_caller : Str → Option AccessToken → Result Caller
  unfolding caller_from_claims
  token_caller roles_claim none = raised (domain not_authenticated)
  token_caller roles_claim (some token) = elim token.claims [
    | Members.end ↦ raised (domain not_authenticated)
    | Members.member k v ms ↦ caller_from_claims (Members.member k v ms) roles_claim
  ]

  -- `split_list` of config.py
  unfoldable pub split_list : Str → List Str
  unfolding split_at strip
  split_list value = keep_if truthy (map (strip u) (split_at b',' [] value))

  unfoldable pub stdio_caller : Str → Option Str → Str → Result Caller
  unfolding split_list
  stdio_caller [] name roles = raised (unexpected (codes "ValueError"))
  stdio_caller (c ∷ sub) name roles =
      ok (record { sub = c ∷ sub; name = name; roles = split_list roles })
