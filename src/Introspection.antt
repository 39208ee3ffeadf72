-- ===== src/Introspection.antt =====
-- `IntrospectionTokenVerifier` of auth/introspection.py, with `access_token_from_claims` of
-- auth/token_verifier.py.
pub mod Closed
use mcp_server_for_sql_agent.Unicode.{Unicode}
use mcp_server_for_sql_agent.Values.{Json, Jsons, Members}
use mcp_server_for_sql_agent.Errors.{Result, ok, raised, Exn, unexpected}
use mcp_server_for_sql_agent.Exec.{Exec, pure, lift, ◌>>=◌, ◌>>◌}
use mcp_server_for_sql_agent.World.{World}
use mcp_server_for_sql_agent.Cache.{Cache}
use mcp_server_for_sql_agent.Registry.{member_of}
use mcp_server_for_sql_agent.Prelude.Ints.{ℤ, pos, negsuc}
use mcp_server_for_sql_agent.Prelude.{
  ◌&&◌, map, ◌++◌, ◌∷◌, [], List, some, none, Option, ◌||◌, not, false, true, Bool, min, ◌-◌, ◌+◌,
  suc, zero, if◌then◌else◌, ltb, ℕ,
}
use mcp_server_for_sql_agent.Prelude.Strs.{truthy, str_in, str_eq, codes, Str}

pub record AccessToken : Type 0 where
  pub token : Str
  pub client_id : Str
  pub scopes : List Json
  pub expires_at : ℤ
  pub resource : Str
  pub subject : Str
  pub claims : Members

abbrev pub type_error : Exn
type_error = unexpected (codes "TypeError")

abbrev pub negative_ttl : ℕ
negative_ttl = 5

-- `isinstance(value, int)`: a `bool` is an `int` too.
unfoldable pub as_int : Option Json → Option ℤ
as_int (some (Json.int n)) = some n
as_int (some (Json.bool true)) = some (pos 1)
as_int (some (Json.bool false)) = some (pos 0)
as_int _ = none

unfoldable pub is_after : ℤ → ℕ → Bool
is_after (pos n) now = ltb now n
is_after (negsuc n) now = false

abbrev pub is_true : Option Json → Bool
is_true (some (Json.bool true)) = true
is_true _ = false

abbrev pub is_present {ℓ} : {A : Type ℓ} → Option A → Bool
is_present none = false
is_present (some a) = true

abbrev pub is_text : Str → Json → Bool
is_text s (Json.str t) = str_eq s t
is_text s _ = false

unfoldable pub in_array : Str → Jsons → Bool
in_array s Jsons.nil = false
in_array s (Jsons.cons v vs) = is_text s v || in_array s vs

-- `self._audience in audiences`, where a text stands for the list of it; `in` on a number or on
-- null is a `TypeError`.
unfoldable pub has_audience : Str → Option Json → Result Bool
unfolding in_array member_of
has_audience audience none = ok false
has_audience audience (some (Json.str s)) = ok (str_eq audience s)
has_audience audience (some (Json.array vs)) = ok (in_array audience vs)
has_audience audience (some (Json.object ms)) = ok (is_present (member_of ms audience))
has_audience audience (some _) = raised type_error

abbrev pub is_issuer : Option Str → Option Json → Bool
is_issuer none claim = true
is_issuer (some i) none = false
is_issuer (some i) (some v) = is_text i v

-- `bool(claims.get(key))`
unfoldable pub truthy_claim : Option Json → Bool
truthy_claim none = false
truthy_claim (some Json.null) = false
truthy_claim (some (Json.bool b)) = b
truthy_claim (some (Json.int (pos zero))) = false
truthy_claim (some (Json.str s)) = truthy s
truthy_claim (some (Json.array Jsons.nil)) = false
truthy_claim (some (Json.object Members.end)) = false
truthy_claim (some (Json.float f)) = not (str_in f.repr (codes "0.0" ∷ codes "-0.0" ∷ []))
truthy_claim (some _) = true

abbrev pub reversed : Str → Str → Str
reversed [] done = done
reversed (c ∷ s) done = reversed s (c ∷ done)

-- The words of a text, and the one that is being read, backwards.
unfoldable pub split_words : (ℕ → Bool) → Str → Str → List Str
split_words is_space word [] = if truthy word then reversed word [] ∷ [] else []
split_words is_space word (c ∷ s) =
    let ended = split_words is_space [] s in
    let longer = split_words is_space (c ∷ word) s in
    if is_space c then (if truthy word then reversed word [] ∷ ended else ended) else longer

unfoldable pub items_of : Jsons → List Json
items_of Jsons.nil = []
items_of (Jsons.cons v vs) = v ∷ items_of vs

unfoldable pub keys_of : Members → List Json
keys_of Members.end = []
keys_of (Members.member k v ms) = Json.str k ∷ keys_of ms

-- `scope.split() if isinstance(scope, str) else list(scope)`
unfoldable pub scopes_of : (ℕ → Bool) → Option Json → Result (List Json)
unfolding split_words items_of keys_of
scopes_of is_space none = ok []
scopes_of is_space (some (Json.str s)) = ok (map (λ w. Json.str w) (split_words is_space [] s))
scopes_of is_space (some (Json.array vs)) = ok (items_of vs)
scopes_of is_space (some (Json.object ms)) = ok (keys_of ms)
scopes_of is_space (some _) = raised type_error

-- `text_of` is `str(value)`.
module _ (u : Unicode) (text_of : Json → Str) where
  abbrev pub text_or_empty : Option Json → Str
  text_or_empty none = []
  text_or_empty (some v) = text_of v

  unfoldable pub client_of : Members → Str
  unfolding truthy_claim member_of
  client_of claims =
      if truthy_claim (member_of claims (codes "azp"))
      then text_or_empty (member_of claims (codes "azp"))
      else if truthy_claim (member_of claims (codes "client_id"))
      then text_or_empty (member_of claims (codes "client_id"))
      else []

  -- `int(claims["exp"])` and `claims["sub"]` of claims that have both
  unfoldable pub access_token_from_claims : Str → Members → Str → Result AccessToken
  unfolding scopes_of client_of as_int
  access_token_from_claims token claims audience = elim (as_int (member_of claims (codes "exp"))) [
    | none ↦ raised type_error
    | some exp ↦ elim (scopes_of u.is_space (member_of claims (codes "scope"))) [
      | raised e ↦ raised e
      | ok scopes ↦ ok (record {
        token = token;
        client_id = client_of claims;
        scopes = scopes;
        expires_at = exp;
        resource = audience;
        subject = text_or_empty (member_of claims (codes "sub"));
        claims = claims;
      })
    ]
  ]

  -- `ask` posts the token to the provider: `none` where that fails or the answer is no JSON.
  module _ (digest : Str → Str) (loads : Str → Option Json) (dumps : Json → Str)
      (wall_clock : ℕ → ℕ) (ask : Str → World → Option Json × World) (cache : Cache)
      (audience : Str) (issuer : Option Str) (cache_ttl : ℕ) where
    -- `int(time.time())`
    unfoldable pub time : World → ℕ × World
    time w = (wall_clock w.readings, record w { readings = w.readings + 1 })

    -- `isinstance(claims, dict)`
    abbrev pub as_object : Option Json → Option Members
    as_object (some (Json.object ms)) = some ms
    as_object _ = none

    abbrev pub parsed : Option Str → Option Members
    parsed none = none
    parsed (some text) = as_object (loads text)

    -- An answer is kept until the token expires, and no longer than `cache_ttl`.
    abbrev pub ttl_of : Option ℤ → ℕ → ℕ
    ttl_of none now = cache_ttl
    ttl_of (some (pos n)) now = min cache_ttl (n - now)
    ttl_of (some (negsuc n)) now = 0

    abbrev pub keep_for : Str → Members → ℕ → World → World
    keep_for key claims zero w = w
    keep_for key claims (suc ttl) w = cache.set key (dumps (Json.object claims)) (suc ttl) w

    unfoldable pub keep_claims : Str → Members → World → World
    unfolding time truthy_claim as_int
    keep_claims key claims w = elim (truthy_claim (member_of claims (codes "active"))) [
      | false ↦
          cache.set key
            (dumps (Json.object (Members.member (codes "active") (Json.bool false) Members.end)))
            negative_ttl w
      | true ↦ elim (as_int (member_of claims (codes "exp"))) [
        | none ↦ keep_for key claims cache_ttl w
        | some exp ↦ let (now, w') = time w in keep_for key claims (ttl_of (some exp) now) w'
      ]
    ]

    abbrev pub introspected : Str → Option Members × World → Option Members × World
    introspected key (none, w) = (none, w)
    introspected key (some claims, w) = (some claims, keep_claims key claims w)

    unfoldable pub introspect : Str → Str → World → Option Members × World
    unfolding keep_claims
    introspect token key w =
        let (answer, w') = ask token w in introspected key (as_object answer, w')

    unfoldable pub acceptable : Members → ℕ → Result Bool
    unfolding as_int is_after has_audience member_of
    acceptable claims now =
        if not (is_true (member_of claims (codes "active")))
          || not (is_present (member_of claims (codes "sub")))
        then ok false
        else elim (as_int (member_of claims (codes "exp"))) [
          | none ↦ ok false
          | some exp ↦
              if not (is_after exp now)
              then ok false
              else elim (has_audience audience (member_of claims (codes "aud"))) [
                | raised e ↦ raised e
                | ok false ↦ ok false
                | ok true ↦ ok (is_issuer issuer (member_of claims (codes "iss")))
              ]
        ]

    abbrev pub token_if : Result Bool → Str → Members → Result (Option AccessToken)
    token_if (raised e) token claims = raised e
    token_if (ok false) token claims = ok none
    token_if (ok true) token claims = elim (access_token_from_claims token claims audience) [
      | raised e ↦ raised e
      | ok t ↦ ok (some t)
    ]

    -- The clock is read for an `exp` that is a number.
    abbrev pub reads_clock : Members → Bool
    reads_clock claims =
        is_true (member_of claims (codes "active"))
        && is_present (member_of claims (codes "sub"))
        && is_present (as_int (member_of claims (codes "exp")))

    abbrev pub judged : Str → Option Members × World → Result (Option AccessToken) × World
    judged token (none, w) = (ok none, w)
    judged token (some claims, w) =
        let (now, w') = time w in
        (token_if (acceptable claims now) token claims, if reads_clock claims then w' else w)

    abbrev pub cached_or_asked : Str → Str → Option Members × World → Option Members × World
    cached_or_asked token key (some claims, w) = (some claims, w)
    cached_or_asked token key (none, w) = introspect token key w

    unfoldable pub verify_token : Str → Exec World (Option AccessToken)
    unfolding time introspect acceptable access_token_from_claims
    verify_token token w =
        let key = codes "token:" ++ digest token in
        let (hit, w') = cache.get key w in judged token (cached_or_asked token key (parsed hit, w'))
