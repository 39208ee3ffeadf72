-- ===== src/Introspection/Closed.antt =====
-- The claims behind the tokens that `verify_token` of auth/introspection.py gives.
use mcp_server_for_sql_agent.Unicode.{Unicode}
use mcp_server_for_sql_agent.Values.{Json, Members}
use mcp_server_for_sql_agent.Errors.{Result, ok, raised, ok-eq, ok-ne-raised}
use mcp_server_for_sql_agent.World.{World}
use mcp_server_for_sql_agent.Cache.{Cache}
use mcp_server_for_sql_agent.Registry.{member_of}
use mcp_server_for_sql_agent.Introspection.{
  type_error, time, client_of, AccessToken, as_int, is_after, is_true, is_present, has_audience,
  is_issuer, scopes_of, text_or_empty, access_token_from_claims, acceptable, token_if, judged,
  verify_token,
}
use mcp_server_for_sql_agent.Prelude.Ints.{ℤ}
use mcp_server_for_sql_agent.Prelude.{
  List, subst, ◌∙◌, ap, sym, arith, some, none, Option, ◌||◌, not, false, true, Bool, ◌≢◌, refl,
  ◌≡◌, if◌then◌else◌, ℕ,
}
use mcp_server_for_sql_agent.Prelude.Strs.{codes, Str}
use mcp_server_for_sql_agent.Regex.{some-eq-some}

not-or-not : (a b : Bool) → not a || not b ≡ false → (a ≡ true) × (b ≡ true)
not-or-not a b h = ground arith

not-false : (a : Bool) → not a ≡ false → a ≡ true
not-false a h = ground arith

module _ (u : Unicode) (text_of : Json → Str) (digest : Str → Str) (loads : Str → Option Json)
    (dumps : Json → Str) (wall_clock : ℕ → ℕ) (ask : Str → World → Option Json × World)
    (cache : Cache) (audience : Str) (issuer : Option Str) (cache_ttl : ℕ) where
  -- The claims are active, have a subject, expire after `now`, are for this audience, and from the issuer if there is one to ask for.
  pub record IsAcceptable (claims : Members) (now : ℕ) : Type 0 where
    pub active : is_true (member_of claims (codes "active")) ≡ true
    pub subject : is_present (member_of claims (codes "sub")) ≡ true
    pub expiry : ℤ
    pub has_expiry : as_int (member_of claims (codes "exp")) ≡ some expiry
    pub not_expired : is_after expiry now ≡ true
    pub for_audience : has_audience audience (member_of claims (codes "aud")) ≡ ok true
    pub from_issuer : is_issuer issuer (member_of claims (codes "iss")) ≡ true

  acceptable-IsAcceptable :
      (claims : Members) (now : ℕ)
      → acceptable u text_of digest loads dumps wall_clock ask cache audience issuer cache_ttl
          claims now
        ≡ ok true
      → IsAcceptable claims now
  unfolding acceptable
  acceptable-IsAcceptable claims now h =
      first
        (not (is_true (member_of claims (codes "active")))
          || not (is_present (member_of claims (codes "sub"))))
        refl h
    where
      audience_check : Result Bool → Result Bool
      audience_check a = elim a [
        | raised e ↦ raised e
        | ok false ↦ ok false
        | ok true ↦ ok (is_issuer issuer (member_of claims (codes "iss")))
      ]

      expiry_check : Option ℤ → Result Bool
      expiry_check o = elim o [
        | none ↦ ok false
        | some exp ↦
            if not (is_after exp now)
            then ok false
            else audience_check (has_audience audience (member_of claims (codes "aud")))
      ]

      ne : ok false ≢ ok true
      ne e = cc e

      third :
          (exp : ℤ) (a : Result Bool)
          → (is_true (member_of claims (codes "active")) ≡ true)
            × (is_present (member_of claims (codes "sub")) ≡ true)
          → as_int (member_of claims (codes "exp")) ≡ some exp
          → is_after exp now ≡ true
          → has_audience audience (member_of claims (codes "aud")) ≡ a
          → audience_check a ≡ ok true
          → IsAcceptable claims now
      third exp (raised e) b x l a q = absurd (ok-ne-raised q)
      third exp (ok false) b x l a q = absurd (ne q)
      third exp (ok true) b x l a q = record {
        active = b.0;
        subject = b.1;
        expiry = exp;
        has_expiry = x;
        not_expired = l;
        for_audience = a;
        from_issuer = ok-eq q;
      }

      late :
          (exp : ℤ) (l : Bool)
          → (is_true (member_of claims (codes "active")) ≡ true)
            × (is_present (member_of claims (codes "sub")) ≡ true)
          → as_int (member_of claims (codes "exp")) ≡ some exp
          → not (is_after exp now) ≡ l
          → (if l
              then ok false
              else audience_check (has_audience audience (member_of claims (codes "aud"))))
            ≡ ok true
          → IsAcceptable claims now
      late exp true b x l q = absurd (ne q)
      late exp false b x l q =
          third exp (has_audience audience (member_of claims (codes "aud"))) b x
            (not-false (is_after exp now) l) refl q

      second :
          (o : Option ℤ)
          → (is_true (member_of claims (codes "active")) ≡ true)
            × (is_present (member_of claims (codes "sub")) ≡ true)
          → as_int (member_of claims (codes "exp")) ≡ o
          → expiry_check o ≡ ok true
          → IsAcceptable claims now
      second none b x q = absurd (ne q)
      second (some exp) b x q = late exp (not (is_after exp now)) b x refl q

      first :
          (b : Bool)
          → (not (is_true (member_of claims (codes "active")))
              || not (is_present (member_of claims (codes "sub"))))
            ≡ b
          → (if b then ok false else expiry_check (as_int (member_of claims (codes "exp"))))
            ≡ ok true
          → IsAcceptable claims now
      first true e q = absurd (ne q)
      first false e q =
          second (as_int (member_of claims (codes "exp")))
            (not-or-not (is_true (member_of claims (codes "active")))
              (is_present (member_of claims (codes "sub"))) e)
            refl q

  -- The token stands for acceptable claims, with their expiry and subject, at one reading of the clock.
  pub record IsChecked (t : AccessToken) : Type 0 where
    pub reading : ℕ
    pub acceptable : IsAcceptable t.claims (wall_clock reading)
    pub resource : t.resource ≡ audience
    pub expires : t.expires_at ≡ acceptable.expiry
    pub subject : t.subject ≡ text_or_empty u text_of (member_of t.claims (codes "sub"))

  access_token_from_claims-ok :
      (token : Str) (claims : Members) (t : AccessToken) (reading : ℕ)
      → IsAcceptable claims (wall_clock reading)
      → access_token_from_claims u text_of token claims audience ≡ ok t
      → IsChecked t
  unfolding access_token_from_claims
  access_token_from_claims-ok token claims t reading x h =
      go (as_int (member_of claims (codes "exp"))) refl h
    where
      made : ℤ → List Json → AccessToken
      made exp scopes = record {
        token = token;
        client_id = client_of u text_of claims;
        scopes = scopes;
        expires_at = exp;
        resource = audience;
        subject = text_or_empty u text_of (member_of claims (codes "sub"));
        claims = claims;
      }

      scoped : ℤ → Result (List Json) → Result AccessToken
      scoped exp r = elim r [ raised e ↦ raised e | ok scopes ↦ ok (made exp scopes) ]

      with_scopes :
          (exp : ℤ) (r : Result (List Json))
          → as_int (member_of claims (codes "exp")) ≡ some exp
          → scoped exp r ≡ ok t
          → IsChecked t
      with_scopes exp (raised e) y q = absurd (ok-ne-raised q)
      with_scopes exp (ok scopes) y q = subst IsChecked (ok-eq q) (record {
        reading = reading;
        acceptable = x;
        resource = refl;
        expires = some-eq-some (sym y ∙ x.has_expiry);
        subject = refl;
      })

      go :
          (o : Option ℤ)
          → as_int (member_of claims (codes "exp")) ≡ o
          → (elim o [
            | none ↦ raised type_error
            | some exp ↦ scoped exp (scopes_of u.is_space (member_of claims (codes "scope")))
          ])
            ≡ ok t
          → IsChecked t
      go none y q = absurd (ok-ne-raised q)
      go (some exp) y q =
          with_scopes exp (scopes_of u.is_space (member_of claims (codes "scope"))) y q

  judged-IsChecked :
      (token : Str) (p : Option Members × World) (w' : World) (t : AccessToken)
      → judged u text_of digest loads dumps wall_clock ask cache audience issuer cache_ttl token p
        ≡ (ok (some t), w')
      → IsChecked t
  unfolding time
  judged-IsChecked token (none, w) w' t h = absurd (none-ne (ok-eq (ap (λ q. q.0) h)))
    where
      none-ne : none ≢ some t
      none-ne e = cc e
  judged-IsChecked token (some claims, w) w' t h =
      go
        (acceptable u text_of digest loads dumps wall_clock ask cache audience issuer cache_ttl
          claims (wall_clock w.readings))
        refl (ap (λ q. q.0) h)
    where
      wrapped : Result AccessToken → Result (Option AccessToken)
      wrapped r = elim r [ raised e ↦ raised e | ok a ↦ ok (some a) ]

      unwrap :
          (r : Result AccessToken)
          → access_token_from_claims u text_of token claims audience ≡ r
          → wrapped r ≡ ok (some t)
          → access_token_from_claims u text_of token claims audience ≡ ok t
      unwrap (raised e) y q = absurd (ok-ne-raised q)
      unwrap (ok a) y q = y ∙ ap (λ b. ok b) (some-eq-some (ok-eq q))

      none-ne : none ≢ some t
      none-ne e = cc e

      go :
          (r : Result Bool)
          → acceptable u text_of digest loads dumps wall_clock ask cache audience issuer cache_ttl
              claims
              (wall_clock w.readings)
            ≡ r
          → token_if u text_of digest loads dumps wall_clock ask cache audience issuer cache_ttl r
              token claims
            ≡ ok (some t)
          → IsChecked t
      go (raised e) y q = absurd (ok-ne-raised q)
      go (ok false) y q = absurd (none-ne (ok-eq q))
      go (ok true) y q =
          access_token_from_claims-ok token claims t w.readings
            (acceptable-IsAcceptable claims (wall_clock w.readings) y)
            (unwrap (access_token_from_claims u text_of token claims audience) refl q)

  -- If `verify_token` answers with a token, whether its claims were cached or just asked for, then the claims are active, have a subject, expire later than a reading of the clock, are for the configured audience, and from the configured issuer if there is one; and the token's resource, expiry and subject are those.
  pub verify_token-IsChecked :
      (token : Str) (w w' : World) (t : AccessToken)
      → verify_token u text_of digest loads dumps wall_clock ask cache audience issuer cache_ttl
          token w
        ≡ (ok (some t), w')
      → IsChecked t
  unfolding verify_token
  verify_token-IsChecked token w w' t h = judged-IsChecked token _ w' t h
