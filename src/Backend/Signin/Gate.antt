-- ===== src/Backend/Signin/Gate.antt =====
-- Who gets past `current_user` and `require_admin` of auth.py.
use mcp_server_for_sql_agent.Exec.{
  Exec, lift, pure, bind-eq-ok, pure-eq-ok, lift-eq-ok, continue, ◌>>=◌,
}
use mcp_server_for_sql_agent.Backend.Signin.{
  user_of, user_or_refuse, current_user, require_admin, as_admin, has_scope,
}
use mcp_server_for_sql_agent.Backend.Laws.{Keeps, Keeps-eq, bind-Keeps}
use mcp_server_for_sql_agent.Prelude.{
  some, none, Option, ◌||◌, false, true, inr, inl, ◌⊎◌, ◌∙◌, ap, sym, refl, ◌≡◌, Bool-cases,
}
use mcp_server_for_sql_agent.Prelude.Strs.{str_in, codes, Str}
use mcp_server_for_sql_agent.Unicode.{Unicode}
use mcp_server_for_sql_agent.Errors.{ok-ne-raised, Result, ok, raised, http, Exn}
use mcp_server_for_sql_agent.Values.{Members, Json}
use mcp_server_for_sql_agent.World.{World}
use mcp_server_for_sql_agent.Introspection.{AccessToken}
use mcp_server_for_sql_agent.Backend.{refuse, User}
use mcp_server_for_sql_agent.Models.{Caller}
use mcp_server_for_sql_agent.Callers.{caller_from_claims}

abbrev not_admin : Exn
not_admin = http 403 (codes "This action needs an administrator.")

module _ {S A B : Type 0} where
  -- A part that raises, or that goes on to the rest.
  bind-step :
      (m : Exec S A) (f : A → Exec S B) (s : S)
      → ((e : Exn) × ((m >>= f) s ≡ (raised e, (m s).1)))
        ⊎ ((a : A) × (m s ≡ (ok a, (m s).1)) × ((m >>= f) s ≡ f a (m s).1))
  unfolding ◌>>=◌
  bind-step m f s = go (m s)
    where
      go :
          (p : Result A × S)
          → ((e : Exn) × ((let (r, t) = p in continue r f t) ≡ (raised e, p.1)))
            ⊎ ((a : A) × (p ≡ (ok a, p.1)) × ((let (r, t) = p in continue r f t) ≡ f a p.1))
      go (ok a, t) = inr (a, refl, refl)
      go (raised e, t) = inl (e, refl)

  -- A rest that leaves the state alone.
  bind-rest :
      (m : Exec S A) (f : A → Exec S B)
      → ((a : A) (t : S) → (f a t).1 ≡ t)
      → (s : S) → ((m >>= f) s).1 ≡ (m s).1
  unfolding ◌>>=◌
  bind-rest m f q s = go (m s)
    where
      go : (p : Result A × S) → (let (r, t) = p in continue r f t).1 ≡ p.1
      go (ok a, t) = q a t
      go (raised e, t) = refl

module _ (u : Unicode) (as_text : Json → Str) (verify : Str → Exec World (Option AccessToken))
    (roles_claim admin_role : Str) where
  -- The token is one that the verifier accepts, the user is the one its claims name, and the role of
  -- administrators is among the roles of the claims or the scopes of the token.
  pub record SignedIn (credentials : Option Str) (w : World) (who : User) : Type 0 where
    pub token : Str
    pub given : credentials ≡ some token
    pub access : AccessToken
    pub after : World
    pub verified : verify token w ≡ (ok (some access), after)
    pub caller : Caller
    pub claimed : caller_from_claims u as_text access.claims roles_claim ≡ ok caller
    pub sub : who.sub ≡ caller.sub
    pub name : who.name ≡ caller.name
    pub roles : who.roles ≡ caller.roles
    pub admin :
        who.is_admin ≡ (str_in admin_role caller.roles || has_scope admin_role access.scopes)

  user_of-Keeps : (a : AccessToken) → Keeps (user_of u as_text verify roles_claim admin_role a)
  unfolding user_of refuse lift pure
  user_of-Keeps a = go a.claims
    where
      go :
          (ms : Members)
          → Keeps (user_of u as_text verify roles_claim admin_role (record a { claims = ms }))
      go Members.end w = refl
      go (Members.member k v ms) w =
          bind-Keeps (lift (caller_from_claims u as_text (Members.member k v ms) roles_claim)) _
            (λ w. refl) (λ c w. refl) w

  answer-Keeps :
      (o : Option AccessToken) → Keeps (user_or_refuse u as_text verify roles_claim admin_role o)
  unfolding refuse
  answer-Keeps none w = refl
  answer-Keeps (some a) w = user_of-Keeps a w

  -- The state when the token, if one came with the request, has been verified.
  abbrev pub after_verifying : Option Str → World → World
  after_verifying none w = w
  after_verifying (some token) w = (verify token w).1

  current_user-After :
      (credentials : Option Str) (w : World)
      → (current_user u as_text verify roles_claim admin_role credentials w).1
        ≡ after_verifying credentials w
  unfolding current_user refuse
  current_user-After none w = refl
  current_user-After (some token) w =
      bind-rest (verify token) (user_or_refuse u as_text verify roles_claim admin_role) answer-Keeps
        w

  user_of-SignedIn :
      (token : Str) (a : AccessToken) (w w₁ t : World) (who : User)
      → verify token w ≡ (ok (some a), w₁)
      → user_of u as_text verify roles_claim admin_role a w₁ ≡ (ok who, t)
      → (x : SignedIn (some token) w who) × (x.after ≡ w₁)
  unfolding user_of refuse
  user_of-SignedIn token a w w₁ t who v h = go a.claims refl h
    where
      go :
          (ms : Members)
          → a.claims ≡ ms
          → user_of u as_text verify roles_claim admin_role (record a { claims = ms }) w₁
            ≡ (ok who, t)
          → (x : SignedIn (some token) w who) × (x.after ≡ w₁)
      go Members.end e x = absurd (ok-ne-raised (ap (λ q. q.0) x))
      go (Members.member k y ms) e x =
          let (c, w₂, i, j) =
            bind-eq-ok (lift (caller_from_claims u as_text (Members.member k y ms) roles_claim)) _
              w₁ t x in
          let (same, _) = pure-eq-ok _ who w₂ t j in
          (
            record {
              token = token;
              given = refl;
              access = a;
              after = w₁;
              verified = v;
              caller = c;
              claimed =
                  ap (λ q. caller_from_claims u as_text q roles_claim) e
                  ∙ (lift-eq-ok _ c w₁ w₂ i).0;
              sub = ap (λ (q : User). q.sub) (sym same);
              name = ap (λ (q : User). q.name) (sym same);
              roles = ap (λ (q : User). q.roles) (sym same);
              admin = ap (λ (q : User). q.is_admin) (sym same);
            },
            refl,
          )

  current_user-SignedIn :
      (credentials : Option Str) (w t : World) (who : User)
      → current_user u as_text verify roles_claim admin_role credentials w ≡ (ok who, t)
      → (x : SignedIn credentials w who) × (t ≡ x.after)
  unfolding current_user refuse
  current_user-SignedIn none w t who h = absurd (ok-ne-raised (ap (λ q. q.0) h))
  current_user-SignedIn (some token) w t who h =
      let (o, w₁, i, j) = bind-eq-ok (verify token) _ w t h in answer o w₁ i j
    where
      answer :
          (o : Option AccessToken) (w₁ : World)
          → verify token w ≡ (ok o, w₁)
          → user_or_refuse u as_text verify roles_claim admin_role o w₁ ≡ (ok who, t)
          → (x : SignedIn (some token) w who) × (t ≡ x.after)
      answer none w₁ v x = absurd (ok-ne-raised (ap (λ q. q.0) x))
      answer (some a) w₁ v x =
          let (y, e) = user_of-SignedIn token a w w₁ t who v x in
          (
            y,
            Keeps-eq (user_of u as_text verify roles_claim admin_role a) w₁ t (ok who)
                  (user_of-Keeps a) x
                ∙ sym e,
          )

  judged_admin :
      {A : Type 0} (handler : User → Exec World A) (who : User) (t : World)
      → who.is_admin ≡ true
      → (require_admin u as_text verify roles_claim admin_role who >>= handler) t ≡ handler who t
  unfolding require_admin ◌>>=◌ pure
  judged_admin handler who t y = rw y refl

  judged_other :
      {A : Type 0} (handler : User → Exec World A) (who : User) (t : World)
      → who.is_admin ≡ false
      → (require_admin u as_text verify roles_claim admin_role who >>= handler) t
        ≡ (raised not_admin, t)
  unfolding require_admin ◌>>=◌ refuse
  judged_other handler who t n = rw n refl

  -- An endpoint for administrators either fails and has then done nothing but to verify the token, if one came with the request; or it does exactly what its handler does, in the state in which the verifier leaves it, with a user whom a token that the verifier accepts names, where the role of administrators is among the roles in the token's claims or the token's scopes.
  pub as_admin-SignedIn :
      {A : Type 0} (handler : User → Exec World A) (credentials : Option Str) (w : World)
      → ((e : Exn) × (as_admin u as_text verify roles_claim admin_role handler credentials w
            ≡ (raised e, after_verifying credentials w)))
        ⊎ ((who : User) × (x : SignedIn credentials w who) × ((str_in admin_role x.caller.roles
                || has_scope admin_role x.access.scopes)
              ≡ true)
            × (as_admin u as_text verify roles_claim admin_role handler credentials w
                ≡ handler who x.after))
  unfolding as_admin
  as_admin-SignedIn handler credentials w =
      let there = current_user-After credentials w in
      elim (bind-step (current_user u as_text verify roles_claim admin_role credentials)
        (λ who. require_admin u as_text verify roles_claim admin_role who >>= handler) w) [
          | inl (e, h) ↦ inl (e, h ∙ ap (λ t. (raised e, t)) there)
          | inr (who, h, k) ↦
              let (x, f) = current_user-SignedIn credentials w _ who h in
              elim (Bool-cases who.is_admin) [
                | inl y ↦
                    inr (
                      who,
                      x,
                      sym x.admin ∙ y,
                      k ∙ judged_admin handler who _ y ∙ ap (handler who) f,
                    )
                | inr n ↦ inl (
                  not_admin,
                  k ∙ judged_other handler who _ n ∙ ap (λ t. (raised (not_admin), t)) there,
                )
              ]
        ]
