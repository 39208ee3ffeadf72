-- ===== src/Schema/Referrers.antt =====
-- Which foreign keys `get_relationships` of services/schema_service.py finds in other tables.
use mcp_server_for_sql_agent.Unicode.{Unicode, casefold}
use mcp_server_for_sql_agent.Errors.{ok}
use mcp_server_for_sql_agent.Exec.{Exec, pure, ◌>>=◌, Exec, bind-eq-ok, pure-eq-ok}
use mcp_server_for_sql_agent.Models.{TableDescription, TableInfo, Relationship}
use mcp_server_for_sql_agent.World.{World}
use mcp_server_for_sql_agent.Store.{MetaStore, DbAdapter, AdapterProvider}
use mcp_server_for_sql_agent.Permissions.{ConnectionAccess, allows}
use mcp_server_for_sql_agent.Audit.{Call, outside}
use mcp_server_for_sql_agent.Audit.Trace.{outside-eq-ok}
use mcp_server_for_sql_agent.Prelude.Filters.{keep_if-IsIn}
use mcp_server_for_sql_agent.Schema.{is_table, referencing}
use mcp_server_for_sql_agent.Prelude.{
  arith, inr, inl, refl, IsIn, ◌||◌, not, All-map, All-append, if◌then◌else◌, ◌++◌, ◌∷◌, [], List,
  false, true, Bool, subst, ap, ◌≡◌, All, keep_if, ℕ,
}
use mcp_server_for_sql_agent.Prelude.Strs.{str_eq_iff, str_eq, Str}

All-of-IsIn : {A : Type 0} (P : A → Type 0) (xs : List A) → ((a : A) → IsIn a xs → P a) → All P xs
All-of-IsIn P [] h = tt
All-of-IsIn P (a ∷ xs) h = (h a (inl refl), All-of-IsIn P xs (λ b i. h b (inr i)))

neither : (a b : Bool) → (not a || not b) ≡ false → (a ≡ true) × (b ≡ true)
neither a b h = ground arith

module _ (u : Unicode) where
  -- `k` is a key into `target` that the adapter gives for a listed table which the caller may see.
  pub record Referrer (access : ConnectionAccess) (adapter : DbAdapter) (others : List TableInfo)
      (target : Str) (k : Relationship) : Type 0 where
    pub other : TableInfo
    pub listed : IsIn other others
    pub no_view : is_table other.kind ≡ true
    pub visible : allows u access other.name ≡ true
    pub shape : TableDescription
    pub asked_at : World
    pub asked : (adapter.describe_table other.name asked_at).0 ≡ ok shape
    pub is_key : IsIn k shape.foreign_keys
    pub into : casefold u k.to_table ≡ casefold u target

  Referrer-more :
      (access : ConnectionAccess) (adapter : DbAdapter) (other : TableInfo)
      (others : List TableInfo) (target : Str) (k : Relationship)
      → Referrer access adapter others target k
      → Referrer access adapter (other ∷ others) target k
  Referrer-more access adapter other others target k x = record {
    other = x.other;
    listed = inr x.listed;
    no_view = x.no_view;
    visible = x.visible;
    shape = x.shape;
    asked_at = x.asked_at;
    asked = x.asked;
    is_key = x.is_key;
    into = x.into;
  }

module _ (u : Unicode) (clock : ℕ → ℕ) (limit : ℕ) (store : MetaStore)
    (adapters : AdapterProvider) where
  pub referencing-Referrer :
      (adapter : DbAdapter) (access : ConnectionAccess) (target : Str) (others : List TableInfo)
      (c c' : Call) (keys : List Relationship)
      → referencing u clock limit store adapters adapter access target others c ≡ (ok keys, c')
      → All (λ k. Referrer u access adapter others target k) keys
  unfolding referencing
  referencing-Referrer adapter access target [] c c' keys h =
      let (e, _) = pure-eq-ok [] keys c c' h in
      subst (λ q. All (λ k. Referrer u access adapter [] target k) q) e tt
  referencing-Referrer adapter access target (other ∷ others) c c' keys h =
      go (not (is_table other.kind) || not (allows u access other.name)) refl
        (λ d d' ks x.
          All-map (λ k y. Referrer-more u access adapter other others target k y) ks
            (referencing-Referrer adapter access target others d d' ks x))
        h
    where
      From : Relationship → Type 0
      From k = Referrer u access adapter (other ∷ others) target k

      later : Exec Call (List Relationship)
      later = referencing u clock limit store adapters adapter access target others

      found : List Relationship → List Relationship
      found ks = keep_if (λ fk. str_eq (casefold u fk.to_table) (casefold u target)) ks

      round : Exec Call (List Relationship)
      round = do
        described ← outside (adapter.describe_table other.name)
        more ← later
        pure (found described.foreign_keys ++ more)

      go :
          (b : Bool)
          → (not (is_table other.kind) || not (allows u access other.name)) ≡ b
          → ((d d' : Call) (ks : List Relationship) → later d ≡ (ok ks, d') → All From ks)
          → (if b then later else round) c ≡ (ok keys, c')
          → All From keys
      go true e ih x = ih c c' keys x
      go false e ih x =
          let (t, c₁, a, h₁) = bind-eq-ok (outside (adapter.describe_table other.name)) _ c c' x in
          let (more, c₂, l, h₂) = bind-eq-ok later _ c₁ c' h₁ in
          let (same, _) = pure-eq-ok (found t.foreign_keys ++ more) keys c₂ c' h₂ in
          let (w, q) = outside-eq-ok (adapter.describe_table other.name) t c c₁ a in
          let (kind, seen) = neither _ _ e in
          subst (λ ks. All From ks) same
            (All-append From (found t.foreign_keys) more
              (All-of-IsIn From (found t.foreign_keys) (λ k i.
                let (j, y) =
                  keep_if-IsIn (λ fk. str_eq (casefold u fk.to_table) (casefold u target)) k
                    t.foreign_keys i in
                record {
                  other = other;
                  listed = inl refl;
                  no_view = kind;
                  visible = seen;
                  shape = t;
                  asked_at = c.world;
                  asked = ap (λ p. p.0) q;
                  is_key = j;
                  into = (str_eq_iff (casefold u k.to_table) (casefold u target)).0 y;
                }))
              (ih c₁ c₂ more l))
