-- ===== src/Registry/Keeps.antt =====
-- The entries that `adapter_for` of services/connection_registry.py keeps.
use mcp_server_for_sql_agent.Errors.{ok-eq, ok-ne-raised, Result, ok, Exn}
use mcp_server_for_sql_agent.Models.{ConnectionRecord}
use mcp_server_for_sql_agent.Values.{Json}
use mcp_server_for_sql_agent.Registry.{
  EngineUrl, Entry, Registry, find_entry, remove_entry, store_opened, replace, with_entry,
  adapter_for,
}
use mcp_server_for_sql_agent.Prelude.{
  sym, ==_refl, arith, map, ◌∷◌, [], List, some, none, Option, false, true, Bool, inr, inl, ◌⊎◌,
  ◌≢◌, subst, ◌∙◌, ap, refl, ◌≡◌, ◌<◌, suc, IsIn, Bool-cases, if◌then◌else◌, ◌==◌, ℕ,
}
use mcp_server_for_sql_agent.Prelude.Strs.{Str}
use mcp_server_for_sql_agent.Regex.{some-eq-some}

-- No two entries are for one connection.
abbrev pub IsOnce : List Entry → Type 0
IsOnce [] = Unit
IsOnce (e ∷ es) = (find_entry e.id es ≡ none) × IsOnce es

abbrev pub IsLive : ℕ → List Entry → Type 0
IsLive h es = IsIn h (map (λ e. e.adapter) es)

-- Every adapter that was opened is the one of an entry, or was closed.
pub record IsSound (s : Registry) : Type 0 where
  pub once : IsOnce s.adapters
  pub accounted : (h : ℕ) → h < s.next → IsLive h s.adapters ⊎ IsIn h s.closed

==_eq : (m n : ℕ) → m == n ≡ true → m ≡ n
==_eq m n h = ground arith

below-suc : (h n : ℕ) → h < suc n → (h ≡ n) ⊎ (h < n)
below-suc h n b = elim (Bool-cases (h == n)) [
  | inl e ↦ inl (==_eq h n e)
  | inr e ↦ inr (ground arith)
]

find_entry-skip :
    (id : ℕ) (e : Entry) (es : List Entry)
    → e.id == id ≡ false
    → find_entry id (e ∷ es) ≡ find_entry id es
unfolding find_entry
find_entry-skip id e es q = rw q

some-ne-none : {x : Entry} → some x ≢ none
some-ne-none y = cc y

remove_entry-absent : (id : ℕ) (es : List Entry) → find_entry id es ≡ none → remove_entry id es ≡ es
unfolding find_entry remove_entry
remove_entry-absent id [] h = refl
remove_entry-absent id (e ∷ es) h = elim (Bool-cases (e.id == id)) [
  | inl q ↦ absurd (some-ne-none (rw q at h))
  | inr q ↦ rw q (ap (λ x. e ∷ x) (remove_entry-absent id es (rw q at h)))
]

find-remove_entry : (id : ℕ) (es : List Entry) → find_entry id (remove_entry id es) ≡ none
unfolding find_entry remove_entry
find-remove_entry id [] = refl
find-remove_entry id (e ∷ es) = elim (Bool-cases (e.id == id)) [
  | inl q ↦ rw q (find-remove_entry id es)
  | inr q ↦ rw q (find_entry-skip id e (remove_entry id es) q ∙ find-remove_entry id es)
]

find-remove_entry_other :
    (j id : ℕ) (es : List Entry) → find_entry j es ≡ none → find_entry j (remove_entry id es) ≡ none
unfolding find_entry remove_entry
find-remove_entry_other j id [] h = refl
find-remove_entry_other j id (e ∷ es) h = elim (Bool-cases (e.id == j)) [
  | inl q ↦ absurd (some-ne-none (rw q at h))
  | inr q ↦ go (e.id == id) q (find-remove_entry_other j id es (rw q at h))
]
  where
    go :
        (a : Bool)
        → e.id == j ≡ false
        → find_entry j (remove_entry id es) ≡ none
        → find_entry j (if a then remove_entry id es else e ∷ remove_entry id es) ≡ none
    go true q ih = ih
    go false q ih = find_entry-skip j e (remove_entry id es) q ∙ ih

remove_entry-IsOnce : (id : ℕ) (es : List Entry) → IsOnce es → IsOnce (remove_entry id es)
unfolding remove_entry
remove_entry-IsOnce id [] h = tt
remove_entry-IsOnce id (e ∷ es) h = go (e.id == id) (remove_entry-IsOnce id es h.1)
  where
    go :
        (b : Bool)
        → IsOnce (remove_entry id es)
        → IsOnce (if b then remove_entry id es else e ∷ remove_entry id es)
    go true x = x
    go false x = (find-remove_entry_other e.id id es h.0, x)

-- The one entry that is removed is the one that was found.
remove_entry-IsLive :
    (id h : ℕ) (es : List Entry) (old : Entry)
    → IsOnce es
    → find_entry id es ≡ some old
    → IsLive h es
    → IsLive h (remove_entry id es) ⊎ (h ≡ old.adapter)
unfolding find_entry remove_entry
remove_entry-IsLive id h [] old once f m = absurd m
remove_entry-IsLive id h (e ∷ es) old once f m = elim (Bool-cases (e.id == id)) [
  | inl q ↦
      let same : e ≡ old = some-eq-some (rw q at f) in
      let gone : find_entry id es ≡ none =
        subst (λ n. find_entry n es ≡ none) (==_eq e.id id q) once.0 in
      elim m [
        | inl a ↦ inr (a ∙ ap (λ x. x.adapter) same)
        | inr a ↦ inl (rw (q, remove_entry-absent id es gone) a)
      ]
  | inr q ↦ elim m [
    | inl a ↦ inl (rw q (inl a))
    | inr a ↦ elim (remove_entry-IsLive id h es old once.1 (rw q at f) a) [
      | inl b ↦ inl (rw q (inr b))
      | inr b ↦ inr b
    ]
  ]
]

module _ (decrypt : Str → Option Str) (connects : EngineUrl → Option Json → ℕ → Bool)
    (close_fails : ℕ → Option Exn) where
  store_opened-IsSound :
      (b : Bool) (r : ConnectionRecord) (s : Registry)
      → find_entry r.id s.adapters ≡ none
      → IsSound s
      → IsSound (store_opened decrypt connects close_fails b r s).1
  store_opened-IsSound false r s f x = x
  store_opened-IsSound true r s f x = record {
    once = (f, x.once);
    accounted = λ h below. elim (below-suc h s.next below) [
      | inl e ↦ inl (inl e)
      | inr b ↦ elim (x.accounted h b) [ inl m ↦ inl (inr m) | inr m ↦ inr m ]
    ];
  }

  -- Whatever becomes of `adapter_for`, if the registry has at most one entry for each connection and has lost no adapter, that is each that was opened is in an entry or was closed, then the same holds afterwards.
  pub adapter_for-IsSound :
      (r : ConnectionRecord) (s : Registry)
      → IsSound s
      → IsSound (adapter_for decrypt connects close_fails r s).1
  unfolding adapter_for
  adapter_for-IsSound r s x = go (find_entry r.id s.adapters) refl
    where
      replaced :
          (old : Entry) (o : Option Exn)
          → find_entry r.id s.adapters ≡ some old
          → IsSound (replace decrypt connects close_fails o r old s).1
      replaced old (some e) f = x
      replaced old none f = store_opened-IsSound _ r _ (find-remove_entry r.id s.adapters) (record {
        once = remove_entry-IsOnce r.id s.adapters x.once;
        accounted = λ h below. elim (x.accounted h below) [
          | inl m ↦ elim (remove_entry-IsLive r.id h s.adapters old x.once f m) [
            | inl n ↦ inl n
            | inr e ↦ inr (inl e)
          ]
          | inr m ↦ inr (inr m)
        ];
      })

      found :
          (old : Entry) (b : Bool)
          → find_entry r.id s.adapters ≡ some old
          → IsSound (
              let p : Result ℕ × Registry =
                if b
                then (ok old.adapter, s)
                else replace decrypt connects close_fails (close_fails old.adapter) r old s in
              p.1)
      found old true f = x
      found old false f = replaced old (close_fails old.adapter) f

      go :
          (o : Option Entry)
          → find_entry r.id s.adapters ≡ o
          → IsSound (with_entry decrypt connects close_fails o r s).1
      go none f = store_opened-IsSound _ r s f x
      go (some old) f = found old (old.version == r.updated_at) f

  -- The entry of the connection is for its last edit, and holds the adapter `a`.
  pub record IsCurrent (r : ConnectionRecord) (a : ℕ) (s : Registry) : Type 0 where
    pub entry : Entry
    pub found : find_entry r.id s.adapters ≡ some entry
    pub version : entry.version ≡ r.updated_at
    pub adapter : entry.adapter ≡ a

  store_opened-IsCurrent :
      (b : Bool) (r : ConnectionRecord) (s s' : Registry) (a : ℕ)
      → store_opened decrypt connects close_fails b r s ≡ (ok a, s')
      → IsCurrent r a s'
  unfolding find_entry
  store_opened-IsCurrent false r s s' a h = absurd (ok-ne-raised (ap (λ q. q.0) h))
  store_opened-IsCurrent true r s s' a h =
      subst (λ q. IsCurrent r a q) (ap (λ q. q.1) h)
        (record {
          entry = record { id = r.id; version = r.updated_at; adapter = s.next };
          found = rw (==_refl r.id);
          version = refl;
          adapter = ok-eq (ap (λ q. q.0) h);
        })

  adapter_for-IsCurrent :
      (r : ConnectionRecord) (s s' : Registry) (a : ℕ)
      → adapter_for decrypt connects close_fails r s ≡ (ok a, s')
      → IsCurrent r a s'
  unfolding adapter_for
  adapter_for-IsCurrent r s s' a h = go (find_entry r.id s.adapters) refl h
    where
      replaced :
          (old : Entry) (o : Option Exn)
          → replace decrypt connects close_fails o r old s ≡ (ok a, s')
          → IsCurrent r a s'
      replaced old (some e) x = absurd (ok-ne-raised (ap (λ q. q.0) x))
      replaced old none x = store_opened-IsCurrent _ r _ s' a x

      found :
          (old : Entry) (b : Bool)
          → find_entry r.id s.adapters ≡ some old
          → old.version == r.updated_at ≡ b
          → (if b
              then (ok old.adapter, s)
              else replace decrypt connects close_fails (close_fails old.adapter) r old s)
            ≡ (ok a, s')
          → IsCurrent r a s'
      found old true f v x =
          subst (λ q. IsCurrent r a q) (ap (λ q. q.1) x)
            (record {
              entry = old;
              found = f;
              version = ==_eq old.version r.updated_at v;
              adapter = ok-eq (ap (λ q. q.0) x);
            })
      found old false f v x = replaced old (close_fails old.adapter) x

      go :
          (o : Option Entry)
          → find_entry r.id s.adapters ≡ o
          → with_entry decrypt connects close_fails o r s ≡ (ok a, s')
          → IsCurrent r a s'
      go none f x = store_opened-IsCurrent _ r s s' a x
      go (some old) f x = found old (old.version == r.updated_at) f refl x

  -- An adapter that `adapter_for` has given for a connection is given again, and nothing changes, when the same record of the connection comes next; so the record's edit is the one the adapter was opened for.
  pub adapter_for-again :
      (r : ConnectionRecord) (s s' : Registry) (a : ℕ)
      → adapter_for decrypt connects close_fails r s ≡ (ok a, s')
      → adapter_for decrypt connects close_fails r s' ≡ (ok a, s')
  unfolding adapter_for
  adapter_for-again r s s' a h =
      let c = adapter_for-IsCurrent r s s' a h in
      let same : c.entry.version == r.updated_at ≡ true =
        subst (λ v. v == r.updated_at ≡ true) (sym c.version) (==_refl r.updated_at) in
      ap (λ o. with_entry decrypt connects close_fails o r s') c.found ∙ go c.entry same c.adapter
    where
      go :
          (e : Entry)
          → e.version == r.updated_at ≡ true
          → e.adapter ≡ a
          → with_entry decrypt connects close_fails (some e) r s' ≡ (ok a, s')
      go e v d = rw v (ap (λ n. (ok n, s')) d)
