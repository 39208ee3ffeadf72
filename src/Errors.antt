-- ===== src/Errors.antt =====
-- mcp-server/mcp_sql_server/errors.py, with the messages that the other files put into the
-- errors: an error carries what its message shows, and `message` is `str(error)`.
pub mod Message
use mcp_server_for_sql_agent.Prelude.{◌≢◌, true, refl, false, ◌≡◌, Bool, ℕ}
use mcp_server_for_sql_agent.Prelude.Strs.{Str}

-- Why `QueryValidator` refuses a text.
pub data Rejection : Type 0 where
  empty_sql null_character several_statements not_select_text row_locking : Rejection
  space_after_dashes executable_comment unterminated_comment : Rejection
  unterminated_dollar_quote backslash_in_quotes unterminated_quote : Rejection
  unparseable not_a_query data_changing tables_unknown : Rejection
  too_long : ℕ → Rejection
  forbidden_keyword dangerous_function : Str → Rejection

-- The arguments that have a range: the argument's name and its largest value or length.
pub data RangeError : Type 0 where
  value_range length_range : Str → ℕ → RangeError

pub data McpSqlError : Type 0 where
  tool_not_permitted connection_not_found connection_unavailable table_not_found : Str → McpSqlError
  invalid_argument : RangeError → McpSqlError
  query_rejected : Rejection → McpSqlError
  query_timeout query_failed : Str → McpSqlError
  explain_not_supported audit_write_error not_authenticated : McpSqlError

-- What can be raised: one of the program's own errors, another `Exception`, of which the type's
-- name is kept, or `asyncio.CancelledError`, which is a `BaseException` and no `Exception`. `http` is
-- FastAPI's `HTTPException`, with the status and the detail, which only gui_backend raises.
pub data Exn : Type 0 where
  domain : McpSqlError → Exn
  unexpected : Str → Exn
  cancelled : Exn
  http : ℕ → Str → Exn

pub data Result {ℓ} (A : Type ℓ) : Type ℓ where
  ok : A → Result A
  raised : Exn → Result A

abbrev pub reject {ℓ} : {A : Type ℓ} → Rejection → Result A
reject r = raised (domain (query_rejected r))

-- An exception skips the rest.
infixl 5 ◌>>=◌ ◌>>◌
abbrev pub ◌>>=◌ {ℓ κ} : {A : Type ℓ} {B : Type κ} → Result A → (A → Result B) → Result B
◌>>=◌ (raised x) next = raised x
◌>>=◌ (ok result) next = next result

-- A step that has no result, and the rest.
abbrev pub ◌>>◌ {ℓ} : {B : Type ℓ} → Result (Unit {0}) → Result B → Result B
check >> rest = check >>= λ _. rest

-- `if b: raise QueryRejected(r)`
abbrev pub reject_if : Bool → Rejection → Result (Unit {0})
reject_if true r = reject r
reject_if false r = ok tt

pub reject_if-eq-ok : (b : Bool) (r : Rejection) → reject_if b r ≡ ok tt → b ≡ false
reject_if-eq-ok true r h = cc
reject_if-eq-ok false r h = refl

-- When the whole succeeds, so does the first step, and then the rest.
pub >>-eq-ok {ℓ} :
    {B : Type ℓ} (check : Result (Unit {0})) (rest : Result B) {b : B}
    → (check >> rest) ≡ ok b
    → (check ≡ ok tt) × (rest ≡ ok b)
>>-eq-ok (raised x) rest h = cc
>>-eq-ok (ok tt) rest h = (refl, h)

pub >>=-eq-ok {ℓ κ} :
    {A : Type ℓ} {B : Type κ} (first : Result A) (next : A → Result B) {last : B}
    → (first >>= next) ≡ ok last
    → (result : A) × (first ≡ ok result) × (next result ≡ ok last)
>>=-eq-ok (raised x) next h = cc
>>=-eq-ok (ok result) next h = (result, refl, h)

pub ok-eq {ℓ} : {A : Type ℓ} {a b : A} → ok a ≡ ok b → a ≡ b
ok-eq h = cc h

pub ok-ne-raised {ℓ} : {A : Type ℓ} {a : A} {e : Exn} → raised e ≢ ok a
ok-ne-raised h = cc h
