-- ===== src/Tests/Caches.antt =====
-- The caches on concrete values.
use mcp_server_for_sql_agent.Prelude.Sorting.{sorted}
use mcp_server_for_sql_agent.Cache.Fingerprint.{subjects_text, fingerprint-SameSubjects}
use mcp_server_for_sql_agent.Cache.Stored.{
  join_lines, sorted_subjects, subject_text, subjects_fingerprint,
}
use mcp_server_for_sql_agent.Validator.Segments.{NoLineEnd}
use mcp_server_for_sql_agent.Models.{Subject, user, role}
use mcp_server_for_sql_agent.Prelude.{refl, IsIn, All-IsIn, ◌↔◌}
use mcp_server_for_sql_agent.Errors.{ok}
use mcp_server_for_sql_agent.Exec.{Exec}
use mcp_server_for_sql_agent.World.{World}
use mcp_server_for_sql_agent.Cache.{Cache, cached_json}
use mcp_server_for_sql_agent.Cache.Redis.{Redis, failed, Guarded, perform_all, perform_all-open}
use mcp_server_for_sql_agent.Cache.Answers.{Answers, cached_json-Answers}
use mcp_server_for_sql_agent.Tests.Setup.{world, clock}
use mcp_server_for_sql_agent.Prelude.{arith, ◌∷◌, [], List, some, ◌≡◌, ◌<◌, ◌+◌, ℕ}
use mcp_server_for_sql_agent.Prelude.Strs.{codes, Str}

-- a Redis that is down
abbrev down : Redis
down = record {
  get = λ k w. (failed, w);
  set = λ k v t w. (failed, w);
  get_number = λ k w. (failed, w);
  incr = λ k w. (failed, w);
}

abbrev paused : World
paused = record world { cache_down_until = 1000 }

abbrev asks : List Guarded
asks = Guarded.get (codes "a") ∷ Guarded.version (codes "meta") ∷ []

early : (n : ℕ) → n < 2 → clock (0 + n) < 1000
early n h = omega arith

perform_all-open_example : perform_all clock down asks paused ≡ record paused { readings = 2 }
perform_all-open_example = perform_all-open clock down asks paused early

-- a cache at version 3 that has one text under every key
abbrev stocked : Cache
stocked = record {
  get = λ k w. (some (codes "kept"), w);
  set = λ k v t w. w;
  version = λ f w. (some 3, w);
  bump = λ f w. w;
}

abbrev load : Exec World Str
load w = (ok (codes "fresh"), w)

cached_json-Answers_example :
    Answers stocked
      (λ s. some s)
      (λ s. s)
      (codes "meta")
      (codes "k")
      load
      (cached_json stocked (λ s. some s) (λ s. s) (codes "meta") (codes "k") 60 load world).0
cached_json-Answers_example =
    cached_json-Answers stocked (λ s. some s) (λ s. s) (codes "meta") (codes "k") 60 load world

abbrev analyst_first : List Subject
analyst_first = (role, codes "a") ∷ (user, codes "al") ∷ []

abbrev user_first : List Subject
user_first = (user, codes "al") ∷ (role, codes "a") ∷ []

-- `al` is an analyst, in whatever order that is said.
same_fingerprint :
    subjects_fingerprint (λ s. s) analyst_first ≡ subjects_fingerprint (λ s. s) user_first
unfolding subjects_fingerprint
same_fingerprint = refl

one_line : (s : Subject) → IsIn s analyst_first → NoLineEnd s.1
one_line s i =
    All-IsIn (λ (q : Subject). NoLineEnd q.1) s analyst_first ((refl, tt), ((refl, (refl, tt)), tt))
      i

one_line_too : (s : Subject) → IsIn s user_first → NoLineEnd s.1
one_line_too s i =
    All-IsIn (λ (q : Subject). NoLineEnd q.1) s user_first ((refl, (refl, tt)), ((refl, tt), tt)) i

same_text : subjects_text analyst_first ≡ subjects_text user_first
unfolding sorted_subjects
same_text = refl

fingerprint-SameSubjects_example :
    IsIn {A = Subject} (role, codes "a") analyst_first
    ↔ IsIn {A = Subject} (role, codes "a") user_first
fingerprint-SameSubjects_example =
    fingerprint-SameSubjects (λ s. s) analyst_first user_first (λ e. same_text) one_line
      one_line_too same_fingerprint (role, codes "a")

-- With a line end in a name, different subjects have the same text.
joined_alike :
    subjects_text ((role, codes "r") ∷ (user, codes "p\nuser:q") ∷ [])
    ≡ subjects_text ((role, codes "r\nuser:p") ∷ (user, codes "q") ∷ [])
unfolding sorted_subjects sorted subject_text join_lines
joined_alike = refl
