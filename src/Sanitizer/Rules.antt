-- ===== src/Sanitizer/Rules.antt =====
-- `_RULES` of services/sanitizer.py, pattern by pattern; they ignore case, and `.` is any character.
use Prim.Native.String.{String}
use mcp_server_for_sql_agent.Regex.{
  Pattern, empty, one, seq, alt, star, word_boundary, line_start, any_pattern, plus, optional,
}
use mcp_server_for_sql_agent.Validator.Patterns.{same_letter, word}
use mcp_server_for_sql_agent.Prelude.{Bool, map, ◌∷◌, [], List, true, suc, zero, ℕ}
use mcp_server_for_sql_agent.Prelude.Strs.{codes, Str}

-- The patterns one after another.
abbrev pub in_order : List Pattern → Pattern
in_order [] = empty
in_order (p ∷ []) = p
in_order (p ∷ q ∷ ps) = seq p (in_order (q ∷ ps))

abbrev pub words : List String → Pattern
words ws = any_pattern (map word ws)

-- `.{0,n}`
abbrev pub any_up_to : ℕ → Pattern
any_up_to zero = empty
any_up_to (suc n) = optional (seq (one (λ c. true)) (any_up_to n))

abbrev pub whole : Pattern → Pattern
whole p = in_order (word_boundary ∷ p ∷ word_boundary ∷ [])

abbrev pub character : ℕ → Pattern
character c = one (same_letter c)

-- `["']`
abbrev pub quote_mark : Pattern
quote_mark = alt (character b'"') (character b'\'')

abbrev pub tool_names : List String
tool_names =
    "list_connections" ∷ "list_tables" ∷ "describe_table" ∷ "search_schema" ∷ "get_relationships"
    ∷ "run_query" ∷ "explain_query" ∷ "get_sample_rows" ∷ []

unfoldable pub ignore_instructions_re : Pattern
ignore_instructions_re = in_order (
    whole (words ("ignore" ∷ "disregard" ∷ "forget" ∷ "override" ∷ []))
    ∷ any_up_to 40
    ∷ whole (words ("previous" ∷ "prior" ∷ "above" ∷ "earlier" ∷ "all" ∷ "any" ∷ "your" ∷ []))
    ∷ any_up_to 40
    ∷ word_boundary
    ∷ words ("instruction" ∷ "prompt" ∷ "rule" ∷ "direction" ∷ "guideline" ∷ [])
    ∷ optional (character b's')
    ∷ word_boundary
    ∷ [])

module _ (is_space : ℕ → Bool) where
  abbrev spaces : Pattern
  spaces = plus (one is_space)

  abbrev spaces_or_none : Pattern
  spaces_or_none = star (one is_space)

  unfoldable pub addresses_the_assistant_re : Pattern
  addresses_the_assistant_re = any_pattern (
      in_order (
        word_boundary
        ∷ words ("system" ∷ "assistant" ∷ "developer" ∷ "admin" ∷ [])
        ∷ spaces
        ∷ words ("notice" ∷ "message" ∷ "prompt" ∷ "instruction" ∷ "note" ∷ "override" ∷ [])
        ∷ word_boundary
        ∷ [])
      ∷ in_order (
          word_boundary
          ∷ words ("note" ∷ "message" ∷ "notice" ∷ "instruction" ∷ [])
          ∷ optional (character b's')
          ∷ spaces
          ∷ words ("to" ∷ "for" ∷ [])
          ∷ spaces
          ∷ optional (seq (word "the") spaces)
          ∷ words ("assistant" ∷ "ai" ∷ "model" ∷ "llm" ∷ "agent" ∷ [])
          ∷ word_boundary
          ∷ [])
      ∷ in_order (
          word_boundary
          ∷ word "you"
          ∷ spaces
          ∷ any_pattern (
              word "must"
              ∷ word "should"
              ∷ in_order (word "are" ∷ spaces ∷ word "required" ∷ spaces ∷ word "to" ∷ [])
              ∷ in_order (word "have" ∷ spaces ∷ word "to" ∷ [])
              ∷ [])
          ∷ spaces
          ∷ words ("now" ∷ "immediately" ∷ [])
          ∷ word_boundary
          ∷ [])
      ∷ [])

  unfoldable pub tool_call_markup_re : Pattern
  tool_call_markup_re = any_pattern (
      in_order (
        word "<"
        ∷ spaces_or_none
        ∷ optional (word "/")
        ∷ spaces_or_none
        ∷ words (
            "tool_call" ∷ "tool_use" ∷ "function_call" ∷ "function_calls" ∷ "invoke" ∷ "tool_result"
            ∷ [])
        ∷ word_boundary
        ∷ [])
      ∷ in_order (word_boundary ∷ words tool_names ∷ spaces_or_none ∷ word "(" ∷ [])
      ∷ in_order (
          quote_mark
          ∷ word "name"
          ∷ quote_mark
          ∷ spaces_or_none
          ∷ word ":"
          ∷ spaces_or_none
          ∷ quote_mark
          ∷ words tool_names
          ∷ quote_mark
          ∷ [])
      ∷ [])

  unfoldable pub chat_template_tokens_re : Pattern
  chat_template_tokens_re = any_pattern (
      in_order (
        word "<|"
        ∷ spaces_or_none
        ∷ words ("im_start" ∷ "im_end" ∷ "system" ∷ "user" ∷ "assistant" ∷ "endoftext" ∷ [])
        ∷ spaces_or_none
        ∷ word "|>"
        ∷ [])
      ∷ in_order (word "[" ∷ optional (word "/") ∷ word "inst]" ∷ [])
      ∷ in_order (
          word "<<"
          ∷ spaces_or_none
          ∷ optional (word "/")
          ∷ word "sys"
          ∷ spaces_or_none
          ∷ word ">>"
          ∷ [])
      ∷ in_order (
          line_start
          ∷ spaces_or_none
          ∷ word "##"
          ∷ star (word "#")
          ∷ spaces_or_none
          ∷ words ("system" ∷ "instruction" ∷ [])
          ∷ optional (character b's')
          ∷ word_boundary
          ∷ [])
      ∷ [])

  unfoldable pub rules : List (Str × Pattern)
  unfolding ignore_instructions_re addresses_the_assistant_re tool_call_markup_re
      chat_template_tokens_re
  rules =
      (codes "ignore_instructions", ignore_instructions_re)
      ∷ (codes "addresses_the_assistant", addresses_the_assistant_re)
      ∷ (codes "tool_call_markup", tool_call_markup_re)
      ∷ (codes "chat_template_tokens", chat_template_tokens_re)
      ∷ []
