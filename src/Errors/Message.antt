-- ===== src/Errors/Message.antt =====
-- `str(error)`: the messages, from the places that raise the errors.
use mcp_server_for_sql_agent.Prelude.Decimal.{decimal}
use mcp_server_for_sql_agent.Errors.{
  Rejection, empty_sql, null_character, several_statements, not_select_text, row_locking,
  space_after_dashes, executable_comment, unterminated_comment, unterminated_dollar_quote,
  backslash_in_quotes, unterminated_quote, unparseable, not_a_query, data_changing, tables_unknown,
  too_long, forbidden_keyword, dangerous_function, RangeError, value_range, length_range,
  McpSqlError, tool_not_permitted, connection_not_found, connection_unavailable, table_not_found,
  invalid_argument, query_rejected, query_timeout, query_failed, explain_not_supported,
  audit_write_error, not_authenticated,
}
use mcp_server_for_sql_agent.Prelude.Strs.{codes, Str}
use mcp_server_for_sql_agent.Prelude.{◌++◌}

unfoldable pub rejection_message : Rejection → Str
rejection_message empty_sql = codes "The SQL is empty."
rejection_message (too_long n) =
    codes "The SQL is longer than the " ++ (decimal n ++ codes "-character limit.")
rejection_message null_character = codes "The SQL contains a null character."
rejection_message several_statements = codes "Only a single SQL statement is allowed."
rejection_message not_select_text =
    codes "Only read-only SELECT queries are allowed (SELECT or WITH ... SELECT)."
rejection_message (forbidden_keyword w) =
    codes "The keyword "
    ++ (w ++ codes " is not allowed. Only read-only SELECT queries can be run.")
rejection_message row_locking =
    codes "Row-locking clauses (FOR SHARE / FOR UPDATE) are not allowed."
rejection_message (dangerous_function f) = codes "The function " ++ (f ++ codes " is not allowed.")
rejection_message unparseable =
    codes
      "The SQL could not be parsed as a single SELECT query. Check the syntax, or simplify the query."
rejection_message not_a_query = codes "Only read-only SELECT queries are allowed."
rejection_message data_changing =
    codes "The query contains a data-changing or structural statement."
rejection_message tables_unknown =
    codes "The query's tables could not be determined. Try a simpler query."
rejection_message space_after_dashes = codes "Put a space after '--' to start a comment."
rejection_message executable_comment =
    codes "MySQL executable comments (/*! ... */) are not allowed."
rejection_message unterminated_comment = codes "The SQL has an unterminated comment."
rejection_message unterminated_dollar_quote =
    codes "The SQL has an unterminated dollar-quoted string."
rejection_message backslash_in_quotes =
    codes "Backslashes inside quoted text are not supported. Rewrite the query without them."
rejection_message unterminated_quote =
    codes "The SQL has an unterminated quoted string or identifier."

range_message : RangeError → Str
range_message (value_range name n) =
    name ++ (codes " must be between 1 and " ++ (decimal n ++ codes "."))
range_message (length_range name n) =
    name ++ (codes " must be between 1 and " ++ (decimal n ++ codes " characters."))

unfoldable pub message : McpSqlError → Str
unfolding rejection_message range_message
message (tool_not_permitted tool) =
    codes "You are not permitted to use the '" ++ (tool ++ codes "' tool.")
message (connection_not_found name) =
    codes "Connection '" ++ (name ++ codes "' was not found or is not available to you.")
message (connection_unavailable name) =
    codes "The connection '"
    ++ (name ++ codes "' is currently unavailable. Contact an administrator.")
message (table_not_found name) =
    codes "Table '" ++ (name ++ codes "' was not found or is not available to you.")
message (invalid_argument r) = range_message r
message (query_rejected r) = rejection_message r
message (query_timeout limit) = codes "The query exceeded the " ++ (limit ++ codes "s time limit.")
message (query_failed text) = text
message explain_not_supported =
    codes
      "Query plans are not available for SQL Server connections. Use run_query with a small row_limit to sanity-check the query instead."
message audit_write_error =
    codes
      "The request could not be recorded in the audit log, so its result is being withheld. Try again later."
message not_authenticated = codes "Authentication is required."
