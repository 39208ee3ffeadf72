-- ===== src/Backend/Consistent/Handled.antt =====
-- Any requests of administrators, on tables that are consistent.
use mcp_server_for_sql_agent.Backend.Requests.{Surroundings, Request, handle, handle_all}
use mcp_server_for_sql_agent.Backend.Consistent.Requests.{Aside, effect-Stays}
use mcp_server_for_sql_agent.Backend.Consistent.Handlers.{
  add_subject-Stays, change_table_access-Stays, change_tool_access-Stays, set_access-Stays,
}
use mcp_server_for_sql_agent.Backend.Consistent.Settings.{
  create_connection-Stays, update_connection-Stays, delete_connection-Stays,
  test_saved_connection-Stays,
}
use mcp_server_for_sql_agent.Backend.Consistent.Written.{
  create_report-Stays, update_report-Stays, delete_report-Stays,
}
use mcp_server_for_sql_agent.Backend.Consistent.Described.{
  set_description-Stays, delete_descriptions-Stays,
}
use mcp_server_for_sql_agent.Prelude.{◌∷◌, [], List}
use mcp_server_for_sql_agent.Backend.{User}
use mcp_server_for_sql_agent.World.{World}
use mcp_server_for_sql_agent.Backend.Consistent.{IsConsistent}

module _ {Tree : Type 0} (s : Surroundings Tree) where
  handle-IsConsistent :
      (aside : Aside s) (request : Request) (admin : User) (w : World)
      → IsConsistent s.unicode s.sqlglot w.app_meta
      → IsConsistent s.unicode s.sqlglot (handle s request admin w).1.app_meta
  unfolding handle
  handle-IsConsistent a (Request.add_subject subject name) admin =
      effect-Stays s a _ (add_subject-Stays s a subject name admin)
  handle-IsConsistent a (Request.change_tables body) admin =
      effect-Stays s a _ (change_table_access-Stays s a body admin)
  handle-IsConsistent a (Request.change_tools body) admin =
      effect-Stays s a _ (change_tool_access-Stays s a body admin)
  handle-IsConsistent a (Request.create_connection body) admin =
      effect-Stays s a _ (create_connection-Stays s a body admin)
  handle-IsConsistent a (Request.update_connection id body) admin =
      effect-Stays s a _ (update_connection-Stays s a id body admin)
  handle-IsConsistent a (Request.delete_connection id) admin = delete_connection-Stays s a id admin
  handle-IsConsistent a (Request.test_connection id) admin =
      effect-Stays s a _ (test_saved_connection-Stays s a id)
  handle-IsConsistent a (Request.set_access id subjects) admin =
      effect-Stays s a _ (set_access-Stays s a id subjects admin)
  handle-IsConsistent a (Request.create_report body) admin =
      effect-Stays s a _ (create_report-Stays s a body admin)
  handle-IsConsistent a (Request.update_report id body) admin =
      effect-Stays s a _ (update_report-Stays s a id body admin)
  handle-IsConsistent a (Request.delete_report id) admin = delete_report-Stays s a id admin
  handle-IsConsistent a (Request.set_description body) admin =
      effect-Stays s a _ (set_description-Stays s a body admin)
  handle-IsConsistent a (Request.delete_descriptions id table) admin =
      delete_descriptions-Stays s a id table admin

  -- If caching, opening a target database, reading its schema and testing it leave app_meta alone, any number of requests of administrators, whether they succeed or fail, keep app_meta consistent: each grant of a connection or a table and each description is for a connection that is registered, and each saved report is on a registered connection and is a query that the validator accepts for the connection's engine.
  pub handle_all-IsConsistent :
      (aside : Aside s) (requests : List (Request × User)) (w : World)
      → IsConsistent s.unicode s.sqlglot w.app_meta
      → IsConsistent s.unicode s.sqlglot (handle_all s requests w).app_meta
  unfolding handle_all
  handle_all-IsConsistent aside [] w c = c
  handle_all-IsConsistent aside ((request, admin) ∷ rest) w c =
      handle_all-IsConsistent aside rest (handle s request admin w).1
        (handle-IsConsistent aside request admin w c)
