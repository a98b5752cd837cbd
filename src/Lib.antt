-- ===== src/Lib.antt =====
-- The agent service of app/agent: a client sends a message, the service stores it as a run, a
-- worker takes the run from the queue, executes it and appends its events, and clients read the
-- events.
--
-- How the parts interact. `AgentRuntime` (app/agent/runtime.py) creates a run with the store and
-- reserves its quota with the gate; its workers, in any number of processes, lease runs from the
-- store, execute the graph and end each run by an event; the store (app/agent/store.py) holds runs,
-- events, conversation memory and state, and metrics in one SQLite database.
--
-- Files.
--  * Json, Text, Clock, Errors: the values that the program shares. Errors is app/agent/errors.py,
--    and the exceptions that the modelled code raises or catches. Clock is `iso_utc`.
--  * Table: the SQL statements of the store over lists of rows.
--  * Store: app/agent/store.py. Schema has the tables of `_initialize_once` and the records of
--    rows; Transaction `_connect` and
--    `_write_with_retry`, which Retry is about; Create `create_or_attach`; Lease
--    `claim_next_run`, `renew_lease` and `release_lease`; Ledger `append_event`; Commit
--    `complete_run_with_memory` and `get_conversation_state`; Memory `save_conversation_memory`
--    and `list_conversation_memory`; Replay the methods that read; Metrics the metrics and the
--    quota ledger. Change and Operations say how an operation changes runs and events, and Trace
--    runs any sequence of calls by any workers, with the lives of runs as an abstract view in Lives.
--  * Quota: app/agent/quota.py, the gate without Redis. Window and Tokens have its laws.
--  * Runtime: app/agent/runtime.py. Admission is `start_run` and the `finally` block of
--    `_execute`; Endings `_fail_run`, `cancel_run`, `_complete_run` and the cancellation of
--    `_execute`; Answer the pieces of an answer; Stream `stream_events` and `status_data`; Catalog
--    the tool catalog and its health, which Readiness is about; Fallback
--    `_complete_with_answer_fallback`; Failing and Refusals what `_fail_run` and a refusal leave.
--  * Tools: app/tools/spring_client.py, `invoke_with_recovery`; Attempts and Recovery are
--    about it.
--  * Python: values of JSON as the code reads them: `int`, `str`, indexing and iteration. Numbers
--    holds what is left open of them: reading and writing numbers, and floating-point numbers.
--    Samples has such numbers for the examples.
--  * Workflow: app/agent/workflow.py. Geometry has the tests of a geometry, Consistency
--    `validate_tool_result_consistency`, Results `build_map_result`, Execution the node
--    `execute_map_tools`, and Acceptance which response of a tool it takes; Limits and Balance are
--    about them. Planning has `normalize_catalog` and
--    the calls of `plan_map`; Names and Budget are about them. Phrases has what the code reads of
--    numbers and levels in a query, with the regular expressions as texts, Queries the tests of a
--    query, and Routing the node `route_intent`, which Intents is about. Criteria, Preferences and Housing make the arguments
--    of a housing search; Ranges, Weights, Grounded and Node are about them, and Node has the node
--    `plan_housing_search`. Candidates and HousingMap have `build_housing_search_map_result`, which
--    Matching and Counted are about. Answering has the node `compose_answer`, which Cited is about, and
--    References `concise_rag_result_answer`, which Selection is about. Graph has the edges of
--    `build_agent_graph` and `observe_stage`; Edges and Stages are about them. Summary is
--    app/agent/map_summary.py.
--  * Rag: app/rag/chunking.py, `_split_content` in Splitting, with Groups and Parts about it; Sections
--    has the division into sections, Contents what is told by a text, and Chunking `chunk_document`,
--    with Ordinals about it.
--  * Conversation: app/agent/conversation.py, which queries ask for a summary of the conversation;
--    Kinds is about it.
--    Context and State are app/agent/conversation_state.py, `build_committed_state`; Commit is
--    about it. Followup has `contextualize_with_state` and `contextualize_followup_query`, and
--    Extends is about them.
--  * Capabilities: app/agent/capabilities.py, the terms that queries are searched for.
--
-- Conventions. A method is a function of the database, and returns its result or exception and the
-- database afterwards; `connect` keeps the old database beside an exception. The methods of the
-- store are modelled without their retry, which `write_with_retry` puts around them. Instants are
-- microseconds, and `iso_le` compares the texts that `iso_utc` makes of them. What a method reads
-- of a clock, of `uuid4` and of the settings is an argument. Stored JSON is the value itself; the
-- digest of arguments is a parameter, and the hash of a request comes with it. An event id is the
-- pair of the run and the number.
--
-- Bounds. The attempts to call a tool count down. The loop over the pieces of an answer runs on
-- fuel, the number of its characters, and each round takes at least one. The graph runs on fuel for
-- its longest way, six nodes. The retry loop counts its attempts down. All else is recursion on
-- lists.
--
-- Not modelled: `diagnostics` and the migrations of the store, which no other part uses; the Redis
-- branch of the gate, which is a script for the Redis server; the asyncio tasks of the workers and
-- the checkpointer; the node `retrieve_knowledge`, and the prompts of the other nodes, which are
-- parameters of Graph and have their bodies in the modules above; `str.lower`, regular expressions and floating-point
-- numbers, which are parameters; the HTTP calls of the map service and the schemas of its catalog,
-- which are parameters; MongoDB, the language model, embeddings and search (the rest of app/rag)
-- and the HTTP routes (app/api), which pass requests on to the parts above.
mod Prelude
pub mod Json
pub mod Errors
pub mod Clock
pub mod Text
pub mod Table
pub mod Store
pub mod Quota
pub mod Runtime
pub mod Capabilities
pub mod Conversation
pub mod Tools
pub mod Python
pub mod Workflow
pub mod Rag
