-- ===== src/Lib.antt =====
-- The control plane of an agent runtime that runs a language model and its tools in a graph: what
-- decides whether a call, a run, a tool, a task or a turn may go on.
--
-- A task is enqueued and given to a worker (TaskQueue). Its run is entered in the registry of runs
-- and gets a control handle (RunRegistry, TaskControl); the nodes of the graph ask the handle
-- between their steps whether to pause, to stop or to go on, and a watchdog ends a run that takes
-- too long. Calls of the model pass a circuit breaker (CircuitBreaker), requests of users a rate
-- limiter (RateLimit). A tenant's tasks are held to a quota (TenantQuota), only so many graphs run
-- at a time (ExecutionPool), a task has a budget of tokens and cost (ResourceBudget), and a call of
-- the model that fails is tried again (LlmRetry). A plan is an agenda of items that depend on one
-- another (TaskAgenda); its tools are put into stages, run, and their observations committed
-- (ToolStages). After them the convergence gate says whether the turn is done (Converge), the
-- contract of the turn whether it did what it promised and may be finalized (TurnContract).
-- Knowledge that is looked up was cut into parts before (Chunker). In the end the routers say which
-- node comes next (Router, and PlanningGate after planning), and the phase of the session says
-- whether it is to be planned again (SessionFsm).
--
-- Files, with the source that they model:
--   CircuitBreaker: app/services/circuit_breaker.py and the gauge of app/services/metrics_service.py.
--     The record Breaker is the class CircuitBreaker without its lock; allow_call, record_success,
--     record_failure and call are the methods, with the clock as an argument; Classify is
--     classify_llm_error and is_retryable_category, Registry get_llm_circuit_breaker.
--   TaskControl: app/services/task_control.py; Registry holds its two dictionaries. Signals models
--     app/services/execution_control.py (check_for_control_signal and what it asks) and the token of
--     app/services/foreground_execution.py.
--   RunRegistry: app/services/graph_run_registry.py; Watchdog adds finalize_timed_out_task of
--     app/services/turn_watchdog.py, which uses TaskControl and raises where the task store does.
--   RateLimit: app/services/rate_limit.py; Limiter is the dictionary of windows, Enforce the check of
--     a request.
--   TaskAgenda: app/services/task_agenda.py; Failure is propagate_failure, Replan
--     local_replan_slice, Merge merge_agenda_into_work_plan and agenda_summary.
--   ToolStages: app/services/tool_side_effect.py, app/services/tool_dag.py (Parse, Run) and
--     app/services/tool_commit_gate.py (Commit).
--   Converge: app/services/converge.py, with is_edit_applied of app/domain/action.py.
--   TaskQueue: app/services/task_queue_store.py; Priority is app/services/queue_priority.py.
--   SessionFsm: app/services/session_fsm.py, with merge_state of app/runtime/state.py and the payload
--     of app/services/turn_contract_lifecycle.py.
--   Router: app/runtime/router.py and route_after_reflection of app/runtime/reflection_router.py.
--   LlmRetry: with_retry of app/services/llm_client.py, with the breaker of CircuitBreaker.
--   ResourceBudget: app/services/resource_budget.py; the record BudgetContext is the class, State the
--     two keys of the state that it is written to.
--   ExecutionPool: app/services/graph_execution_pool.py; a move of a thread is what it does from one
--     wait to the next, and to compute the deadline, before the lock, is a move of its own.
--   TenantQuota: app/services/tenant_quota.py with the counters in memory, and what start_task of
--     app/services/graph_runner.py asks of it: begin_task is its two calls with nothing between them,
--     Steps takes them as the two steps that they are.
--   TurnContract: app/services/turn_contract.py; Guard is app/services/turn_guard.py, with the phases
--     of SessionFsm.
--   PlanningGate: app/runtime/planning_gate_router.py, with the replan signal of
--     app/services/planning_retry_signals.py, on the states of Router and TurnContract.
--   Chunker: _split_paragraphs_with_overlap of app/services/knowledge_chunker.py, on lists of codes.
--   Prelude: shared names, tests, lists, dictionaries, integers and texts.
-- A component's child modules hold its proofs, each named for what it proves; Examples holds tests
-- on concrete values. Functions have the names they have in the source, without a leading underscore.
--
-- State is passed explicitly: an operation takes the state and gives the next one with its answer,
-- and locks make each operation one step. A dictionary is an association list in which a key stands
-- once. Times are counts of ticks. An exception is a value of a result type. A value of any type in a
-- dictionary of the source is an Option or the truth of the value, as the code asks for it.
--
-- Bounds and fuel: four loops run on fuel. Each round of ToolStages.layers takes at least one node out
-- of those that remain, so as many rounds as there are nodes are enough, for every graph. Each round
-- of TaskAgenda.Failure.spread takes an id off the queue, and an id is put there only when it is
-- blocked, once, so one round for each row and one for the failed item are enough; without fuel it
-- would answer none. Each nested call of TaskAgenda.Replan.collect_blocked has one row more among the
-- ids, so a depth of as many calls as there are rows is enough. Each window of Chunker.windows begins
-- at least one character after the one before it, so one round for each character is enough.
-- Counts are natural numbers without a bound, as in the source; priorities are signed integers.
--
-- Not modelled: Redis, the store of task states, SQL's order, the pool of threads and the clock are arguments; a Python set is
-- gone through in some order, which is an argument too. What the convergence gate, the routers and
-- the guard ask other services about the same state is part of what they are given. Interrupt
-- control is outside, and so is the making of agenda items out of the steps of a plan. The HTTP
-- interface, the clients of the language model, retrieval, writing, skills and the front end are
-- input, output and text around these decisions.
mod Prelude
pub mod CircuitBreaker
pub mod TaskControl
pub mod RunRegistry
pub mod RateLimit
pub mod TaskAgenda
pub mod ToolStages
pub mod Converge
pub mod TaskQueue
pub mod SessionFsm
pub mod Router
pub mod LlmRetry
pub mod ResourceBudget
pub mod ExecutionPool
pub mod TenantQuota
pub mod TurnContract
pub mod Chunker
pub mod PlanningGate
