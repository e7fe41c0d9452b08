-- ===== src/Lib.antt =====
-- Verification of observability-kit: the tenant control plane with the renderer that it calls, the
-- tool policy and the gateway of the AI runtime, and the usage records and invoices of the commercial
-- service.
--
-- A tenant is a JSON document (the tenant contract) that the control plane stores and moves through
-- a lifecycle: provisioning, active, suspended, offboarding, purged. Each transition passes gates
-- (scope, request, identity, approval, document, state, preconditions), writes files through the
-- renderer, stores the new state with a record of the completed transition, and is audited, also
-- where it is denied. The AI runtime's gateway vets each tool call (scope, tool, agent, time window,
-- approval), sends it to a healthy tool service, redacts and truncates what comes back, and keeps a
-- journal; its write tools wait for an approval, which is decided in time by a second person or
-- expires. Cluster events that match a hook are sent on for an investigation, with repetitions held
-- back. The commercial service meters each tenant's day in usage records, validates them, writes them
-- to the control plane's index, and aggregates them into one invoice for a tenant and a period.
--
-- Files, and the code that they model:
--   Json, Regex, Text, Time    the values of json.loads; Python's re on the patterns that the code
--                              uses; str.strip and the like; datetime on the texts that the
--                              date-time pattern admits
--   Regex/Patterns             the patterns of services/tenancy/tenantctl/models.py
--   Tenant/Errors              the errors of models.py, and the exceptions that are none of them
--   Tenant/Document, Request   validate_tenant_document and parse_transition_request of models.py
--   Tenant/Machine             state_machine.py: TransitionSpec, LifecycleStateMachine; Loader has
--                              load_state_machine, over the lines of the contract
--   Tenant/Approval            approval.py: validate_approval
--   Tenant/Store, Audit        store.py: ControlPlaneStore; audit.py: emit_audit
--   Tenant/Renders             renders.py and isolation.py: the planned files, remove_overlay
--   Tenant/Service             service.py: TenantControlPlaneService, one child module for a group
--                              of its methods and one for each group of theorems; History has
--                              the calls over time
--   AiRuntime/Redaction        services/ai/airuntime/policy.py: redact, on JSON values
--   AiRuntime/Approval         policy.py: new_approval, decide_approval, evaluate_timeout
--   AiRuntime/Policy           policy.py: check_agent_binding, check_action_preconditions,
--                              validate_tool_response, with the tables of contracts.py
--   AiRuntime/Truncation       services/ai/airuntime/gateway.py: _truncate_lists
--   AiRuntime/ToolCall         gateway.py: the checks of Gateway._handle_invoke, in `vet`
--   AiRuntime/Gateway          gateway.py: what follows the checks, _deny and the audit; Health has
--                              the heartbeats
--   AiRuntime/Hooks            khook.py: EventProcessor and what it calls
--   Commercial/Models          services/commercial/commercialsvc/models.py
--   Commercial/Metering        builder.py; Commercial/Validation: validation.py
--   Commercial/Invoice         invoicing.py: build_invoice, and in Document to_dict and
--                              ensure_invoice_consistent
--   Commercial/Job             metering.py: run_job, with the in-memory sink and the file
--                              sink of sinks.py
--   Render                     tools/obskit/obskit/configrender/render.py: changed_paths and
--                              execute_plan, with the commit message
--
-- The store is a record of dictionaries that operations take and return; an operation is a function
-- from a store to a result or an exception, and the store that it leaves. The clock is an argument
-- (Times has one reading for each call of the clock in a transition). A ControlPlaneError is
-- `denied`, any other exception `crashed`. There is no fuel: every loop is over a list. Loops that
-- only collect the messages of an error collect them as data.
--
-- Not modelled: the texts that renders.py and isolation.py build, their digests and the commit
-- messages (parameters, the record Builders), the atomic file writes, the HTTP surfaces, the
-- sources and the bulk sink of the metering job, the latencies and costs of the audit events, the
-- counters, and the other services of the repository. A Python float is its sign and whether it is
-- zero, infinite or no number. An ISO text of an approval of the AI runtime is the instant that it
-- denotes. Parameters are the gateway's network and Python's conversions (the record Outside), the
-- numbers of the commercial service (the record Numbers), fromisoformat on an invoice's timestamps,
-- the digest of a correlation key, and whether a path resolves inside the repository. A reply of a
-- tool service is a JSON object; the message of an event is a text.
mod Prelude
pub mod Json
pub mod Regex
pub mod Text
pub mod Time
pub mod Render
pub mod Tenant
pub mod AiRuntime
pub mod Commercial
