-- ===== src/Lib.antt =====
-- Coengram's memory service: its identities, its access tokens and sessions, and the memory itself.
--
-- The service gives Users and Agents of many Tenants a memory. Every request begins with an access
-- token or with the identity of a channel, which the control plane turns into a session: a Tenant,
-- an actor, the actor's roles and, for an Agent that acts for a User, the Subject User and the
-- Delegation. Tokens are issued, rotated and revoked by the token service over a store of tokens;
-- the Control Store is such a store, and keeps the Tenants, Principals, Memberships, Delegations,
-- Channel Bindings and routes that a session rests on. Disabling or revoking one of them
-- deactivates all that rests on it. A session then retains, corrects and recalls items in its
-- Tenant's Memory Store, proposes some of them as knowledge of the whole Tenant, and asks for
-- erasures; reviewers decide, and steps outside of any session publish and erase what was approved.
-- In front of it all, a request's body is limited.
--
-- Files:
--   Prelude, Dict, Exec: the shared types: Python's dict, sorted, str.strip, timedelta, and a
--     method that changes an object and may raise, as a function from the state to a result and a
--     state.
--   Models: src/agent_memory_service/models.py, the session and its constructor's check, and in
--     Models/Items the items of a memory.
--   Auth: src/agent_memory_service/auth.py. Auth is TokenService over any TokenStore (issue,
--     rotate, authenticate, revoke), Auth/Format the text of a credential, Auth/InMemory
--     InMemoryTokenStore, Auth/Laws and Auth/RoundTrip what the service guarantees.
--   Control: src/agent_memory_service/control.py. Control/Identities is InMemoryControlStore's part
--     for identities, with Control/Identities/Revoke for the methods that disable and revoke and
--     Control/Identities/Tokens for its methods as a TokenStore. Control/Accounts,
--     Control/Delegations, Control/Access and Control/Routes are ControlModule's methods, each with
--     all of its checks in the code's order. Control/Soundness holds the invariant of the store and
--     that every method keeps it, Control/Reachable the stores that calls reach and what holds in
--     them, Control/Lifetimes, Control/Approval and Control/Regrant single policies.
--   Operators: the rest of src/agent_memory_service/control.py on Operators with
--     src/agent_memory_service/operator_auth.py and operator_audit.py: Operators/Store is the
--     store, Operators/Tokens and Operators/Sessions the two services, Operators/Module
--     ControlModule's methods.
--   Jobs: Provisioning Jobs of control.py and src/agent_memory_service/operator_provisioning.py:
--     Jobs/Store is the store's state machine, Jobs/Module the requests of Operators, Jobs/Worker
--     the worker, over any provisioner.
--   Provisioning: src/agent_memory_service/provisioning.py: Provisioning/Store is the record of a
--     Tenant's progress, Provisioning/Apply the plan and the loop of TenantProvisioner,
--     Provisioning/Prefix, Laws, Completed, Returned and Fresh what holds of them.
--   Memory: src/agent_memory_service/lifecycle.py, governance.py, stores/memory.py, memory.py and
--     archive.py. Memory holds the records; Memory/Terms and Memory/Store are
--     InMemoryTenantMemoryStore, Memory/Erasure InMemoryErasureStore, Memory/Knowledge
--     InMemoryGovernanceStore, Memory/Archive the order of an archive's corrections and the checks
--     of an import, with Archive/Json the values of a line, Archive/Codec the encoder,
--     Archive/Valid the checks on a record and Archive/Decode the decoder. Memory/World holds the
--     three stores and the durable commands (durable_memory.py, a port), and how a statement works
--     on one of them; Memory/Module, Memory/Reviews and Memory/Transfer are MemoryModule's methods,
--     Memory/Exchange its exports and imports with their encoding, Memory/Reachable the type of all
--     that change something, with what they keep. Memory/Recall, Erased, Isolated, Separated,
--     Reviewers, Curated, Curators, Corrected, Taken and the other modules under Archive (Depth,
--     Order, Lines, Records, Checked, RoundTrip) prove what holds.
--   Limits: src/agent_memory_service/body_limits.py; Limits/Stream and Limits/Replay prove what
--     holds.
--   Tests: runs on small stores, and the instances of the theorems.
--
-- A datetime is a number of microseconds and a timedelta an integer of them (Prelude/Int). A
-- frozenset of roles is a list of its elements; the tests `in`, `<=` and `==` are written out on
-- lists. Loops over a dict are structural recursion. The walk along an archive's corrections has
-- fuel, one more than the archive has items, which is proved to be enough; Python's limit on the
-- depth of calls, about a thousand, is left out. The keys of a JSON object are in the order that
-- sort_keys writes, so that reading a line gives the object that was written; Python's `==`
-- disregards it, and so does the model's. A confidence is a natural number of units of 2 ^ -1074,
-- of which each float between 0 and 1 is a whole number; whether a decoded confidence is another
-- float, a count negative or a datetime without a zone is kept apart (Raw in Archive/Valid). The
-- messages of a request are a list, and a spooled file is the bytes in it. An exception keeps its
-- class and its message; of a message that lists values only the fixed part is kept.
--
-- Not code of the repository, and parameters here: SHA-256 with the constant-time comparison
-- (`digest`, and equality of digests), str.isdecimal (`is_decimal`), and what uuid4, token_urlsafe
-- and the clock return at a call (`Fresh`, `now`), what the adapters on the host do at a step
-- (`execute`), the name of an exception's class (`type_name`), str.casefold (`casefold`), int
-- (`int`), the store of durable commands (`commands`), the policy on self-approval that
-- MemoryModule is given (`self_approval`, one function, though ControlModule's may answer otherwise
-- after a change of its store), and, for the worker, the outcome of the provisioner (`apply`) and
-- what others do to the jobs while it works (`meanwhile`); for an archive the JSON of a line,
-- SHA-256 and the dump and the validation of the Pydantic models (`Formats`).
--
-- Not modelled: the stores over PostgreSQL and Neo4j, the adapters for HTTP, MCP and Telegram, the
-- command line, the workers, the host's operations and telemetry, which run services or do I/O; the
-- outbox and backups; and the checks of Pydantic on what callers send. The requests of
-- Memory/Reachable hold decoded archives.
pub mod Prelude
pub mod Dict
pub mod Exec
pub mod Models
pub mod Auth
pub mod Control
pub mod Operators
pub mod Provisioning
pub mod Memory
pub mod Jobs
pub mod Limits
pub mod Tests
