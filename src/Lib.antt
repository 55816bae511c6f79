-- ===== src/Lib.antt =====
-- The policy enforcement core of SAPL's Python libraries (sapl_base) and the query rewriting and
-- FastMCP middleware of its integrations, modelled and verified.
--
-- A policy enforcement point asks a PDP for a decision, turns the decision's constraints into a
-- plan of handlers, and runs the plan round a protected method (one-shot enforcement) or along a
-- protected stream (streaming enforcement). It has to fail closed.
--
-- Parts, in sapl_base/src/sapl_base, and the files that model them:
--   Python      the values, exceptions and objects that pass through (types.py,
--               pep/boundary_signals.py, the sentinels of pep/plan.py); actions on a world that may
--               raise; the context variable and the transaction scope (pep/request_context.py,
--               pep/transaction.py)
--   Signal      signal kinds, handlers, providers and signals (pep/signal.py, pep/provider.py)
--   Subscription  what is sent to the PDP and what may be logged (types.py)
--   Plan        construction, look-up and execution of a plan (pep/plan.py)
--   Planner     both phases of planning (pep/planner.py)
--   Enforce     pre_enforce, post_enforce and their blocking forms (pep/enforce.py)
--   Streaming   the state machine of a subscription (pep/streaming/mealy.py) and the driver that
--               feeds it (pep/streaming/pipeline.py), and the helpers of a subscriber
--               (pep/streaming/transition_signals.py)
--   HttpPdp     the client of the PDP over HTTP: authentication options, one-shot requests, SSE frames,
--               validation and the reconnecting stream (transport/http_pdp_client.py)
--   Codec       between values and protobuf messages (transport/codec/sapl_proto_codec.py)
--   Runtime     the singleton that a framework's package holds (pep/runtime.py)
--   ContentFilter  the redaction of JSON content: paths, the cells that they reach, actions, conditions
--               and the two providers (pep/filters/content_filter.py)
--   Query       the query rewriting of the packages for PyMongo, SQLAlchemy and Django: the criteria
--               that all three walk, the registry of shim signals (pep/shim_signals.py), and one
--               module for each of sapl_pymongo/src/sapl_pymongo,
--               sapl_sqlalchemy/src/sapl_sqlalchemy (providers.py, shim.py, signal.py) and
--               sapl_django/src/sapl_django (orm_providers.py, orm_shim.py, orm_signal.py)
--   Mcp         the middleware of sapl_fastmcp/src/sapl_fastmcp (middleware.py, enforcement.py,
--               subscription.py, context.py): listings and the access to components, over Enforce
--
-- How the code is read. The world W on which handlers, methods, PDP client and transactions act is a
-- type parameter, and these four are functions on it that may raise: the theorems hold for every
-- such choice. An action returns the world also where it raises, so effects before a raise stay.
-- Exceptions are the subclasses of Python's Exception; an interrupt or a cancellation passes through
-- every handler of the program and is not modelled. Logging is left out. A dict is an association
-- list in insertion order, and a frozenset of signal kinds is a list in the order of iteration.
-- Every loop is a recursion on the list that it walks, so there is no fuel, but for the
-- lines of a text buffer and the segments of a path, where the text's length is enough, as each
-- round takes at least one character; the loops that wait for events walk a list of them: the turns of
-- the driver's queue and the connections to the PDP, in any order and of any length. A wait is an output, and time does not pass. Numbers are unbounded, as
-- in Python.
--
-- Third-party code is a parameter. The calls that the providers make of SQLAlchemy and of Django are
-- the fields of a record, MongoDB's filters are values, and what a database makes of these is a record
-- of laws in the modules named Database. These laws are those of plain statements and queries: without
-- LIMIT, slice, DISTINCT and aggregation, with raw SQL that is an operand of AND by itself, and with
-- columns that have one value in a row. FastMCP's calls and its look-up of components, the wire
-- format of protobuf, Python's texts of numbers, which objects are Decimals, and re.search, which the conditions of a content
-- filter call, are arguments.
--
-- Not modelled: the TLS and URL set-up of the HTTP client, the RSocket client, the registration of the
-- listener with SQLAlchemy's events, and the rest of the framework packages, which adapt their
-- frameworks to the core.
pub mod Prelude
pub mod Python
pub mod Signal
pub mod Subscription
pub mod Plan
pub mod Planner
pub mod Enforce
mod Samples
pub mod Streaming
pub mod HttpPdp
pub mod Runtime
pub mod Query
pub mod Codec
pub mod Mcp
pub mod ContentFilter
