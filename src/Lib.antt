-- ===== src/Lib.antt =====
-- mcp-heartbeat: leases of participants over MCP. A producer issues heartbeats, a wire document
-- carries each of them, and a consumer admits a document if it supersedes what it holds; two
-- adapters put this on the current and on the legacy MCP protocol.
--
-- The core, src/mcp_heartbeat:
--   Core/Model, Core/Time      model.py: the value, its document (to_dict), digest and timestamps
--   Core/Parse                 model.py: Heartbeat.from_dict
--   Core/Validation            validation.py: validate_document, document_reason
--   Core/Lineage               lineage.py: admit and its checks; the state is LineageState
--   Core/Producer              issuer.py and the fake clock of clock.py
--   Core/Ports, Core/Errors    ports.py (ChangeHint) and errors.py
-- The current adapter, src/mcp_heartbeat_current:
--   Current/Identity           identity.py: the binding of a response to a principal
--   Current/Convergence        convergence.py: HeartbeatConsumer, which calls admit
--   Current/Contract           contract.py: the constants and the version tests
--   Current/Metadata           metadata.py: the envelope of a request, and classify_request
--   Current/Era                era.py: which era a message is routed to
--   Current/Discovery          discovery.py: what a server publishes, and negotiate
--   Current/Subscriptions      subscriptions.py: filters, frames and the stream of a client
--   Current/Failures           errors.py
--   Current/Rendering          the to_dict methods of identity.py, era.py and discovery.py
--   Current/Lint               lint.py: the scan for primitives that the era forbids, over the nodes
--                              that ast.walk visits
-- The legacy adapter, src/mcp_heartbeat_legacy:
--   Legacy/Negotiation         era.py: protocol version and heartbeat extension
--   Legacy/Capabilities        capabilities.py
--   Legacy/Session             session.py: the server half of the handshake, and the client half in
--                              Legacy/Session/ClientSide
--   Legacy/Identity            identity.py: the binder of a session
--   Legacy/Resources           resources.py: addresses, hints and notifications
--   Legacy/Consumer            resources.py: LegacyHeartbeatConsumer, which calls admit
--   Legacy/Failures            errors.py
--   Legacy/Rendering           the to_dict methods of era.py and identity.py
-- The conformance harness, src/mcp_heartbeat_conformance:
--   Conformance/Verdicts       verdicts.py: cases, matrices and run_cases
--   Conformance/Release        release.py: the levels of readiness, with Levels, Risks and
--                              Adjudication below it
--   Conformance/DualEra        cross_era.py: DualEraServer, which routes to the two adapters
--   Conformance/SharedRuns     cleanroom.py: longest_shared_run
--   Conformance/Fleet          runtime.py: replicas behind a gateway, and the consumer that reads
--                              through it; its events are what the cases do
--   Conformance/Attestation    sdk_attestation.py and tools/record_sdk_verification.py: the record of
--                              a run against the SDK, and the digest of the tree that it names
--   Conformance/Signoff        isolation.py: the sign-off of the size of the core
-- The clean-room participant, cleanroom/hb_cleanroom:
--   Cleanroom/Validation, Cleanroom/Participant
--                              participant.py: validate, the issuer and the consumer
-- The demonstration, demo/publisher and demo/observer:
--   Demo/Publisher             hb_demo_publisher: Participant, an issuer with a control channel
--   Demo/Observer              hb_demo_observer: Session.poll, which admits what a publisher answers
-- The release tools, tools/build_release.py:
--   Tools/Archive              normalise_sdist
--   Tools/Checksums            render_sha256sums and parse_sha256sums
--   Tools/Requirements         parse_requirement and the components that build_sbom makes
--   Tools/Publish              run, from its two builds on
--   Tools/Order, Lines, Dict   sorted, the methods of str and the dicts that these use; their texts
--                              are lists of code points
-- Json, Text and Platform hold what the source takes from Python: JSON values, text operations and
-- the regular expressions, and as parameters of the model datetime parsing and formatting,
-- json.dumps, sha256, repr, str, lower, upper, quote, unquote, format, float and dict;
-- Tools/Archive takes tarfile and gzip as a parameter, and Current/Identity/Compact json.loads.
-- Files below a component prove its theorems; Tests applies them.
--
-- A method of an object is a function from the object's record to its result and the record after
-- it; an exception is a value of Raises, Adapter or Legacy, and an object keeps what was assigned
-- before the exception. A text stands for a Python str; the platform says which texts can be
-- encoded in UTF-8, since a str with a lone surrogate cannot, and a digest of one raises
-- UnicodeEncodeError. An instant is an aware UTC datetime, a number of microseconds since the year
-- 1; durations are microseconds, and sums out of the range of datetime raise OverflowError. The
-- refetch fraction is a function on windows, in place of a float, and the skew is not negative. A
-- heartbeat may have None for an identifier or the sequence, as the source builds it from null.
-- Every function is structural, so there is no fuel. Messages of exceptions are constructors with
-- what they interpolate. Arithmetic is that of Python's integers, without bounds.
--
-- Not modelled: the rendering of errors, verdicts and reports as text, random epoch identifiers
-- and the system clock; of the current adapter the HTTP statuses, the table of forbidden
-- primitives, the grammar of extension identifiers and sdk.py; of the conformance harness the
-- cases of the matrices, which run the code on test data, but for the one that judges the size of
-- the core, and what measures, reads source files or starts processes; of the release tools the
-- builds, the reading of a wheel and the fixed texts of what is written, and verify_wheel.py and
-- the emit scripts; the HTTP side of the demonstration and the observer's scenarios.
pub mod Prelude
pub mod Text
pub mod Json
pub mod Platform
pub mod Core
pub mod Current
pub mod Legacy
pub mod Conformance
pub mod Cleanroom
pub mod Demo
pub mod Tools
pub mod Tests
