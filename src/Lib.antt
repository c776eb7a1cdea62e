-- ===== src/Lib.antt =====
-- A model of the key management service (src/), and what it keeps.
--
-- The service is a CCF application. A handler builds a request (utils/ServiceRequest.ts), which
-- throws where the stored settings have no service, asks whether its caller is authenticated
-- (authorization/), has its attestation validated against the key release policy (attestation/,
-- policies/KeyReleasePolicy.ts), reads or writes the tables of keys (repositories/) and answers
-- with a result (utils/ServiceResult.ts). Paths are those under src/.
--
-- Modules:
--   Js               values of JSON, numbers, parseFloat and texts as the program sees them;
--                    Equality is `===` on numbers
--   ServiceResult    utils/ServiceResult.ts: results, and computations that may throw
--   KeyItem          endpoints/IKeyItem.ts
--   Tooling          utils/Tooling.ts
--   Ccf              what the program calls: CCF, js-base64 and the protobuf library; Messages is the
--                    messages of endpoints/proto/gen
--   Policies         policies/KeyReleasePolicy.ts and policies/KeyRotationPolicy.ts
--   Repositories     repositories/: the tables are the fields of one record, which handlers that write
--                    take and give back
--   Authorization    authorization/: one constructor of Caller for each validator
--   Attestation      attestation/: the validations and the claims of a report; Vtpm is VtpmAttestation.ts
--   Endpoints        endpoints/: Handler says how a handler is put together; PrivateKeys and GcpKeys
--                    are keyEndpoint.ts, PublicKeys publickeyEndpoint.ts, Refresh refreshEndpoint.ts,
--                    KeyGeneration, KeyWrapper and Tink the files of their names, ServiceRequest
--                    utils/ServiceRequest.ts and policies/Settings.ts; Policies the endpoints that show
--                    the policies and the state; Proposals and Acl are proposals.ts, Cose utils/cose.ts
--   Governance       actions/: Checks is checkType, KeyRelease the actions on the two key release
--                    policies, Tables those on the other policies and the table of all actions
--   Service          the store of the whole service, which refresh, actions and proposals change
--   Logger           utils/Logger.ts: contexts, levels and lines of the log
--   Responses        utils/ServiceResult.ts and KmsError.ts: the objects of results, with their headers
--   Fixtures, Tests  a small service, and runs on it
--
-- A stored JSON text is what JSON.parse makes of it, and a buffer of a text is the list of its code
-- points. Numbers are decimals of any size with NaN and the infinities, so rounding is not modelled.
-- Every loop is by recursion on a list or on a number of rounds, with no fuel. The clock, a new key
-- pair and the decoder of CBOR are arguments. Objects have no inherited properties.
--
-- Not modelled: which headers a handler gives to an answer and the lines that handlers print, which no
-- handler reads; the text of messages, which are constructors with the values they show; the actions of
-- actions/default_ccf.js, a copy of CCF's sample constitution; the binary form of
-- messages, which a library makes from the generated code; scripts and tests.
pub mod Prelude
pub mod Js
pub mod ServiceResult
pub mod KeyItem
pub mod Tooling
pub mod Ccf
pub mod Policies
pub mod Repositories
pub mod Authorization
pub mod Attestation
pub mod Endpoints
pub mod Governance
pub mod Service
pub mod Logger
pub mod Responses
pub mod Fixtures
pub mod Tests
