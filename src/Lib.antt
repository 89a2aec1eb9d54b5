-- ===== src/Lib.antt =====
-- A verification library of ars-solana: the Python implementation of the ARS-Solana profile
-- (python/src/telaro_ars), and of the TypeScript implementation (src) its state machine, its event
-- store, the ingestion of events of the chain, and its settlement client.
--
-- The program's parts and the modules that model them:
-- * events.py - Events: a dataclass is a record, the union is a data type.
-- * state.py - State: `apply_event` and `replay` fold an event log into a job. State/Lifecycle,
--   State/Replay and State/Shape prove against a lifecycle diagram (`Allows`, `Run`) that is stated
--   apart from the code, State/Progress and State/Underwritten about the length, the continuation and
--   the beginning of logs; State/Typescript models `applyEvent` and `replay` of src/state.ts.
-- * src/store.ts - Store: `InMemoryEventStore`, a `Map` of logs, with its four methods. Replays relates
--   its check to a replay; Refines, Valid, Interleaving and Jobs prove. Prelude/Entries is the `Map`.
-- * src/ingest.ts - Ingest: `toArsEvent` over the payloads of @telaro/sdk that it reads; Feeds proves
--   what it can bring about in a store.
-- * constants.py and pda.py - Pda: the program addresses. `solders` is the record Solders: its keys,
--   their 32 bytes and its search for an address are parameters with the laws that are documented.
--   Solders/Model is an instance that meets the laws, for the witnesses.
-- * binding.py - Binding: Params (the dataclasses), Intents (the `*_intent` functions), Builders (the
--   `build_*_ix` functions, `_disc`, `_u64_le`). Layout, Carries, Injective, Returns and Accounts prove
--   about all five actions at once, as a `Call`, which also holds the keyword arguments of a builder. The program id and the keys that modules load on
--   import are arguments. SHA-256 is executable (Hashlib); Prelude/Utf8, Prelude/Decimal and
--   Prelude/Hex have lemmas on the encodings of text, numbers and bytes.
-- * abc.py and settlement.py - Settlement: the abstract classes are the records SettlementLayer and
--   CollateralVault, and `TelaroSettlement` is an instance of the first; Settlement/Realises proves.
-- * x402.py - X402: Transactions (`_decode_x_payment_header`, `_try_parse_tx`, `extract_payer`), Gate
--   (`apply_x402_gate`, `status_for_code`), Lookup (`http_profile_lookup`); Signers, Payer, Policy,
--   Passes, Hosted, Judged, Codes and Escapes prove. base64, UTF-8, JSON and transaction decoding are
--   the record Decoders, without laws.
-- * conformance.py - Conformance: the vectors, the report, the three loops of the harness, the
--   self-test (SelfTest) and the dump (Dump). Loops and Report prove; Decode is a reader of the dump
--   that is stated apart from the code, for the proofs of Decode/RoundTrip.
-- * conformance_cli.py - Cli: the Python and HTTP transports (Python, Http), the certificate
--   (Certificate) and `main` over its parsed arguments (Main), whose printing and writing is a list of
--   effects; Target, Replies, Fingerprint and Main prove. The module under test and the endpoint are
--   parameters; an endpoint is a function from a request to a response, so one that answers the same
--   request in two ways within a run is not covered.
-- * src/binding.ts, src/client.ts and src/settlement.ts - Client: the instructions (Instructions), the
--   client and the sender over a connection as sessions of network calls, the table (Table); Settles
--   proves. @telaro/sdk and @solana/web3.js are the record Sdk.
-- * __init__.py - Package: the names that the package binds and exports, and the package as a module
--   under test; Conforms proves about it under its own command.
--
-- How the parts interact: settlement.py calls the intents of binding.py; its builders call pda.py; the
-- conformance harness calls `replay` of state.py and `build_view_bond_ix` of binding.py; the command
-- line reuses the harness over other implementations, of which the package is one; the event store of
-- store.ts applies and replays events by state.ts, and ingest.ts makes events for it; the gate of
-- x402.py stands alone, and takes the profile lookup as an argument.
--
-- Python in the model: an int is the integer type of Prelude/Int, unbounded as in Python, and the
-- widths of the encodings are written out (`256 ^ n`, 0xffff, 0xffffffffffffffff). A call that may
-- raise returns a `Result`; the exceptions that the program raises or catches are the constructors of
-- `Exception`, and a method that is `async` is its synchronous body, which awaits nothing. A
-- dataclass instance has the types that its annotations give. Three functions take fuel: `str` of a
-- number has one unit more than the number, which is at least its count of digits; the blocks of
-- SHA-256 have the length divided by 64 and two more, which covers the padding, and its rounds are
-- counted down from their fixed number.
--
-- Not modelled: `argparse`, which turns the command line into the arguments of `main`; src/events.ts
-- and src/index.ts, which declare types and pass names on; the tests.
pub mod Prelude
pub mod Events
pub mod State
pub mod Store
pub mod Ingest
pub mod Client
pub mod Hashlib
pub mod Solders
pub mod Pda
pub mod Binding
pub mod Json
pub mod X402
pub mod Settlement
pub mod Conformance
pub mod Cli
pub mod Package
