-- ===== src/Lib.antt =====
-- A fog node that registers industrial devices, anchors the Merkle root of each batch in a signed
-- ledger, and lets devices in by token or by proof package.
--
-- A device proves possession of its key over a challenge (fog/registration/), its leaf is queued in
-- the epoch manager (fog/batch/), an epoch is closed into a Merkle tree whose root is anchored
-- (fog/merkle/, registry/ledger.py), and the device then holds a proof package (fog/proofs/).
-- Before that a short-lived token lets it in (fog/tokens/); after it /verify checks the package,
-- the request and the fog's own record (fog/verification/, fog/policy/). A revocation
-- (fog/revocation/) stops both.
--
-- The files and the code that they model:
--   Prelude/*       Python's lists, dicts, exceptions, text, UTF-8, hex and JSON as the code uses them
--   Common/*        common/canonical.py, common/crypto_utils.py, common/schemas.py
--   Merkle/*        fog/merkle/merkle_tree.py: Sort and Tree are the constructor, Proof the proofs
--   Proofs          fog/proofs/proof_package.py
--   Ledger          registry/ledger.py
--   Policy          fog/policy/access_policy.py
--   Psk             fog/auth/psk.py
--   Storage         fog/storage/device_store.py
--   Tokens/Nonces   fog/tokens/store.py
--   Tokens/Token    fog/tokens/tokens.py
--   Epochs          fog/batch/epoch_manager.py
--   Fog/Context     FogContext of fog/main.py, the state of every handler, and HTTPException
--   Fog/Pop, Fog/Validation, Fog/Registration      fog/registration/
--   Fog/EpochRoutes                                fog/batch/routes.py
--   Fog/TokenRoutes, Fog/Verification              fog/tokens/routes.py, fog/verification/routes.py
--   Fog/Revocation                                 fog/revocation/
--   Fog/App                                        fog/main.py, with the settings of config.py
--   Fog/Server                                     the routers of create_app in fog/main.py
--   Devices, Devices/Runtime                       devices/device.py, devices/runtime_client.py
--   Attacks, Attacks/Tampering                     attacks/token_attacks.py, attacks/tamper_proof.py
-- A module below one of these holds its theorems; Tests/* runs the theorems at concrete inputs, with
-- a toy hash and a toy signature scheme.
--
-- Names are those of the source; handlers carry the name of their function, and a method its own.
-- State is passed on: an operation takes the record of its object and returns the changed one, and
-- a handler takes the FogContext and returns an outcome (an answer, an HTTPException with its
-- status, or an exception that nothing catches) with the context as it then is, so that what was
-- written before a raise stays written. Random bytes and clock readings are arguments, times are
-- whole numbers of seconds (the code has fractions), and text is a list of code points. The objects
-- that FogContext shares between components (one device store, one ledger, one token state) are
-- fields of it.
--
-- Fog/Server serves a list of requests, and its children hold what is true of every context that a
-- fog can reach: Keys of the records, Sessions of the sessions, Sound of all of it, one file for
-- each kind of request, and Restarted of the ledger that is read back. A request is served as one step.
--
-- SHA256 and ECDSA over P256 are the fields of the record Crypto; Sound holds what the theorems
-- need of them: lengths, bytes, and that a signature verifies under its own key. That hashes do not
-- collide is never assumed of all inputs: the theorem that needs it names the messages that would
-- have to collide. Pydantic's parse of a proof package, str() of a nested list and float() of a
-- text are parameters.
--
-- The loop of MerkleTree._build and the digits of a number run on fuel: the length of the level
-- plus one, since every round halves it, and the number plus one. Merkle/Total proves that the
-- first is enough.
--
-- Writing the ledger file succeeds everywhere but in Epochs/Unsaved, where `_save` raises OSError
-- when the block and the root are in memory already; what the fog serves after that is not followed
-- there but for closing epochs. A ledger file that is missing and one that is empty are not told
-- apart.
--
-- Not modelled: the log, timings, TLS and HTTP, key and certificate files, the thread of the
-- automatic close (its round is modelled), threads in general (each method that holds a lock is one
-- step), and the scripts for demonstrations and benchmarks. The runs of Tests/Attacks take a fog
-- from its start through every scenario of attacks/token_attacks.py, and Tests/Tampering runs the
-- attacks of attacks/tamper_proof.py.
pub mod Prelude
pub mod Common
pub mod Merkle
pub mod Proofs
pub mod Ledger
pub mod Policy
pub mod Psk
pub mod Storage
pub mod Tokens
pub mod Epochs
pub mod Fog
pub mod Devices
pub mod Attacks
mod Tests
