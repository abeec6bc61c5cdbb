-- ===== src/Lib.antt =====
-- The vcap proof format and its reference verifier (tools/src): how a proof is attached to a media
-- file, what is signed, and what a verifier concludes.
--
-- A capture is a media file and a proof, a JSON object. The proof's core (`core.ts`) is put into
-- canonical bytes (`jcs.ts`), hashed and signed; a video has one signature per segment, linked in a
-- chain (`segments.ts`); the proof travels in a trailer at the end of the file (`trailer.ts`), in a
-- manifest store or in a sidecar (`carrier.ts`); and a registry of devices answers for the signing key
-- with an inclusion proof in a Merkle tree and with signed statements (`registry.ts`, `location.ts`); a
-- core hash may be anchored in a block (`anchor.ts`); and each video segment has a signed timing
-- (`timing.ts`). The verifier (`verify.ts`) finds the proof, parses it strictly (`json.ts`), checks its
-- core against the canonical media (`canonical.ts`), weighs each attachment, compares the segments with
-- those of the container and concludes with an outcome, a level and labels.
--
-- Which module models which file:
--   Bytes, Text      the operations of Buffer and the strings of JavaScript the files above use: a
--                    buffer is a list of numbers, a string the list of its UTF-16 code units;
--                    a checked write or read answers `none` where Buffer throws
--   Json             tools/src/jcs.ts: `serialize`, `jcs`; its child Parse is tools/src/json.ts:
--                    `parseProofJson`; JSON.parse of a string and the UTF-8 decoder are parameters
--   Node             node:crypto, as a record of functions: SHA-256, ES256, base64url and keys are
--                    parameters, with the length of a digest and the round trip of base64url as laws
--   Core             tools/src/core.ts: the core, key ids, low-S signatures, DER
--   Segments         tools/src/segments.ts: `segmentMessage`, `verifyChain`
--   Trailer          tools/src/trailer.ts: `buildTrailer`, `parseTrailer`, `unreadableTrailerStart`;
--                    the CRC is a parameter
--   Carrier          tools/src/carrier.ts: `extractProof`, `unreadableAlternate`; what a manifest store
--                    and an external one hold is a parameter
--   Jpeg             tools/src/canonical.ts and, of tools/src/jumbf.ts, the segments of a JPEG and the
--                    boxes that their APP11 packets make up
--   Cbor             tools/src/cbor.ts: `decodeCbor`; floats are kept as their bits
--   Bmff             tools/src/container.ts: `boxes`, and in its children the sample tables (Samples), the
--                    tracks (Tracks), the presentation (Parameters, Presented), the NAL units (Nals), the
--                    vcap SEI (Sei), the GOPs and their hashes (Units, Gops), and `readContainer` and
--                    `containerSegments` (Reader)
--   Jumbf            tools/src/jumbf.ts: `boxList`, `parseSuperbox`, `superChildren`
--   Registry         tools/src/registry.ts, with a module each for inclusion proofs and the tree of
--                    RFC 6962 they are taken from (Merkle), the messages a log signs (Messages), the
--                    logs a verifier trusts (Logs, with tools/src/trust.ts), `verifyRegistry` (Leaf),
--                    `verifyKeyStatus` (Status) and `verifyIntegrity` (Integrity)
--   Location         tools/src/location.ts: `verifyLocationCorroboration`
--   Anchor           tools/src/anchor.ts: `verifyAnchor`, which reuses Registry.Merkle
--   Separation       the messages of segments.ts, registry.ts and location.ts, told apart
--   Timing           tools/src/timing.ts: records, their hash, the conversion of timescales, extents
--   Vault            tools/src/vault/format.ts: manifests, headers, chunks and nonces
--   Verify           tools/src/verify.ts, in the order of the code: Shape (`shapeProblem`), Verdicts and
--                    Evidence (the outcome of each attachment), Level and Ceiling (`level`,
--                    `frozenRevocation`), Binding (`bindSegments`), Retimed (the timing of a clip), Judge
--                    (the core and the attachments in `judge`), Clip (the segments in `judge`) and File
--                    (`judge` whole, `verdictOfFile`, `verifyFile`, `verifySegments`). Label has the
--                    labels, Decode the typed reading of a parsed proof, Uncast what the
--                    registry says of an attachment outside its interface, Container the types of a reading
--                    of a container; Clip.Received puts the reader of Bmff under the verifier
--
-- An exception is `none`, in the modules of the verifier too, except where the source catches it. There
-- `none` is also the answer on what is outside the model: a segment entry outside the interface that the
-- code casts it to (Decode), and the few registry attachments that Uncast leaves out. A
-- date is an integer of milliseconds, or `none` when it is invalid, as it is beyond ±8.64e15.
--
-- Numbers are integers: those of a JSON value are the only ones that the proof format admits, those
-- of `timing.ts` and `core.ts` are of the type bigint, and what a field of a fixed width cannot hold
-- is refused where the source refuses it. The loop of `verifyInclusion` runs on fuel, the tree size,
-- which halves in each step and ends the loop at 1. The digits of a number are written on fuel, the
-- number itself, which each round divides by the base. The walk over the markers of a JPEG runs on
-- fuel, the length of the file and 1 more, as each step passes at least one byte; the list of JUMBF boxes
-- and the walk over the boxes of ISO-BMFF on the length of their range and 1 more, as each box has at
-- least 8 bytes; the NAL units of a sample run on its length, as each takes a byte, and the messages of
-- a SEI on the length of the body and 1 more, as each takes two; superboxes and CBOR items
-- nest by the levels that MAX_DEPTH leaves, which is the recursion. The parser runs on
-- fuel, twice the length of the text and 1 more: each call for a value, a member or an item that is not
-- the first passes a character. All other loops are structural.
--
-- Not modelled: the generators of the test vectors, the command line, the files read and written, and
-- the wording of the reasons a verdict gives. The walk over a C2PA manifest store (carrier.ts), the
-- attestation chains (attestation.ts) and time-stamp tokens (rfc3161.ts) are functions the verifier
-- takes. A 64-bit size or offset is exact here, where Number() rounds above 2^53.
pub mod Prelude
pub mod Bytes
pub mod Text
pub mod Json
pub mod Node
pub mod Core
pub mod Segments
pub mod Trailer
pub mod Registry
pub mod Location
pub mod Anchor
pub mod Separation
pub mod Timing
pub mod Vault
pub mod Bmff
pub mod Cbor
pub mod Carrier
pub mod Jpeg
pub mod Jumbf
pub mod Verify
