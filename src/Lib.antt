-- ===== src/Lib.antt =====
-- TruePad: one-time pads for two parties, with one-time authentication.
--
-- A pair of pads has two directions. The sources of randomness are combined and partitioned into
-- the material of both (src/core/partition2.ts). Each direction is a store of three files: a header
-- with the counters, the secret body and a journal (src/cli/v2/store2.ts). The verb `burn` takes the
-- next authentication record and the next window of the pad, encrypts by exclusive or, makes a tag
-- (src/core/wc-one-time.ts over src/core/gf128.ts) and gives out an envelope once the counters are on
-- disk; `open` reserves an attempt, verifies and only then releases the plaintext
-- (src/cli/v2/truepad2.ts). An envelope travels as a line of JSON or as a compact text
-- (src/core/envelope2.ts, src/core/compact-envelope2.ts). A rollback witness, a file outside the pair's
-- directory, remembers how far each direction has advanced (src/cli/v2/witness.ts). On a store of fixed records a frame hides the length (src/core/frame2.ts).
-- How a pad's deployment is described to its holder is decided by src/claims/shannon-deployment.ts.
--
-- The files and the code:
--   Base       byte strings, lists, tests, the bits of numbers, buffers, exclusive or
--   Codec      src/core/hex.ts; the base64url and LEB128 parts of src/core/compact-envelope2.ts
--   Json       what the program uses of JSON.parse: an automaton with a stack, one code unit a step
--   Envelope   src/core/envelope2.ts: Decimal its numbers, Scan its scan of the top level, Decode its
--              strict decoder; Compact is the rest of src/core/compact-envelope2.ts
--   Frame      src/core/frame2.ts
--   Field      src/core/gf128.ts: a field element is a number below 2^128
--   Direction  the directions of src/core/pad.ts
--   Tag        src/core/wc-one-time.ts
--   Partition  src/core/partition2.ts
--   Store      src/cli/v2/store2.ts: Head and Journal are its data, Load its loadStore2, Write its
--              durable transitions, Header and Text its validators of JSON, Valid the domains of a header
--   Verbs      src/cli/v2/truepad2.ts: Burn, Open and Operator are the verbs, History their sequences,
--              Transported their composition with the text of an envelope
--   Rollback   src/cli/v2/witness.ts: the witness's file and its update, Processes the concurrent updates
--              under the lock, Restored the verbs before it
--   Claims     src/claims/shannon-deployment.ts
--
-- Numbers are natural numbers; where the code tests for a safe integer the bound 2^53 - 1 is written
-- out. An exception or `null` is `none`, a refusal by name is a value. A loop is recursion on a list
-- or on a count of rounds that the code fixes: 128 rounds of a product, one round for each block of a
-- message, the nine groups of a LEB128 integer.
--
-- A durable transition is the list of its writes, each atomic (a rename, or an append that is
-- synchronised), in the order of the code. A crash between two writes leaves a prefix of that list. A crash
-- within an append, which may leave a torn last line that the next load refuses or a whole one without its
-- newline, is not modelled. A load tests the domains of the header that was written last
-- (Store/Valid), and a line that was written with a number that is no safe integer is read back as malformed.
-- A failure count must be a safe integer, so theorems on sequences of verbs bound their number. A line
-- of the journal is its record or malformed, as Store/Text decides on its JSON; no code reads the time
-- stamp. A header's map of attempts is
-- a function that is 0 where the map has no key. The source declarations of the header are left out.
--
-- A text is the list of its code units. A number of an envelope's text keeps its spelling; the value of
-- a canonical spelling is its decimal value, and a safe integer is printed with at most sixteen digits.
-- A nested JSON value in an envelope is only known to be one, which is all that the decoder asks. The
-- witness's file is a JSON tree; it is missing, unreadable, blank or not JSON otherwise. A process that
-- updates it takes the lock, reads, replaces the file and removes the lock, one step each, and may be
-- killed or fail between any two; a lock is otherwise removed only when its process is dead, as the code asks of
-- the operator. How long a process waits for a lock is left open: it may give up whenever it meets one.
--
-- What is outside the code is an argument: the answer of the rollback witness to a verb on a read and on
-- each advance, which Rollback/Restored gives from a file. Not modelled: the
-- generation and the destruction of a pair, status reports, the path checks of the witness's
-- file, the platform authority, the browser and mobile editions, the sealed transfer, and printing.
pub mod Base
pub mod Codec
pub mod Frame
pub mod Field
pub mod Direction
pub mod Tag
pub mod Partition
pub mod Store
pub mod Verbs
pub mod Claims
pub mod Envelope
pub mod Json
pub mod Rollback
