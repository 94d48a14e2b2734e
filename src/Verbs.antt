-- ===== src/Verbs.antt =====
-- The verbs of the command line on a loaded pair, src/cli/v2/truepad2.ts.
mod Tests
pub mod Passes
pub mod Printable
pub mod Transported
pub mod Outcome
pub mod Pair
pub mod Witness
pub mod Burn
pub mod Open
pub mod Operator
pub mod Safe
pub mod Sent
pub mod Refused
pub mod Opened
pub mod History
pub mod Exchange
pub mod Metered
