-- ===== src/Store.antt =====
-- A direction store: its header, its journal and the writes that change them, src/cli/v2/store2.ts.
pub mod Header
pub mod Text
pub mod Head
pub mod Journal
pub mod Valid
pub mod Load
pub mod Write
pub mod Appended
pub mod Crash
pub mod Safe
mod Tests
pub mod Samples
pub mod Metered
