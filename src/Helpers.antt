-- ===== src/Helpers.antt =====
-- iox2_jsonrpc/iceoryx_helpers.py, one module for each group of its functions.
pub mod Bytes
pub mod RoundTrip
pub mod Attributes
pub mod Published
pub mod Cleanup
pub mod ListMemory
mod Tests
