-- ===== src/Tests.antt =====
-- Concrete libraries, scripts and requests, and what the theorems say of them.
pub mod Sample
pub mod Pool
pub mod Holes
pub mod Starting
pub mod Child
pub mod Serving
pub mod Values
pub mod Parsing
pub mod Library
pub mod Requests
pub mod Interrupts
pub mod Service
pub mod Columns
pub mod History
