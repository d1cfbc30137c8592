-- ===== src/Core.antt =====
-- internal/core: the pipeline that a request runs through.
pub mod Library
pub mod Values
pub mod Exec
pub mod Pipeline
pub mod Read
pub mod Contribute
pub mod Execute
pub mod Frame
pub mod Gate
pub mod Licence
pub mod Effects
pub mod Footprint
pub mod Authority
pub mod Handling
pub mod Serving
pub mod Turns
pub mod Samples
mod Tests
