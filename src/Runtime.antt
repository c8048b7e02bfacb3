-- ===== src/Runtime.antt =====
-- crates/nnrp-runtime: the bookkeeping that the client's and the server's sessions share, and their driver.
pub mod Pressure
pub mod PreSubmit
pub mod Driver
pub mod Multiplex
use nnrp_rs.Base.{String}

-- crates/nnrp-runtime/src/error.rs: the one error that this bookkeeping raises itself.
pub data RuntimeError : Type 0 where
  unexpected_message : String → RuntimeError
