-- ===== src/Config/Parse/Sound.antt =====
-- What holds of a configuration that Parse returns.
mod Fault
mod Whole
pub use Fault.*
pub use Whole.*
