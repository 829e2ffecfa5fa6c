-- ===== src/Tests.antt =====
-- Runs of the model at concrete inputs: a machine with a little host memory, and the library's
-- theorems at its states.
pub mod Machine
pub mod Translation
pub mod Execution
pub mod Devices
pub mod Run
pub mod Boot
pub mod Typing
pub mod Defined
