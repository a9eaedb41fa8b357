-- ===== src/Tests.antt =====
-- Concrete inputs on which the theorems are applied. The cipher here appends 16 zero bytes and the
-- floats are natural numbers: both only show that what the theorems ask of them can hold.
pub mod Toy
pub mod Wire
pub mod State
pub mod Server
pub mod Tokens
pub mod Client
pub mod Simulator
