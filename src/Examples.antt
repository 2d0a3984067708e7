-- ===== src/Examples.antt =====
-- Concrete inputs on which the theorems of the other files apply.
pub mod Buffers
pub mod Events
pub mod Streams
pub mod Timers
pub mod Loops
pub mod Servers
pub mod Threads
pub mod Starts
pub mod Clients
pub mod Pools
pub mod Logs
