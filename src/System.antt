-- ===== src/System.antt =====
-- The plugin as a whole: the runtime state with the probes in flight, the steps that take a lock once,
-- and what holds after any interleaving of them.
pub mod Sound
pub mod Requests
pub mod Probes
pub mod Exclusive
pub mod SingleFlight
pub mod Kept
pub mod Marks
pub mod Promotions
pub mod Outcomes
pub mod Stale
pub mod Actions
pub mod Steps
pub mod Reachable
pub mod Moves
pub mod Advance
pub mod Configured
pub mod Seeds
