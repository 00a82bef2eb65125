-- ===== src/Tests.antt =====
-- Concrete inputs, and each theorem applied to one of them.
pub mod Toys
pub mod Keys
pub mod Entries
pub mod Stores
pub mod Lives
pub mod Traces
pub mod Replays
pub mod Ledgers
pub mod Dense
pub mod Synth
pub mod Gates
pub mod Blend
