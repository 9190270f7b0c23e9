-- ===== src/MustHold.antt =====
-- `analyzeMustHold` (internal/nosharing/mutexguard.go): which guards are held just before each
-- instruction, whichever path led there.
pub mod Step
pub mod Edge
pub mod Tables
pub mod Since
pub mod Sound
pub mod Ways
pub mod Trace
pub mod Ends
pub mod Inherit
