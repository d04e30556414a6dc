-- ===== src/Cleanroom.antt =====
-- The clean-room participant, cleanroom/hb_cleanroom/participant.py: an independent reading of the
-- contract, which uses nothing of the core. Regular expressions, texts and numbers are shared.
pub mod Validation
pub mod Participant
pub mod Interop
pub mod Simulation
pub mod Issuing
