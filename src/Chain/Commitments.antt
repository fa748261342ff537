-- ===== src/Chain/Commitments.antt =====
-- chain/commitment.py: the texts by which a hotkey commits to an artifact on chain. `Manifest` and
-- `Reveals` are those of rounds, `Submissions` and `Sealed` those of arenas.
pub mod Digests
pub mod Manifest
pub mod Reveals
pub mod Submissions
pub mod Sealed
pub mod Apart
pub mod Tests
