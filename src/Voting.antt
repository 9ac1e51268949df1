-- ===== src/Voting.antt =====
-- stacks/subgen-r9/src/qa_voting.py: clustering and voting over several transcription passes.
-- Times and probabilities are natural numbers in a fixed unit (hundredths of a second, say), and
-- the overlap threshold is a fraction `num / den`. Texts are lists of code points.
pub mod Words
pub mod Cluster
pub mod Groups
pub mod Best
pub mod Vote
pub mod Segments
pub mod Ladder
pub mod Overlap
pub mod Reconcile
mod Tests
