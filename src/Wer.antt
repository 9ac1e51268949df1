-- ===== src/Wer.antt =====
-- stacks/subgen-r9/scripts/wer_cer.py: word and character error rates by edit distance. Tokens and
-- characters are of any type with an equality test.
pub mod Table
pub mod Trace
pub mod Levenshtein
pub mod Optimal
pub mod Rates
mod Tests
