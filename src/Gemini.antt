-- ===== src/Gemini.antt =====
-- stacks/arr-stack/patches/gemini_translator.py: translating a subtitle file in batches, with
-- several API keys that rest after a rate limit.
pub mod Keys
pub mod Responses
pub mod Lines
pub mod Batch
pub mod File
mod Tests
mod BatchTests
