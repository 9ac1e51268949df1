-- ===== src/Subgen.antt =====
-- stacks/subgen-r9/src/subgen.py and language_code.py: the queue of transcription tasks, the
-- languages, and the choice of what is transcribed.
pub mod Queue
pub mod Languages
pub mod Choice
pub mod Worker
pub mod Plex
pub mod Results
mod QueueTests
mod WorkerTests
mod ChoiceTests
mod PlexTests
mod ResultsTests
