-- ===== src/Lib.antt =====
-- The Python programs of the repository: the subtitle pipeline of stacks/subgen-r9 (a queue of
-- transcription tasks, the choice of files and languages, the vote over several transcriptions of
-- one file, the scores of a transcription), the translation of subtitles in
-- stacks/arr-stack with the script that asks for what is missing, the album downloads of
-- stacks/lidarr-ytdl with their audit, the live television playlist and guide, and the programs
-- under scripts that watch the machines: the digest of the logs, the check for running games and the
-- monitor of the network.
--
-- Prelude: lists, sorting, equality tests, texts and Python's dict, for all the others.
-- Subgen: stacks/subgen-r9/src/subgen.py and language_code.py. Subgen.Queue is `DeduplicatedQueue`,
--   whose methods keep their names; `get` is two steps, `pop` and `register`, since the source only
--   takes its lock for the second, and Subgen.Queue.Steps has the steps of the threads as a
--   relation. Subgen.Languages is the enum `LanguageCode`, its members in Subgen.Languages.Table.
--   Subgen.Choice is `choose_transcribe_language` and, in Subgen.Choice.Skip, `should_skip_file`
--   and `gen_subtitles_queue`, which puts its task into that queue. Subgen.Worker is the end of a task
--   in `transcription_worker` and the test of `delete_model`. Subgen.Plex is `get_next_plex_episode`
--   and `receive_plex_webhook`.
--   Subgen.Results is `TaskResult` and the requests of `asr`, as steps of a server whose queue is
--   the one above.
-- Voting: stacks/subgen-r9/src/qa_voting.py, a module for each function: `reconcile_passes` pools the
--   words of the passes, `_cluster_words_into_slots` groups them, `_vote_slot` takes a word of each
--   group, `_resolve_overlaps` orders them; `group_into_segments` and `temperature_ladder` are by
--   themselves. A word is a record; a list of passes is a list of lists of words.
-- Wer: stacks/subgen-r9/scripts/wer_cer.py. Wer.Table has both dynamic programs, Wer.Trace the way
--   back through the table, Wer.Rates the two rates; Wer.Levenshtein is the recursive definition
--   that they are compared with.
-- Gemini: stacks/arr-stack/patches/gemini_translator.py. Gemini.Keys is the rotation of the keys,
--   Gemini.Responses the test for a rate limit, Gemini.Lines what is done with an answer,
--   Gemini.Batch `_process_batch`, and Gemini.File the loop of `_translate_with_gemini` over a file.
-- Bazarr: stacks/arr-stack/scripts/bazarr-translate-missing-es.py, which has Bazarr translate with
--   that translator. Bazarr.Attempts is the file of failed attempts and `get_wanted`, Bazarr.Paths the
--   subtitle that is translated and the path of the result, Bazarr.Errors
--   `classify_bazarr_log_error_since`, Bazarr.Item `process_one` with its wait, and Bazarr.Run `main`,
--   a run over a list of items that keeps both files and the results in turn.
-- Lidarr: Lidarr.Scheduler is stacks/lidarr-ytdl/patches/scheduler.py, the check for missing albums,
--   and Lidarr.Audit is scripts/lidarr-ytdl-audit.py, which looks at what was downloaded.
-- Digest: scripts/log-digest.py. Digest.Fetch is `fetch_errors`, Digest.Groups `build`,
--   Digest.Compose `compose` and the signatures that are kept from one week to the next,
--   Digest.Discord `split_discord`, and Digest.Main the rest of `main`, whose effects are a list.
--   The text of a digest is a list of lines, each a constructor with what is written into it.
-- Session: scripts/session-activity.py. Session.Varint and Session.Socket are the numbers and bytes
--   of a Minecraft server, Session.Java `java_players`, Session.Bedrock `bedrock_players`,
--   Session.Sunshine `sunshine`, and Session.Check `main`. A connection is the list of the segments
--   that `recv` takes from; bytes are numbers.
-- Monitor: scripts/netmon.py. Monitor.Sessions is `plex_state`, Monitor.Modem the counters of
--   `modem_stats`, Monitor.Buffering `buffering_events`, and Monitor.Main the rest of `main`, of which a run takes a state and leaves one.
-- LiveTv: stacks/threadfin/generate_live_m3u.py in LiveTv.Tables, the curated names, and
--   LiveTv.Playlist, and stacks/schedulesdirect-epg/generate_schedulesdirect_epg.py in
--   LiveTv.Stations, its table, and LiveTv.Guide.
--
-- Times and probabilities are natural numbers in a unit that is not fixed, seconds where the source
-- has whole seconds; rates are fractions; texts are lists of code points, and in Subgen strings.
-- What is outside is an argument: the Unicode tables, the clock, the answers of Gemini, Bazarr, Loki,
-- GitHub and the television services, what ffprobe, PyAV and the file system say of a file, what
-- Lidarr and the data base list, and the regular expressions of the digest. Loops
-- without an evident end run on fuel: `trace` on the sum of both lengths, since each round takes one
-- from it; `process_batch` on four times the length of the batch plus the retries, since a half is
-- shorter and has three retries; `translate_loop` on twice the number of subtitles, since a round
-- either reads one or sends a batch that is not empty; `varint` on one more than its number, since
-- a round divides by 128; `read_varint` on one more than the bytes that are there, and `read_data` on
-- the bytes that are missing, since a round reads at least one; `fetch_errors` on the length of its
-- window, since a page ends later than it begins; `poll` on its 240 seconds in steps of eight;
-- `chunks` on the number of ids; the loop of the webhook on one more than the episodes that are left,
-- which is a parameter since it need not end on other answers of Plex. That this fuel is enough is proved.
--
-- Not modelled: logging, notifications and job messages, the prompt and the JSON of the requests,
-- the transcription itself, the web handlers of subgen.py, the patched download code of
-- stacks/lidarr-ytdl, an exception of a call to Bazarr or Loki, and the other programs under
-- scripts, which read files, sockets and commands and print.
pub mod Bazarr
pub mod Digest
pub mod Gemini
pub mod Lidarr
pub mod LiveTv
pub mod Monitor
pub mod Prelude
pub mod Session
pub mod Subgen
pub mod Voting
pub mod Wer
