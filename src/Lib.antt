-- ===== src/Lib.antt =====
-- stt-server: an HTTP server that transcribes and translates speech with models of transcribe-cpp.
-- This library models the parts of the program that decide something without the engine: who runs
-- when, what a model file says of itself, what a request may ask of a model, where speech lies in
-- finished audio, who may reach the server over a network, and how an update is undone.
--
-- How the parts interact: a request passes the network gate (Network), is planned against the
-- capabilities of the loaded model (RunPlan, Capabilities), joins the queue for the one inference
-- slot (Queue), and its result or error becomes an answer (Format, Errors), perhaps after one more
-- run without timestamps (RunPlan). Models that users drop in are probed by their header (Gguf).
-- Uploads are decoded to 16 kHz before the run (Audio). A live connection (Realtime) decodes audio as
-- it arrives, plans its items like requests and passes their audio to a worker on its own thread.
-- Models are downloaded into a partial file and installed once they are verified (Download), as
-- operations that a client with the admin's token can cancel (Operations).
-- Detection of speech in finished audio is a request of its own (Vad). An update stops the server
-- and replaces its executable from a worker of its own (Update), once its release was compared with
-- this version, staged and verified (SelfUpdate). An installation as a Windows service replaces the one
-- of an older name (ServiceNames).
--
-- The files, and the code that each one models (paths from the repository's root):
-- * Prelude has the names and lemmas on lists, texts, options and native numbers that the parts share.
-- * Queue models src/queue.rs. `State`, `acquire`, `drop_permit` and `remove` are the code under the
--   mutex; a oneshot channel is the id of its waiter, and sending fails when the receiver is gone.
--   Queue/System puts the callers around it: each event is one locked block or one drop, and a
--   history is any list of events. Queue/Serving is the policy of handing over.
-- * Gguf models src/gguf_probe.rs: Cursor the errors and `ByteCursor`, Utf8 the standard library's
--   lossy decoding, Values `read_value` and `skip_value`, Header `parse_header` and
--   `read_header_metadata`, Probe `probe_gguf_file`, Slug `custom_model_id`. Local, Readers, Skipping,
--   SkipValue, Prefix and SlugShape hold the proofs.
-- * RunPlan and RunPlan/Language model src/run_plan.rs, Capabilities the part of
--   src/capabilities.rs that it asks; Hints, Sound and Refusals hold the proofs.
-- * Errors models src/errors.rs.
-- * Audio/Wav models `decode_wav` of src/audio.rs and Audio/Live its `PcmStream`; Audio/Wav/Flushes,
--   Audio/Wav/Sizes, Audio/Live/Chunks and Audio/Live/Pushes hold the proofs.
-- * Realtime models src/realtime.rs: Session `SessionConfig`, Worker the threads' side of an item as
--   the list of what it does, Items the connection's side with the channel between them, Connection
--   sending, `on_update` and `settle`, Handlers the client's events and the loop, as rounds over
--   messages and answers in any order. Settling, Deltas and the Endings of Worker hold the proofs.
-- * Download models src/download.rs and `promote_verified_model_with_source` of src/store.rs: Transfer
--   one attempt, Sources the attempts of the sources, the digest and the installation. An attempt is
--   given what its request and its file operations meet, a source what it answers at each attempt.
--   Received, Attempts, Verified and Content hold the proofs.
-- * Vad models the segmenter of src/vad.rs, with the proofs in Vad/Spacing.
-- * Network models src/network.rs with `refresh_network_state` and `network_gate` of src/api.rs and
--   the first state from src/app.rs; Network/Addresses has the lines and addresses that the
--   standard library reads, Network/Gate the proofs.
-- * Operations models src/operations.rs with the table as a list of rows, and src/auth.rs;
--   Operations/Cancelled holds the proofs.
-- * Format models src/format.rs; Format/Rows and Format/Keys hold the proofs.
-- * ServiceNames models src/service_names.rs; ServiceNames/Removed and Migrated hold the proofs.
-- * SelfUpdate models the versions and the swap of src/selfupdate.rs, SelfUpdate/Verify its
--   `download_and_verify`; Versions and Swap hold the proofs.
-- * Update, Update/Worker model src/update_transaction.rs: the journal and its phases, `apply`,
--   `rollback`, `cleanup` and `run_worker` over a disk where each operation works, fails or is the
--   last before the computer stops; Update/Recovery and Update/Interrupted hold the proofs.
--
-- Bounds and fuel: `serve` has one round more than there are waiters, since each round takes one
-- off. Header prefixes at least double from 64 KiB up to 16 MiB, so nine rounds are enough. An audio
-- chunk takes at least one sample, so its length is fuel enough. A `usize` has 64 bits; waiter ids
-- wrap at 2^64, and histories are shorter than that. Subtractions of src/vad.rs are checked.
-- Waiting for an item takes one answer a round, so the answers left and one are enough; a decoder
-- takes at least one sample a round when its resampler wants one. Flushing the resampler of an upload
-- may give nothing `lag` times in a row; lag + 1 calls for each sample wanted, and for one more, are
-- enough. A discarded item's worker is waited for until it ends.
--
-- Parameters: floats and their comparisons, the speech network, Unicode lower-casing, the
-- tokenizer, the texts that detection commands print, files as `Option` of their bytes, and the
-- digest of a file; the WAV reader, the resampler, the streaming engine, base64 and the manager of
-- Windows services, with the laws of its trait. A file of the update is the number of its content.
--
-- Not modelled: preparing an update and the startup guard, the model store but for
-- its downloads, the calls of the service manager, the HTTP handlers and the
-- command line; the stream slot of the queue; the JSON forms of capabilities and reports.
pub mod Prelude
pub mod Audio
pub mod Capabilities
pub mod Download
pub mod Errors
pub mod Format
pub mod Gguf
pub mod Network
pub mod Operations
pub mod Queue
pub mod Realtime
pub mod RunPlan
pub mod SelfUpdate
pub mod ServiceNames
pub mod Update
pub mod Vad
