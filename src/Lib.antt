-- ===== src/Lib.antt =====
-- A verification library for assistantd, the daemon of this repository (src/assistantd, headers in
-- include/assistantd): a voice assistant that captures audio from a child process into a byte ring,
-- cuts it into utterances with a voice activity detector, writes each as a WAV file, has it
-- transcribed by a local speech server and answered by a local language model, and queues the
-- answers.
--
-- The files and the code they are about:
--   Base      numbers of C types, byte blocks and `memcpy`, lists, windows of a circular array
--   Status    src/assistantd/status.c: the status codes and their names
--   Logger    src/assistantd/utilities/logger.c: the levels, the filter and the lines
--   Ring      src/assistantd/ring_buffer.c: the byte ring (`Ring` is `assistantd_ring_buffer_t`), and
--             in Ring/Spsc.antt its two users at the same time
--   Queue     src/assistantd/utilities/artifact_queue.c: the two bounded queues, written once over
--             the item, the capacity and the zero item
--   Text      what config.c uses of the C library: `fgets`, `strchr`, `strcmp`, `snprintf`, `atoi`
--   Config    src/assistantd/config.c: defaults, loader, validation and dump
--   Vad       src/assistantd/vad_detector.c: the speech state machine over libfvad
--   Utterance the utterance buffer of src/assistantd/supervisor.c, that doubles when it is full
--   Artifacts the utterance files of supervisor.c: their paths, and how they are written
--   Outside   what supervisor.c calls outside the repository: allocator, `unlink`, dr_wav
--   Os        the calls of the operating system, and in Os/Posix.antt what POSIX documents of them
--   Capture   src/assistantd/audio_capture.c: the capture's child process and its pipe
--   Playback  src/assistantd/playback.c: the player's child process
--   Curl      the calls of libcurl, and in Curl/Quiet.antt what is relied on of them
--   Stt       src/assistantd/stt_adapter.c: in Stt.antt the buffer of curl's write callback, the
--             reading of the response and the URL; in Stt/Request.antt the operations
--   Llm       src/assistantd/llm_adapter.c: in Llm.antt the buffer, the prompt's file, the body of
--             the request and the reading of the response; in Llm/Request.antt the operations
--   Tts       src/assistantd/tts_adapter.c
--   Adapters  what supervisor.c uses of the capture and of the three adapters
--   Supervisor src/assistantd/supervisor.c: in Supervisor.antt the struct, the queues' clients and
--             the end of an utterance; in Round.antt one round of the run loop; in Lifecycle.antt
--             init, start and stop; the other children hold proofs
--   Assistant the supervisor on the adapters as they are coded
--   Program   src/assistantd/main.c and the flag of src/assistantd/shutdown.c
--
-- The supervisor owns a ring, a detector, an utterance, the two queues and the adapters. A round
-- (`run_once`) reads a chunk from the capture into the ring, takes whole frames off it, feeds them to
-- the detector, gathers the frames of an utterance, and at its end writes a WAV file and queues it;
-- then it has the oldest queued file transcribed and answered, queues the answer, and takes one
-- queued answer off again. `Supervisor` is `assistantd_supervisor_t` with the outside world as one
-- more field; an operation gives a status and the supervisor after it.
--
-- How C is read. A struct is a record and a function that changes `*p` returns the new record; the
-- structs that a call works on are there, so that the `p == NULL` guards on them are not modelled,
-- while data pointers that may be NULL (samples, bytes, items, paths) are options. A `char` array is
-- the C string in it, a byte list without NUL. `size_t` and `uint64_t` are numbers whose sums wrap
-- at 2 ^ 64; `int` is an integer: the sums in the detector stay below its settings and one frame, and
-- those of a wait below its timeout (1000 or 30000 ms) and one poll.
-- An `int` that is a flag is a Boolean. `calloc` is a Boolean argument, `fopen` a function from a
-- path to the bytes of the file, libfvad the record `Fvad` of its calls, with hypotheses where a
-- theorem relies on what it documents. Logging has no effect on state and is left out.
--
-- The ring is used by one producer and one consumer through atomic counters. In Ring.antt a call is
-- run to its end, as the supervisor runs it. In Ring/Spsc.antt it is a sequence of atomic steps, and
-- `Steps` is any interleaving of a producer with a consumer. The memory order is covered so far: an
-- acquire load gives the counter or any number below it, and the bytes that a release store has
-- published are seen by a load of the counter it stored. The two copies of a call are one step.
--
-- For the supervisor's own theorems the capture and the adapters are the record `Adapters` of
-- operations on states of their own; `Assistant.assistant_adapters` fills it with the operations of
-- Capture, Stt, Llm and Tts, so that the theorems of Assistant are about the program as it is linked.
-- Program drives the supervisor: it reads the arguments and the configuration, starts the
-- supervisor, runs rounds until the flag is set or a round fails, and stops it.
--
-- The operating system, libcurl, cJSON, the C library's files, dr_wav and libfvad are parameters. A
-- call of them takes the outside world and gives it back changed; where the source reads errno, the
-- call gives that beside its result. `fork` is given what the child does and gives the parent's
-- result. What a theorem relies on is a record of named laws, each with a concrete instance in
-- Samples or Tests: `IsPosix` for processes and descriptors, `IsQuietCurl` and `IsQuiet` for
-- libraries that keep no descriptor or child of the assistant. A signal is an
-- arrival before the test of a round (`arrives k`); that none comes during a blocking `waitpid` is a
-- hypothesis of its own, `Uninterrupted`.
--
-- Not modelled, as they have no effect on the state that is described: the calls of the logger, the
-- usage text of main.c, and `free`. cJSON, dr_wav and libfvad are other projects' libraries. The stack
-- array `frame` of the drain is taken as zeroed; it is written whole before use. Samples are read with
-- the low byte first.
--
-- Fuel: the loop of `assistantd_config_load_file` gets the length of the file, of which each round
-- takes a byte or more; printing a number gets one more than the number. The doubling loops of the
-- utterance and of the write callbacks get 65 rounds; 64 doublings of a positive capacity pass
-- SIZE_MAX / 2; for a total above 2 ^ 63, more than memory holds, the loop in C does not end, and the
-- callback, as curl calls it (`on_write`), is taken to return 0. The drain gets one round for each
-- whole frame in the ring, and the loops that empty the queues one more than the queue's size. A
-- wait for a child gets two rounds more than its timeout has polls; the system prompt gets 4096
-- reads, of which each takes a byte or more of an array of 4095. The loop of main gets one round
-- more than there are before the signal.

pub mod Base
pub mod Status
pub mod Logger
pub mod Ring
pub mod Queue
pub mod Text
pub mod Config
pub mod Vad
pub mod Outside
pub mod Os
pub mod Utterance
pub mod Artifacts
pub mod Curl
pub mod Llm
pub mod Adapters
pub mod Capture
pub mod Playback
pub mod Supervisor
pub mod Stt
pub mod Tts
pub mod Assistant
pub mod Program
