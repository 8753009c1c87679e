-- ===== src/Lib.antt =====
-- Fragata records IP cameras: it pulls RTSP streams, writes Matroska segments, serves live views and
-- recordings over HTTP, and keeps its settings in one encrypted file. This library models the parts
-- that carry its own logic, each in a module of its name:
--
-- * Sps (internal/rtsp/dimensions.go): the picture size in an H.264 or H.265 sequence parameter set.
--   Sps/Reader is `bitReader`, Sps/H264 and Sps/H265 are the two parsers. A parser is a function of
--   the reader that returns a value or an error; `uint64` and `int64` are 64-bit patterns with their
--   wrap-around. An index out of range and a loop that outlives its fuel are errors of the model's
--   own. The loop of `readUE` has fuel 64, since the 64th zero is already refused.
-- * Model (internal/model/model.go) and Store (internal/store/store.go): the settings of the program.
--   Store/Disk is the file, `persistLocked` and `load`; Store/Commands has the operations that change
--   the state, each a change with the change that undoes it, joined by `run`. The file system answers
--   each call with success or failure (`Answers`), and a failed write leaves the file as it was.
--   AES-GCM, base64 and JSON are a parameter (`Library`), and what the code relies on is a hypothesis
--   (`Laws`): opening a sealed text and decoding an encoded one give back the original, where
--   a decoded map has its entries in whatever order. Each
--   password takes the next nonce of the operation.
-- * Login (internal/httpapi/login_limiter.go): the login limiter. The clock's reading is an argument
--   of each call, and the hash and the string functions of the library are a parameter (`Texts`).
--   `evict` has the number of buckets as fuel, since each round deletes one.
-- * Hub (internal/stream/hub.go): the stream of a camera, between the RTSP client and the recorders
--   and viewers. Hub has the cache and the subscriptions, Hub/Packets the RTP channels, and
--   Hub/Operations the operations of the whole. A channel is its queue and its capacity, a wait is
--   `none`, and so is the panic of closing a channel twice. The ends of a subscription (its own and
--   `Close`) are calls one after another: an end that has entered its `once` while `Close` holds the
--   lock is not modelled. Where a `select` has two ready cases the
--   runtime's choice is an argument.
-- * Log (internal/logging/rolling.go): the log file and its compaction; each call of the file system
--   has an answer, as in the store.
-- * Livestream (internal/livestream/manager.go): the live streams and their viewers. Livestream has
--   `readMP4Box`, which cuts the output of FFmpeg into boxes, and `tailBuffer`; Livestream/Reader
--   the loop of `readMP4` and its texts; Livestream/Manager the first part of `Subscribe`, and
--   Livestream/Sessions the other operations and the runs. A critical section is one step. What a
--   goroutine does behind one is a `Task`: viewers counted but not yet in a stream, or gone but
--   not yet counted off, and streams stopped but not yet removed. Tasks run in any order, and a
--   timer may fire at any time. A channel of a viewer is its queue of 8 frames. A `close` may
--   have entered its `once` and still wait for the stream's lock; a `once` that the holder of that
--   lock waits for is `none`, and so is a send that waits with the lock held. `json.Marshal` and the messages are an argument.
-- * Matroska (internal/matroska/writer.go): the writer of the recordings. Matroska/Ebml has the elements,
--   Matroska/Header the head of a file, Matroska/Writer the writer and its operations. The file
--   behind it answers each write with success or with the bytes it kept; a panic is an outcome. A
--   time is a 64-bit integer whose subtraction wraps around, and the bits of a `float64` are a
--   parameter. The loop of `writeUint` has seven rounds at most, and that of `encodeSize` eight.
-- * Recorder (internal/recording/recorder.go and recover.go): Recorder/Segments has a segment, its names
--   and its end, and Recorder/Steps has `Run`, one step for each case of its `select`, on top of the
--   Matroska writer. A step reads the clock, the hub and the answers of the file system from its
--   `Moment`, and a panic of the writer is `none`. The queue to the finalizer is the list of all
--   requests, since its capacity only delays the recorder; `finalize` is the finalizer's work on
--   one. The search for a free name has 100 rounds, as in the source. Recorder/Recover is
--   `RecoverPartials`: the disk is a map from paths to contents, and what `WalkDir` visits is a list.
-- * Retention (internal/retention/cleaner.go, and `Cutoff` of internal/model/model.go): the removal of
--   old recordings, and in Retention/Events of old detection events and their pictures, over the
--   store. The disk is a map from paths to sizes and times, without its directories; the
--   functions on paths, letters and dates are a parameter (`Tools`).
-- * Upload (internal/upload/uploader.go): the way of a recording to an SFTP server. Upload has the settings
--   and waits, Upload/Transfer one attempt, `process`, over a `World` of the store (that of Store),
--   the disk and the server, and Upload/Workers the queue, with the workers as steps in any order.
--   `Replies` has the answer of each call during an attempt. A call that fails changes nothing,
--   but a copy that fails leaves the beginning of its text. The file is the same whenever it is
--   read during an attempt. SHA-256 and the functions on texts are a parameter (`Tools`).
--
-- Base has the lists, byte strings, association lists and integers that the parts share. Examples has
-- the tests and the instances of the theorems. Maps are association lists that a lookup reads
-- from the front. Readings of the clock are natural numbers of nanoseconds, presentation times and
-- the recorder's durations are integers of nanoseconds, and a `float64` that is only stored is
-- its bits. In each part the file beside the folder has the definitions or names the files that do,
-- and the other files are named for what they prove.
--
-- Not modelled: locks and goroutines (an operation under a mutex is one step; the hub's publisher and
-- consumer alternate in explicit steps), the removal of empty directories, the sorted listings of the
-- store, the client address of a request, and the parts that mostly call other libraries or
-- programs (RTSP, ONVIF and WebRTC clients, FFmpeg, the HTTP handlers, configuration,
-- start-up).
pub mod Base
pub mod Examples
pub mod Hub
pub mod Livestream
pub mod Log
pub mod Login
pub mod Matroska
pub mod Model
pub mod Recorder
pub mod Retention
pub mod Sps
pub mod Store
pub mod Upload
