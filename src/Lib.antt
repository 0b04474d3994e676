-- ===== src/Lib.antt =====
-- FreeDesk's host agent, the decisions it makes without the operating system.
--
-- The agent shares a desktop with a viewer. It listens to the requests that viewers put into a database
-- and puts each to the operator; while a session runs, it captures the screen, encodes the pictures and
-- sends them, and does what the viewer's mouse and keyboard say. The viewer also opens a file channel: it
-- offers a batch of files, the operator is asked, the bytes arrive in chunks and end up in the download
-- folder; in the other direction a picker or the clipboard offers files, which are streamed against the
-- channel's send queue. Copied text and files are shared both ways, and the agent looks for newer releases
-- of itself.
--
-- Where things are (paths under host-agent/internal):
--   Prelude          shared types and lemmas: texts as lists of runes, Go's int64, lists, tests
--   Session/Inbox    session/inbox.go: Listen, handleData, dispatch, forget, over the events of the streams
--   Session/Approver session/coordinator.go: AskFiles and noteConnectOutcome, the back-off of the prompts;
--                    consent/approver.go: the answers
--   Session/InputGate session/inputgate.go: applyInput, over Input and the questions that are up
--   Session/Lifecycle session/coordinator.go: Run, prepare, run, release and finish around the one slot
--   Session/Screen   session/coordinator.go: streamScreen and pumpFrames
--   Capture/Loop     capture/pipeline.go: one tick of `capture`; keyframeDue of capture/capture.go
--   Capture/Mailbox  capture/pipeline.go: the job that waits, takeImage, recycle and `send`
--   Capture/Encode   capture/pipeline.go: one job of `encode`
--   Capture/World    capture/pipeline.go: the two goroutines, the keyframe request and the frames
--   Vpx              vpx/settings.go: OutputSize and rateControlFor
--   Input            input/handler.go and input/message.go: Handle and ReleaseAll
--   Input/Keycodes   input/keys_darwin.go: the key codes of macOS
--   Input/Mac        input/inject_darwin.go: the calls of Input as the events posted to macOS
--   Clipboard        clipboard/sync.go: Sync and truncateUTF8, over a clipboard that others write too
--   Signaling        signaling/rtdb_transport.go: what the stream of a session comes to; Signaling/Stream: its
--                    channels and `run`
--   Config           config/config.go: the .env file and the environment; Config/Load: Load;
--                    Config/Origins: the web's origins and addresses
--   LocalApi         localapi/server.go: the handler of /identity
--   Firewall         firewall/status.go and match.go: parse and Reachable
--   Auth             auth/auth.go: the ID token; auth/errors.go: the reason of an error
--   Pairing          cmd/host/main.go (under host-agent): the pairing code, its rotation, the heartbeat;
--                    host/registrar.go: the records
--   Consent          consent/prompt.go: the texts of the prompts; consent/console.go: the answer
--   Webrtc           webrtc/connect.go: the peer's own candidates and negotiate
--   Update           update/update.go: check, compareVersions, versionParts
--   Transfer/Name    transfer/name.go: SafeName and its parts
--   Transfer/Message transfer/message.go: the frames, `validate`, ParseMsg
--   Transfer/Paths   what the code uses of path/filepath and of the file system: a path is the list of
--                    its components, the last one first, and a disk is an association list,
--                    with its folders
--   Transfer/Space   transfer/space.go: nearestExisting, hasRoom, and Dest.Room
--   Transfer/Dest    transfer/dest.go: Create, Finish, Abandon, SweepPartials
--   Transfer/State   transfer/session.go: the fields of Session, NewSession, Attach, send
--   Transfer/Receive transfer/session.go: offered, beginBatch, openLocked, abort
--   Transfer/Chunk   transfer/session.go: handleChunk, finishFile, Close
--   Transfer/Outbound transfer/send.go: the outbound slot, the offers, accepted
--   Transfer/Stream  transfer/send.go: streamFile and waitForDrain
--   Transfer/Steps   transfer/session.go: Handle and handleControl, the session as a state machine
-- The modules below one of these hold its proofs, and are named for what they prove.
--
-- How the parts meet: the inbox hands each request to the lifecycle, which owns the slot and
-- decides by the operator's answer whether the screen is streamed; the loop of Capture uses the
-- sizes of Vpx, and its frames are what a session sends, by the clock of Session/Screen; the file
-- channel asks the operator through Session/Approver; the calls of the input handler go to the
-- injector, on a Mac that of Input/Mac; the local API answers the origins that Config names.
--
-- Concurrency. The goroutines of a file session run under its lock, and wait in two places: while
-- the operator is asked, and while the picker is open. An event of Transfer/Steps is what happens
-- between two such waits, with the environment's answers in it (the disk's errors, the free space,
-- the clock). Likewise an event of Capture/World is a tick of the capturing goroutine, a job taken
-- by the encoding one or a viewer's request; an event of Session/Lifecycle is a request that comes,
-- the operator's answer, the end of a negotiation, the close of a channel or the end of a
-- connection; what other programs copy between the reads of one clipboard poll is part of its event;
-- and Webrtc runs the loop of startPublishing, which holds no lock, against candidates that are
-- gathered meanwhile. A run is a list of events in the order in which they happen, and the theorems
-- hold for each order.
--
-- Bounds and fuel. Sizes are Go's int64 with the wrap-around written out (Prelude/Int); times and
-- durations are nanoseconds. The loop of Create has its 100 candidates in the code. `decimal` gets
-- 20 digits, which every int64 fits in. The streaming loop runs over the list of what its reads
-- and waits answer, and its result is `none` if that list ends too soon; one theorem says how long
-- a list is enough. Registering has its three attempts in the code. Listen runs over the list of
-- its streams, and the other loops over lists of events.
--
-- Not modelled: JSON (a frame, a message, an entry or a release is an optional record, absent
-- where it does not parse), the database, HTTP, WebRTC, libvpx, the screen and the pointer, which
-- are what the events carry; logging, panics and their recovery, the delays between the streams of
-- Signaling, the end of a context in the midst of a step; the callbacks of the data channels; the
-- bytes of frames on the wire, floating point (a point on the screen comes with the call that
-- needs it), symbolic links and junctions in the download folder, the mark of
-- the web, and the platform files but for the Mac's injector.
pub mod Prelude
pub mod Input
pub mod LocalApi
pub mod Firewall
pub mod Auth
pub mod Consent
pub mod Pairing
pub mod Webrtc
pub mod Update
pub mod Clipboard
pub mod Config
pub mod Capture
pub mod Session
pub mod Signaling
pub mod Vpx
pub mod Transfer
