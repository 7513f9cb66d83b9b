-- ===== src/Lib.antt =====
-- Fermix for Linux: the decisions of the desktop window, as desktop/core makes them.
--
-- The program is a GTK window (desktop/app) over a library of decisions without I/O
-- (desktop/core). The window owns sockets, threads, timers and the audio pipeline; it hands each
-- event to the library as a value and carries out the effects that come back. This development
-- models nine parts of the library.
--
-- Base: what the modules share: names of the libraries, tests on numbers, lists and texts, the
-- integers, and the floating point numbers as an interface (`Floats`), whose operations no
-- theorem relies on; `Seqs`: sets of sequence numbers (`BTreeSet<u64>`) as ascending lists.
--
-- Realtime: a voice call (desktop/core/src/realtime).
--   Protocol, Client: the events of the wire and of the connection (protocol.rs, client.rs), as
--     far as the session reads them.
--   LineBuffer: `LineBuffer` of protocol.rs. Bytes are numbers. The loop of `push` runs on fuel
--     one more than the bytes it stands over, each turn of it taking one newline at least.
--   Session: the reducer of session.rs. `Data` and `State` hold its types and what it shows,
--     `Calls` and `Events` its handlers, and `apply` is `Session::apply`: from a session and an
--     input to the session and the effects. A failed `assert!` or `expect` is `none`.
--   Words: the sentences for an error. Level: voice detection and the meter (playback.rs).
--   PlaybackIds, Playback: the speaker's queue (playback.rs) and what was played under each id
--     (playback_ids.rs). The loop of `played` goes down the list of runs.
--   Speech: the speech gate, the frames that wait for it and the blocks that go out (speech.rs).
--
-- Chat: the chat connection and what the window holds of the chat (desktop/core/src/chat_wire).
--   Wire: the types of the wire in both directions, the requests' constructors and the reading
--     of a proposal (protocol.rs). A row's JSON `metadata` and its `blocks` of places are left
--     out: the timeline only carries them.
--   Handshake: what an event read during the handshake means (session.rs, protocol.rs).
--   Phases, Connection: the connection's state, its methods and the backoff (session.rs).
--   Unshown: the cards that could not be read (unshown.rs).
--   Clock: `unix_seconds` (desktop/core/src/phone.rs), over the bytes of a text.
--   Grants: the reads of phone-side files and the grants they ask for (grants.rs). `Paths` checks a
--     grant's path over its bytes. What the daemon holds is followed beside a run of the calls.
--   Timeline: timeline.rs. `State` is its `Chat`; `Reads`, `Rows`, `Turns`, `Outbox`, `Cards` and
--     `Receive` are its functions, from a chat to a chat and the events to send. `Inputs` has
--     each public call that changes the chat as a value, and `perform` runs one. A failed
--     `expect` or `chat.cursor + 1` past 64 bits is `none`. `encoded`, a parameter, is the
--     length of an event as the JSON library writes it; nothing is assumed of it. A seq that the
--     daemon sends is taken to be below the greatest number of 64 bits where a theorem says so.
--
--   Proposals: a proposal's card (proposals.rs). Outside text and where it is cut is over code
--     points; `Words` has the card and its sentences over texts. The clock that shows a time is a
--     parameter.
--
-- Checklists: the owner's lists (desktop/core/src/checklists.rs, checklists/).
--   The rows of a list, its parts and its text (checklists.rs); Draft: an op drawn before it is
--     confirmed (draft.rs); State: one list with the edits drawn over it (state.rs).
--   Index, Library, Routing: the index, the lists that the engine holds for the connection, the
--     edits that wait for its answer, and which events are the lists' (index.rs, library.rs,
--     routing.rs). `Library` has the holding and the pulls, `Edits` what is made here, `Answers`
--     what the daemon sends and the connection's begin and end. Maps are lists of their entries;
--     `str::to_lowercase` is a parameter, of which nothing is assumed. `Calls` has each call as a
--     value, and `run` makes a run of them; `Mirror` has the engine's holding.
--   Removals: what Undo takes back, over the library (removals.rs). Cards: which card is live and
--     what a card draws (cards.rs). Pane: whether the pane is open (pane.rs).
--
-- Player: the player of voice notes (desktop/core/src/player.rs), and Waveform: a note's levels
--   (waveform.rs). The operations of floating point numbers that they use are parameters
--   (`Seconds`, `Numbers`), of which nothing is assumed.
--
-- Update: what an update feed means (desktop/core/src/update): Version (version.rs), Policy
--   (policy.rs, with the order that feed.rs holds a feed to), Identity (identity.rs) and State
--   (state.rs): whether the engine runs what is installed, and when a restart may start. A
--   version's text is its bytes; 20 digits, the fuel of its printing, are enough for 64 bits.
--
-- Reach: the reach line, and how often it is read while it is followed
--   (desktop/core/src/reach.rs).
--
-- Job: a job's state, its polls, and which sign-in is adopted (desktop/core/src/job.rs).
--
-- Frame: the frames of the management socket (desktop/core/src/frame.rs).
--
-- The session's effects reach the playback queue and the speech gate: `new_playback`, `flush`
-- and `reset_anchor` are the queue's `start_call`, `clear` and `reset_anchor`, `arm` and
-- `mute_mic` decide whether the gate's capture is audible. The window carries them out, so each
-- part is proved alone.
--
-- Numbers are natural numbers; a saturating or checked operation is written out where the source
-- has it. Counters of 64 bits that only go up (the call number, frames, tickets, presses, tokens)
-- and the count of a file's reads are taken not to wrap.
--
-- Not modelled: JSON, base64, sockets, processes, files, D-Bus, signatures and the window; the
-- decimators and the voice detector before the speech gate; the lines that the lists' cards and
-- pane draw; sentences that only format numbers.
pub mod Base
pub mod Chat
pub mod Realtime
pub mod Update
pub mod Reach
pub mod Frame
pub mod Job
pub mod Checklists
pub mod Player
pub mod Waveform
