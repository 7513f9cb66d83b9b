-- ===== src/Realtime/Playback.antt =====
-- The reply's audio on its way to the speaker (desktop/core/src/realtime/playback.rs). A sample
-- is the unsigned number of its 16 bits.
pub mod Bounds
mod Tests
use fermix_linux.Base.{
  ℕ, ◌+◌, ◌-◌, ◌*◌, min, Bool, false, not, ◌&&◌, List, [], ◌++◌, Option, none, some, String, ltb,
  ◌==◌, length, is_empty, take, drop, replicate, if◌then◌else◌, ◌>>=◌,
}
use fermix_linux.Realtime.Protocol.{Progress}
use fermix_linux.Realtime.Level.{pairs, voiced}
use fermix_linux.Realtime.PlaybackIds
use fermix_linux.Realtime.PlaybackIds.{PlaybackIds}

abbrev pub max_queued_samples : ℕ
max_queued_samples = 30 * 24000

pub record PlaybackQueue : Type 0 where
  pub samples : List ℕ
  pub played : ℕ
  pub before_anchor : ℕ
  pub voice_ahead : Option ℕ
  pub ids : PlaybackIds

pub record Pull : Type 0 where
  pub real : ℕ
  pub drained : Bool
  pub emptied : Bool

-- `PlaybackQueue::default()`
pub new : PlaybackQueue
new = record {
  samples = [];
  played = 0;
  before_anchor = 0;
  voice_ahead = none;
  ids = PlaybackIds.empty;
}

-- `voice_ahead.map(|ahead| ahead.saturating_sub(dropped))`
abbrev pub less : Option ℕ → ℕ → Option ℕ
less none n = none
less (some ahead) n = some (ahead - n)

-- Beside the queue, the samples dropped. `none` is a panic of `PlaybackIds`.
pub push_pcm16 : PlaybackQueue → List ℕ → Option String → Option (PlaybackQueue × ℕ)
push_pcm16 q bytes playback_id =
    let arrived = pairs bytes in
    let samples = q.samples ++ arrived in
    let voice = if voiced bytes then some (length samples) else q.voice_ahead in
    let dropped = length samples - max_queued_samples in
    do
      ids ← PlaybackIds.queued q.ids playback_id (length arrived)
      (later, left) ← PlaybackIds.played ids dropped
      some (
        record q {
          samples = drop dropped samples;
          before_anchor = q.before_anchor - dropped;
          voice_ahead = less voice dropped;
          ids = later;
        },
        dropped,
      )

-- `voice_pulled`: the voice still ahead after `real` samples, and whether its end went out
pub voice_pulled : Option ℕ → ℕ → Option ℕ × Bool
voice_pulled none real = (none, false)
voice_pulled (some ahead) real =
    let left = ahead - real in ((if ltb 0 left then some left else none), left == 0)

-- Fills a buffer of `wanted` samples: the queue after it, the buffer, and what was done.
pub pull : PlaybackQueue → ℕ → Option (PlaybackQueue × List ℕ × Pull)
unfolding voice_pulled
pull q wanted =
    let had_audio = not (is_empty q.samples) in
    let real = min wanted (length q.samples) in
    let rest = drop real q.samples in
    let earlier = min real q.before_anchor in
    let (voice, drained) = voice_pulled q.voice_ahead real in
    do
      (ids, left) ← PlaybackIds.played q.ids real
      some (
        record {
          samples = rest;
          played = q.played + (real - earlier);
          before_anchor = q.before_anchor - earlier;
          voice_ahead = voice;
          ids = ids;
        },
        take real q.samples ++ replicate (wanted - real) 0,
        record { real = real; drained = drained; emptied = had_audio && is_empty rest },
      )

pub reset_anchor : PlaybackQueue → PlaybackQueue
reset_anchor q = record q { played = 0; before_anchor = length q.samples }

pub clear : PlaybackQueue → PlaybackQueue
unfolding reset_anchor
clear q =
    reset_anchor (record q { samples = []; voice_ahead = none; ids = PlaybackIds.flushed q.ids })

pub start_call : PlaybackQueue → PlaybackQueue
unfolding clear
start_call q = record (clear q) { ids = PlaybackIds.empty }

pub take_progress : PlaybackQueue → PlaybackQueue × List Progress
take_progress q = let (ids, changed) = PlaybackIds.report q.ids in (record q { ids = ids }, changed)

pub voice_queued : PlaybackQueue → Bool
voice_queued q = elim q.voice_ahead [ some ahead ↦ ltb 0 ahead | none ↦ false ]
