-- ===== src/Realtime/Playback/Bounds.antt =====
-- The playback queue stays bounded and in step with its playback ids, and no method of it panics.
use fermix_linux.Base.{
  ℕ, ◌+◌, ◌-◌, ◌≤◌, ◌≡◌, refl, Bool, true, false, not, ◌&&◌, List, [], ◌∷◌, ◌++◌, Option, none,
  some, String, arith, length, length-append, length-drop, length-take, length-replicate, take,
  drop, replicate, min, is_empty, if◌then◌else◌, ◌>>=◌, take-append-drop,
}
use fermix_linux.Realtime.Level.{pairs, voiced}
use fermix_linux.Realtime.PlaybackIds.Ledger.{IsLedger, total, sent}
use fermix_linux.Realtime.PlaybackIds.Played.{played_lem}
use fermix_linux.Realtime.PlaybackIds.Queued.{queued_lem, is_under, flushed_lem}
use fermix_linux.Realtime.PlaybackIds.Report.{report-IsLedger, runs-report}
use fermix_linux.Realtime.Playback.{
  PlaybackQueue, Pull, max_queued_samples, new, less, push_pcm16, voice_pulled, pull, clear,
  start_call, reset_anchor, take_progress,
}

-- voice that is still ahead ends inside the queue
abbrev pub Ahead : ℕ → Option ℕ → Type 0
Ahead n none = Unit
Ahead n (some ahead) = ahead ≤ n

pub record IsQueue (q : PlaybackQueue) : Type 0 where
  pub ledger : IsLedger q.ids
  pub in_step : total q.ids.runs ≡ length q.samples
  pub anchor : q.before_anchor ≤ length q.samples
  pub voice : Ahead (length q.samples) q.voice_ahead
  pub bounded : length q.samples ≤ max_queued_samples

pub new-IsQueue : IsQueue new
unfolding new
new-IsQueue = record {
  ledger = record { owes = tt; known = tt };
  in_step = refl;
  anchor = omega arith;
  voice = tt;
  bounded = omega arith;
}

Ahead-less : (n k : ℕ) (voice : Option ℕ) → Ahead n voice → Ahead (n - k) (less voice k)
Ahead-less n k none a = tt
Ahead-less n k (some ahead) a = omega arith

Ahead-if :
    (b : Bool) (n k : ℕ) (voice : Option ℕ)
    → Ahead n voice
    → n ≤ k
    → Ahead k (if b then some k else voice)
Ahead-if true n k voice a h = omega arith
Ahead-if false n k none a h = tt
Ahead-if false n k (some ahead) a h = omega arith

Ahead-pulled : (n k : ℕ) (voice : Option ℕ) → Ahead n voice → Ahead (n - k) (voice_pulled voice k).0
unfolding voice_pulled
Ahead-pulled n k none a = tt
Ahead-pulled n k (some ahead) a = ground arith

-- A chunk that arrives is queued whole at the back, and of the result the last `max_queued_samples`
-- are kept; the samples dropped are counted, the queue stays well formed, and the samples are
-- charged to their playback id and to no other.
pub push_pcm16_lem :
    (q : PlaybackQueue) (bytes : List ℕ) (id : Option String)
    → IsQueue q
    → (q' : PlaybackQueue) × (dropped : ℕ) × (push_pcm16 q bytes id ≡ some (q', dropped))
      × IsQueue q'
      × (q'.samples ≡ drop dropped (q.samples ++ pairs bytes))
      × (dropped ≡ length q.samples + length (pairs bytes) - max_queued_samples)
      × ((other : String)
          → sent other q'.ids.accounts
            ≡ sent other q.ids.accounts + (if is_under id other then length (pairs bytes) else 0))
unfolding push_pcm16
push_pcm16_lem q bytes id v =
    let arrived = pairs bytes in
    let samples = q.samples ++ arrived in
    let dropped = length samples - max_queued_samples in
    let size = length-append q.samples arrived in
    let voice : Option ℕ = if voiced bytes then some (length samples) else q.voice_ahead in
    let ahead : Ahead (length samples) voice =
      Ahead-if (voiced bytes) (length q.samples) (length samples) q.voice_ahead v.voice
        (omega (arith, size)) in
    let (ids, c, l, t, st) = queued_lem q.ids id (length arrived) v.ledger in
    let (later, c', taken) = played_lem ids dropped l (omega (arith, v.in_step, t, size)) in
    let left = length-drop dropped samples in
    (
      record q {
        samples = drop dropped samples;
        before_anchor = q.before_anchor - dropped;
        voice_ahead = less voice dropped;
        ids = later;
      },
      dropped,
      rw (c, ◌>>=◌) (rw (c', ◌>>=◌) refl),
      record {
        ledger = taken.ledger;
        in_step = omega (arith, taken.fewer, t, v.in_step, size, left);
        anchor = omega (arith, v.anchor, size, left);
        voice = rw left (Ahead-less (length samples) dropped voice ahead);
        bounded = omega (arith, left);
      },
      refl,
      omega (arith, size),
      λ other. omega (arith, taken.kept.same other, st other),
    )

-- A pull fills the whole buffer: with the samples at the front of the queue, as many as there
-- are, then with silence. Those samples leave the queue, it stays well formed, and as much was
-- sent under each playback id.
pub pull_lem :
    (q : PlaybackQueue) (wanted : ℕ)
    → IsQueue q
    → (q' : PlaybackQueue) × (out : List ℕ) × (p : Pull) × (pull q wanted ≡ some (q', out, p))
      × IsQueue q'
      × (p.real ≡ min wanted (length q.samples))
      × (out ≡ take p.real q.samples ++ replicate (wanted - p.real) 0)
      × (length out ≡ wanted)
      × (take p.real q.samples ++ q'.samples ≡ q.samples)
      × ((other : String) → sent other q'.ids.accounts ≡ sent other q.ids.accounts)
unfolding pull
pull_lem q wanted v =
    let real = min wanted (length q.samples) in
    let earlier = min real q.before_anchor in
    let front = take real q.samples in
    let silence = replicate {A = ℕ} (wanted - real) 0 in
    let left = length-drop real q.samples in
    let (later, c, taken) = played_lem q.ids real v.ledger (omega (arith, v.in_step)) in
    (
      record {
        samples = drop real q.samples;
        played = q.played + (real - earlier);
        before_anchor = q.before_anchor - earlier;
        voice_ahead = (voice_pulled q.voice_ahead real).0;
        ids = later;
      },
      front ++ silence,
      record {
        real = real;
        drained = (voice_pulled q.voice_ahead real).1;
        emptied = not (is_empty q.samples) && is_empty (drop real q.samples);
      },
      rw (c, ◌>>=◌) refl,
      record {
        ledger = taken.ledger;
        in_step = omega (arith, taken.fewer, v.in_step, left);
        anchor = omega (arith, v.anchor, left);
        voice = rw left (Ahead-pulled (length q.samples) real q.voice_ahead v.voice);
        bounded = omega (arith, left, v.bounded);
      },
      refl,
      refl,
      omega (
        arith,
        length-append front silence,
        length-take real q.samples,
        length-replicate {A = ℕ} (wanted - real) 0,
      ),
      take-append-drop real q.samples,
      λ other. taken.kept.same other,
    )

-- A flush leaves nothing queued and no voice owed, and as much sent under each playback id.
pub clear_lem :
    (q : PlaybackQueue)
    → IsQueue (clear q)
      × ((clear q).samples ≡ [])
      × ((clear q).voice_ahead ≡ none)
      × ((other : String) → sent other (clear q).ids.accounts ≡ sent other q.ids.accounts)
unfolding clear
clear_lem q =
    let (l, t, st) = flushed_lem q.ids in
    (
      record { ledger = l; in_step = t; anchor = omega arith; voice = tt; bounded = omega arith },
      refl,
      refl,
      st,
    )

-- One call of a method, by the socket's reader, the pipeline or the session.
pub data Call : Type 0 where
  push : List ℕ → Option String → Call
  fill : ℕ → Call
  flush restart anchor report : Call

abbrev pub perform : PlaybackQueue → Call → Option PlaybackQueue
perform q (push bytes id) = do (q', dropped) ← push_pcm16 q bytes id; some q'
perform q (fill wanted) = do (q', out, p) ← pull q wanted; some q'
perform q flush = some (clear q)
perform q restart = some (start_call q)
perform q anchor = some (reset_anchor q)
perform q report = some (take_progress q).0

abbrev pub perform_all : PlaybackQueue → List Call → Option PlaybackQueue
perform_all q [] = some q
perform_all q (call ∷ calls) = do q' ← perform q call; perform_all q' calls

perform_lem :
    (q : PlaybackQueue) (call : Call)
    → IsQueue q
    → (q' : PlaybackQueue) × (perform q call ≡ some q') × IsQueue q'
unfolding start_call reset_anchor take_progress new
perform_lem q (push bytes id) v =
    let r = push_pcm16_lem q bytes id v in (r.0, rw (r.2, ◌>>=◌) refl, r.3)
perform_lem q (fill wanted) v = let r = pull_lem q wanted v in (r.0, rw (r.3, ◌>>=◌) refl, r.4)
perform_lem q flush v = (clear q, refl, (clear_lem q).0)
perform_lem q restart v = (
  start_call q,
  refl,
  record {
    ledger = record { owes = tt; known = tt };
    in_step = refl;
    anchor = (clear_lem q).0.anchor;
    voice = (clear_lem q).0.voice;
    bounded = (clear_lem q).0.bounded;
  },
)
perform_lem q anchor v = (
  reset_anchor q,
  refl,
  record {
    ledger = v.ledger;
    in_step = v.in_step;
    anchor = omega arith;
    voice = v.voice;
    bounded = v.bounded;
  },
)
perform_lem q report v = (
  (take_progress q).0,
  refl,
  record {
    ledger = report-IsLedger q.ids v.ledger;
    in_step = rw runs-report v.in_step;
    anchor = v.anchor;
    voice = v.voice;
    bounded = v.bounded;
  },
)

-- No sequence of calls on a well formed queue panics, and the queue stays well formed: bounded,
-- its anchor and its voice inside it, and every sample of it under its account.
pub perform_all_lem :
    (q : PlaybackQueue) (calls : List Call)
    → IsQueue q
    → (q' : PlaybackQueue) × (perform_all q calls ≡ some q') × IsQueue q'
perform_all_lem q [] v = (q, refl, v)
perform_all_lem q (call ∷ calls) v =
    let (q', e, v') = perform_lem q call v in
    let (q'', e', v'') = perform_all_lem q' calls v' in (q'', rw (e, ◌>>=◌) e', v'')
