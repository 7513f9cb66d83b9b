-- ===== src/Realtime/Playback/Tests.antt =====
-- A Grok reply on its way to the speaker, and each theorem of the playback at it.
use fermix_linux.Base.{
  ℕ, ◌+◌, ◌-◌, ◌≡◌, refl, List, [], ◌∷◌, ◌++◌, none, some, String, arith, length, drop, take,
  replicate, min, if◌then◌else◌,
}
use fermix_linux.Realtime.Level.{pairs}
use fermix_linux.Realtime.PlaybackIds.Ledger.{sent}
use fermix_linux.Realtime.PlaybackIds.Queued.{is_under}
use fermix_linux.Realtime.Playback.{PlaybackQueue, Pull, max_queued_samples, new, push_pcm16, pull}
use fermix_linux.Realtime.Playback.Bounds.{
  IsQueue, new-IsQueue, push_pcm16_lem, pull_lem, Call, push, fill, flush, report, perform_all,
  perform_all_lem,
}

push_pcm16_lem_example :
    (q' : PlaybackQueue) × (dropped : ℕ) × (push_pcm16 new (0 ∷ 1 ∷ 7 ∷ 2 ∷ 9 ∷ []) (some "r1")
      ≡ some (q', dropped))
    × IsQueue q'
    × (q'.samples ≡ drop dropped (new.samples ++ pairs (0 ∷ 1 ∷ 7 ∷ 2 ∷ 9 ∷ [])))
    × (dropped ≡ length new.samples + length (pairs (0 ∷ 1 ∷ 7 ∷ 2 ∷ 9 ∷ [])) - max_queued_samples)
    × ((other : String)
        → sent other q'.ids.accounts
          ≡ sent other new.ids.accounts
            + (if is_under (some "r1") other then length (pairs (0 ∷ 1 ∷ 7 ∷ 2 ∷ 9 ∷ [])) else 0))
push_pcm16_lem_example = push_pcm16_lem new (0 ∷ 1 ∷ 7 ∷ 2 ∷ 9 ∷ []) (some "r1") new-IsQueue

-- three samples under one id, behind two that carry none
abbrev grok : PlaybackQueue
grok = record {
  samples = 1 ∷ 2 ∷ 3 ∷ 4 ∷ 5 ∷ [];
  played = 0;
  before_anchor = 0;
  voice_ahead = some 5;
  ids = record {
    accounts = record { id = "r1"; queued = 3; played = 0; dropped = 0; reported = none } ∷ [];
    runs = record { account = none; samples = 2 } ∷ record { account = some 0; samples = 3 } ∷ [];
  };
}

grok-IsQueue : IsQueue grok
grok-IsQueue = record {
  ledger = record { owes = (refl, tt); known = (tt, (omega arith, tt)) };
  in_step = refl;
  anchor = omega arith;
  voice = omega arith;
  bounded = omega arith;
}

pull_lem_example :
    (q' : PlaybackQueue) × (out : List ℕ) × (p : Pull) × (pull grok 4 ≡ some (q', out, p))
    × IsQueue q'
    × (p.real ≡ min 4 (length grok.samples))
    × (out ≡ take p.real grok.samples ++ replicate (4 - p.real) 0)
    × (length out ≡ 4)
    × (take p.real grok.samples ++ q'.samples ≡ grok.samples)
    × ((other : String) → sent other q'.ids.accounts ≡ sent other grok.ids.accounts)
pull_lem_example = pull_lem grok 4 grok-IsQueue

abbrev calls : List Call
calls = fill 4 ∷ push (1 ∷ 1 ∷ []) (some "r2") ∷ report ∷ flush ∷ fill 2 ∷ []

perform_all_lem_example : (q' : PlaybackQueue) × (perform_all grok calls ≡ some q') × IsQueue q'
perform_all_lem_example = perform_all_lem grok calls grok-IsQueue
