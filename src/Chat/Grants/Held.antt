-- ===== src/Chat/Grants/Held.antt =====
-- A file that the daemon holds for the window is read.
use fermix_linux.Base.{
  ◌≤◌, ◌≡◌, refl, Bool, true, false, not, ◌&&◌, List, [], ◌∷◌, arith, String, str_mem, sym, subst,
}
use fermix_linux.Chat.Grants.{
  Grants, uses_of, fetch, forget, release, answer_of, answered, fetch_all, refs_of, negotiated,
  disconnected, count, new,
}
use fermix_linux.Chat.Grants.Lookups.{uses_of-forget_answers}
use fermix_linux.Chat.Grants.Calls.{Call, step, lets_go, held_after, IsCall, IsHeld}
use fermix_linux.Chat.Grants.Reads.{release_uses-IsHeld, forget_uses-IsHeld, hold-IsHeld}
use fermix_linux.Chat.Grants.Answers.{answer_of-Fits, answered_named-IsHeld}

disconnected-IsHeld :
    (r : String) (g : Grants) (held : Bool) → IsHeld r g held → IsHeld r (disconnected g) false
unfolding disconnected str_mem
disconnected-IsHeld r g held k = ground (arith, k, uses_of-forget_answers r g.uses)

fetch-IsHeld : (r ref : String) (g : Grants) → IsHeld r g false → IsHeld r (fetch g ref).0 false
unfolding fetch str_mem
fetch-IsHeld r ref g k = ground (arith, k)

fetch_all-IsHeld :
    (r : String) (refs : List String) (g : Grants)
    → IsHeld r g false
    → IsHeld r (fetch_all g refs).0 false
unfolding fetch_all
fetch_all-IsHeld r [] g k = k
fetch_all-IsHeld r (ref ∷ refs) g k =
    fetch_all-IsHeld r refs (fetch g ref).0 (fetch-IsHeld r ref g k)

negotiated-IsHeld :
    (r : String) (g : Grants) (held : Bool)
    → g.online ≡ false
    → IsHeld r g held
    → IsHeld r (negotiated g).0 (held && not (lets_go r (negotiated g).1))
unfolding negotiated
negotiated-IsHeld r g held v k =
    let none_held : held ≡ false = ground (arith, v, k) in
    subst (λ h. IsHeld r (negotiated g).0 (h && not (lets_go r (negotiated g).1))) (sym none_held)
      (fetch_all-IsHeld r (refs_of g.uses) (record g { online = true })
        (ground (arith, v, k, none_held)))

pub step-IsHeld :
    (r : String) (g : Grants) (held : Bool) (c : Call)
    → IsCall g c
    → IsHeld r g held
    → IsHeld r (step g c).0 (held_after r held c (step g c).1)
unfolding step held_after IsCall release forget answered
step-IsHeld r g held (Call.read ref) v k = hold-IsHeld r ref g held k
step-IsHeld r g held (Call.read_end ref) v k =
    release_uses-IsHeld r ref g held (uses_of ref g.uses) refl k
step-IsHeld r g held (Call.wait_end ticket ref) v k =
    ground (arith, forget_uses-IsHeld r ref g ticket held (uses_of ref g.uses) refl k)
step-IsHeld r g held (Call.event e) v k =
    answered_named-IsHeld r g e held (answer_of g e) (answer_of-Fits r g e) v k
step-IsHeld r g held Call.handshake v k = negotiated-IsHeld r g held v k
step-IsHeld r g held Call.ending v k = disconnected-IsHeld r g held k

-- The grants after a run of calls, and whether the daemon then holds a ref.
unfoldable pub run : String → Grants → Bool → List Call → Grants × Bool
run ref g held [] = (g, held)
run ref g held (c ∷ calls) =
    let next = step g c in run ref next.0 (held_after ref held c next.1) calls

-- Each call is of its kind where it comes.
unfoldable pub AreCalls : Grants → List Call → Type 0
AreCalls g [] = Unit {0}
AreCalls g (c ∷ calls) = IsCall g c × AreCalls (step g c).0 calls

run-IsHeld :
    (ref : String) (g : Grants) (held : Bool) (calls : List Call)
    → AreCalls g calls
    → IsHeld ref g held
    → IsHeld ref (run ref g held calls).0 (run ref g held calls).1
unfolding run AreCalls
run-IsHeld ref g held [] v k = k
run-IsHeld ref g held (c ∷ calls) v k =
    run-IsHeld ref (step g c).0 (held_after ref held c (step g c).1) calls v.1
      (step-IsHeld ref g held c v.0 k)

counted_lem :
    (ref : String) (g : Grants) (held : Bool) → IsHeld ref g held → held ≡ true → 1 ≤ count g ref
unfolding count
counted_lem ref g held k h = ground (arith, k, h)

-- Where the daemon answers only what is asked, and a handshake comes only once the last
-- connection has ended: whatever reads begin and end, and whatever the answers are, a file that
-- the daemon holds for this connection is one that a read is counted of.
pub run-count :
    (media_dir ref : String) (calls : List Call)
    → AreCalls (new media_dir) calls
    → (run ref (new media_dir) false calls).1 ≡ true
    → 1 ≤ count (run ref (new media_dir) false calls).0 ref
unfolding uses_of str_mem
run-count media_dir ref calls v h =
    let ended = run ref (new media_dir) false calls in
    counted_lem ref ended.0 ended.1 (run-IsHeld ref (new media_dir) false calls v refl) h
