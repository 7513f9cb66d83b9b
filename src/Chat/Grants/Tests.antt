-- ===== src/Chat/Grants/Tests.antt =====
-- A file that is read, granted and let go, and the theorem on it at a concrete input.
use fermix_linux.Base.{
  ◌≤◌, ◌≡◌, refl, true, false, List, [], ◌∷◌, Option, none, some, String, ◌+++◌, subst, ap, str_mem,
  inl, inr, bytes_of, filter,
}
use Prim.{tt}
use fermix_linux.Chat.Wire.Rows.{Grant}
use fermix_linux.Chat.Wire.Events.{ServerEvent}
use fermix_linux.Chat.Grants.{answered, hold, negotiated, Outcome, answer_of, new, count}
use fermix_linux.Chat.Grants.Paths.{verify}
use fermix_linux.Chat.Grants.Calls.{Call, step, held_after, grants_ref, IsCall}
use fermix_linux.Chat.Grants.Held.{run, AreCalls, run-count}

abbrev ref : String
ref = "0123456789abcdef0123456789abcdef0123456789abcdef0123456789abcdef"

abbrev grant : Grant
grant = record {
  ref = ref;
  path = "/home/media/" +++ ref +++ ".jpg";
  kind = "image";
  mime = "image/jpeg";
  size_bytes = 9;
  sha256 = ref;
}

-- Only a plain path of the directory, named by the ref, is a grant's.
known_grants :
    (verify grant "/home/media" ≡ inr ("/home/media/" +++ ref +++ ".jpg"))
    × (verify grant "/home/./media/" ≡ inr ("/home/media/" +++ ref +++ ".jpg"))
    × (verify grant "/home" ≡ inl "its file is not in the media directory")
    × (verify (record grant { path = "/home/media/../" +++ ref }) "/home"
        ≡ inl "its path is not a plain absolute one")
    × (verify (record grant { path = "/home/media/x.jpg" }) "/home/media"
        ≡ inl "its file is not named by its ref")
    × (verify (record grant { sha256 = "" }) "/home/media" ≡ inl "its digest is not its ref")
unfolding verify bytes_of filter
known_grants = (refl, refl, refl, refl, refl, refl)

abbrev calls : List Call
calls = Call.handshake ∷ Call.read ref ∷ Call.event (ServerEvent.media_path grant) ∷ []

abbrev ref_of : Option (String × Outcome) → String
ref_of none = ""
ref_of (some (other, _)) = other

calls-AreCalls : AreCalls (new "/home/media") calls
unfolding AreCalls IsCall step str_mem answer_of hold bytes_of negotiated
calls-AreCalls = (
  refl,
  (tt, (λ other outcome e. subst (λ s. str_mem s (ref ∷ []) ≡ true) (ap ref_of e) refl, tt)),
)

run-held : (run ref (new "/home/media") false calls).1 ≡ true
unfolding run held_after grants_ref step answered hold bytes_of negotiated str_mem filter
run-held = refl

run-count_example : 1 ≤ count (run ref (new "/home/media") false calls).0 ref
run-count_example = run-count "/home/media" ref calls calls-AreCalls run-held
