-- ===== src/Chat/Timeline/Runs.antt =====
-- Runs of the calls on the chat, from the first one on.
use fermix_linux.Base.{
  ℕ, ◌+◌, ◌≤◌, ◌<◌, ◌≡◌, String, refl, sym, subst, ap, Bool, true, false, List, [], ◌∷◌, Option,
  none, some, is_some, arith, Option-cases, inl, inr, if◌then◌else◌, ◌>>=◌, max_u64,
}
use fermix_linux.Chat.Wire.Requests.{ClientEvent}
use fermix_linux.Chat.Timeline.State.{Chat, default}
use fermix_linux.Chat.Timeline.Reads.{rows_on_screen, read_again}
use fermix_linux.Chat.Timeline.Cards.{expire_approvals, expire_proposals, reveal, revealed}
use fermix_linux.Chat.Timeline.Receive.{disconnected, first_unreadable}
use fermix_linux.Chat.Timeline.Inputs.{Input, perform}
use fermix_linux.Chat.Timeline.Invariant.{
  seqs_of, IsChat, reads_out, pulls, IsGood, WillBeGood, send_waiting-WillBeGood, read_again-IsChat,
}
use fermix_linux.Chat.Timeline.Steps.{quiet-WillBeGood, answers_read}
use fermix_linux.Chat.Timeline.Unread.{IsEvent, receive-WillBeGood}
use fermix_linux.Chat.Timeline.Sending.{
  send-IsGood, answer-IsGood, answer_proposal-IsGood, stop-IsGood, pull_older-IsGood,
  newest_seen-IsGood, negotiated-IsGood, disconnected-IsChat,
}
use fermix_linux.Base.Ascending.{all_le, ascends}

-- The call ends the read that is out: a page, or the end of the connection.
unfoldable pub ends_read : Input → Bool
ends_read Input.disconnection = true
ends_read (Input.event e _) = answers_read e
ends_read _ = false

-- The seqs that the daemon's events bring are below the greatest number of 64 bits.
unfoldable pub IsInput : Input → Type 0
IsInput (Input.event e _) = IsEvent e
IsInput _ = Unit {0}

unfoldable pub AreInputs : List Input → Type 0
AreInputs [] = Unit {0}
AreInputs (i ∷ inputs) = IsInput i × AreInputs inputs

-- The reads out before a call that the call does not end.
abbrev left_out : ℕ → Input → ℕ
left_out n i = if ends_read i then 0 else n

first_unreadable-IsChat :
    (c : Chat) (kind : String) → IsChat c → IsGood (reads_out c) ((first_unreadable c kind).0, [])
unfolding first_unreadable pulls
first_unreadable-IsChat c kind k = ground (arith, k)

pub perform-WillBeGood :
    (encoded : ClientEvent → ℕ) (c : Chat) (i : Input)
    → IsInput i
    → IsChat c
    → WillBeGood (left_out (reads_out c) i) (perform encoded c i)
unfolding perform IsInput ends_read rows_on_screen expire_approvals expire_proposals reveal revealed
    disconnected pulls read_again
perform-WillBeGood encoded c (Input.negotiation seqs) v k = negotiated-IsGood c seqs k
perform-WillBeGood encoded c Input.disconnection v k = (disconnected-IsChat c k, ground arith)
perform-WillBeGood encoded c (Input.message text id) v k = send-IsGood encoded c text id k
perform-WillBeGood encoded c Input.cancellation v k = stop-IsGood c k
perform-WillBeGood encoded c (Input.approval_answer card approve id) v k =
    answer-IsGood encoded c card approve id k
perform-WillBeGood encoded c (Input.decision card word id) v k =
    answer_proposal-IsGood encoded c card word id k
perform-WillBeGood encoded c (Input.event e now) v k = receive-WillBeGood c e now v k
perform-WillBeGood encoded c Input.top_reached v k = pull_older-IsGood c k
perform-WillBeGood encoded c Input.newest_shown v k = newest_seen-IsGood c k
perform-WillBeGood encoded c (Input.screen seqs) v k =
    send_waiting-WillBeGood (read_again c seqs) (read_again-IsChat c seqs k)
perform-WillBeGood encoded c (Input.approvals_due now) v k =
    quiet-WillBeGood (reads_out c) (expire_approvals c now) k refl
perform-WillBeGood encoded c (Input.proposals_due now) v k =
    quiet-WillBeGood (reads_out c) (expire_proposals c now) k refl
perform-WillBeGood encoded c (Input.asked_for id) v k =
    quiet-WillBeGood (reads_out c) (reveal c id) k refl
perform-WillBeGood encoded c (Input.shown_to id) v k =
    quiet-WillBeGood (reads_out c) (revealed c id) k refl
perform-WillBeGood encoded c (Input.warned_of kind) v k = first_unreadable-IsChat c kind k

-- A run of calls: the chat after them, and the reads sent that no call has ended.
unfoldable pub run : (ClientEvent → ℕ) → Chat → ℕ → List Input → Option (Chat × ℕ)
run encoded chat n [] = some (chat, n)
run encoded chat n (i ∷ inputs) =
    perform encoded chat i >>= λ step. run encoded step.0 (left_out n i + pulls step.1) inputs

-- A run that ended in a chat that holds the invariant, and whose reads out are those it holds.
abbrev pub RunsWell : Option (Chat × ℕ) → Type 0
RunsWell none = ⊥
RunsWell (some (c, n)) = IsChat c × (n ≡ reads_out c)

run_step :
    (encoded : ClientEvent → ℕ) (c : Chat) (n : ℕ) (i : Input) (inputs : List Input)
    → n ≡ reads_out c
    → WillBeGood (left_out (reads_out c) i) (perform encoded c i)
    → ((d : Chat) (m : ℕ) → IsChat d → m ≡ reads_out d → RunsWell (run encoded d m inputs))
    → RunsWell (run encoded c n (i ∷ inputs))
unfolding run
run_step encoded c n i inputs e good later = elim (Option-cases (perform encoded c i)) [
  | inl f ↦ absurd (subst (WillBeGood (left_out (reads_out c) i)) f good)
  | inr (step, f) ↦
      let made : IsGood (left_out (reads_out c) i) step =
        subst (WillBeGood (left_out (reads_out c) i)) f good in
      subst (λ o. RunsWell (o >>= λ step. run encoded step.0 (left_out n i + pulls step.1) inputs))
        (sym f) (later step.0 (left_out n i + pulls step.1) made.0 (ground (arith, e, made.1)))
]

pub run-RunsWell :
    (encoded : ClientEvent → ℕ) (c : Chat) (n : ℕ) (inputs : List Input)
    → AreInputs inputs
    → IsChat c
    → n ≡ reads_out c
    → RunsWell (run encoded c n inputs)
unfolding run AreInputs
run-RunsWell encoded c n [] v k e = (k, e)
run-RunsWell encoded c n (i ∷ inputs) v k e =
    run_step encoded c n i inputs e (perform-WillBeGood encoded c i v.0 k)
      (λ d m kd f. run-RunsWell encoded d m inputs v.1 kd f)

default-IsChat : IsChat default
unfolding ascends all_le
default-IsChat = (refl, refl, ground arith, refl, refl, refl, refl)

pub default-RunsWell :
    (encoded : ClientEvent → ℕ) (inputs : List Input)
    → AreInputs inputs
    → RunsWell (run encoded default 0 inputs)
default-RunsWell encoded inputs v = run-RunsWell encoded default 0 inputs v default-IsChat refl

-- From the first chat on, no calls fail: whatever the owner does and the daemon sends, where the
-- daemon's seqs are below the greatest number of 64 bits, every call returns a chat.
pub run-returns :
    (encoded : ClientEvent → ℕ) (inputs : List Input)
    → AreInputs inputs
    → is_some (run encoded default 0 inputs) ≡ true
run-returns encoded inputs v = elim (Option-cases (run encoded default 0 inputs)) [
  | inl e ↦ absurd (subst RunsWell e (default-RunsWell encoded inputs v))
  | inr (last, e) ↦ ap is_some e
]

-- After such calls the rows that the chat holds ascend by seq, each seq once, none is past the
-- cursor, no seq that waits to be read again is, and the cursor can go on.
pub run-rows :
    (encoded : ClientEvent → ℕ) (inputs : List Input) (c : Chat) (n : ℕ)
    → AreInputs inputs
    → run encoded default 0 inputs ≡ some (c, n)
    → (ascends (seqs_of c.rows) ≡ true)
      × (all_le c.cursor (seqs_of c.rows) ≡ true)
      × (all_le c.cursor c.rows_to_read ≡ true)
      × (c.cursor < max_u64)
run-rows encoded inputs c n v e =
    let k = (subst RunsWell e (default-RunsWell encoded inputs v)).0 in (k.0, k.1, k.3, k.2)

-- After such calls at most one of the reads that they sent is without its page or the end of its
-- connection, and there is one where the chat holds that it waits for a page.
pub run-reads :
    (encoded : ClientEvent → ℕ) (inputs : List Input) (c : Chat) (n : ℕ)
    → AreInputs inputs
    → run encoded default 0 inputs ≡ some (c, n)
    → (n ≡ reads_out c) × (n ≤ 1)
run-reads encoded inputs c n v e =
    let well : RunsWell (some (c, n)) = subst RunsWell e (default-RunsWell encoded inputs v) in
    (well.1, ground (arith, well.1))
