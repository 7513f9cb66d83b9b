-- ===== src/Chat/Connection/Backoff.antt =====
-- How long the chat connection waits between its attempts.
use fermix_linux.Base.{
  ℕ, zero, suc, ◌+◌, ◌≤◌, ◌≡◌, refl, Bool, true, false, List, [], ◌∷◌, ◌++◌, none, some,
  if◌then◌else◌, All, arith, length, length-append, inl, inr, ◌⊎◌,
}
use Prim.{tt}
use fermix_linux.Chat.Wire.Events.{ServerEvent}
use fermix_linux.Chat.Handshake.{Handshake, handshake}
use fermix_linux.Chat.Phases.{Lost, Phase, Session}
use fermix_linux.Chat.Connection.{
  delay, start, connected, answered, hello, history_read, running, lost,
}

-- What the app tells the session.
pub data Report : Type 0 where
  started opened page_read : Report
  answer : ServerEvent → Report
  ended : Lost → Report

unfoldable pub after : Session → Report → Session
after s Report.started = (start s).0
after s Report.opened = (connected s).0
after s (Report.answer event) = (hello s event).0
after s Report.page_read = history_read s
after s (Report.ended why) = (lost s why).0

-- The wait that a report returns, if any.
wait : Session → Report → List ℕ
wait s (Report.ended why) = elim (lost s why).1 [ some n ↦ n ∷ [] | none ↦ [] ]
wait s _ = []

unfoldable pub run : Session → List Report → Session
run s [] = s
run s (r ∷ rs) = run (after s r) rs

unfoldable pub waits : Session → List Report → List ℕ
unfolding wait
waits s [] = []
waits s (r ∷ rs) = wait s r ++ waits (after s r) rs

-- The attempts begun.
began : Session → Report → ℕ
began s Report.started = if (start s).1 then 1 else 0
began s _ = 0

unfoldable pub attempts : Session → List Report → ℕ
unfolding began
attempts s [] = 0
attempts s (r ∷ rs) = began s r + attempts (after s r) rs

-- What no report may bring: an answer, or more of the attempts.
abbrev pub up : Session → ℕ
up s = if running s.phase then 1 else 0

-- A handshake's answer is read while one is awaited.
IsAwaited : Session → Report → Type 0
IsAwaited s (Report.answer event) = s.phase ≡ Phase.handshaking
IsAwaited s _ = Unit {0}

unfoldable pub AreAwaited : Session → List Report → Type 0
unfolding IsAwaited
AreAwaited s [] = Unit {0}
AreAwaited s (r ∷ rs) = IsAwaited s r × AreAwaited (after s r) rs

delay_cases :
    (n : ℕ)
    → ((n ≡ 0) × (delay n ≡ 1))
      ⊎ ((n ≡ 1) × (delay n ≡ 2))
      ⊎ ((n ≡ 2) × (delay n ≡ 4))
      ⊎ ((n ≡ 3) × (delay n ≡ 8))
      ⊎ ((n ≡ 4) × (delay n ≡ 16))
      ⊎ ((5 ≤ n) × (delay n ≡ 30))
unfolding delay
delay_cases zero = inl (ground arith, refl)
delay_cases (suc zero) = inr (inl (ground arith, refl))
delay_cases (suc (suc zero)) = inr (inr (inl (ground arith, refl)))
delay_cases (suc (suc (suc zero))) = inr (inr (inr (inl (ground arith, refl))))
delay_cases (suc (suc (suc (suc zero)))) = inr (inr (inr (inr (inl (ground arith, refl)))))
delay_cases (suc (suc (suc (suc (suc n))))) = inr (inr (inr (inr (inr ((ground arith, refl))))))

delay_bounds : (n : ℕ) → (1 ≤ delay n) × (delay n ≤ 30)
delay_bounds n = (ground (arith, delay_cases n), ground (arith, delay_cases n))

pub delay_mono : (m n : ℕ) → m ≤ n → delay m ≤ delay n
delay_mono m n h = ground (arith, delay_cases m, delay_cases n)

-- Waits that a person can sit out.
pub AreBounded : List ℕ → Type 0
AreBounded waits = All (λ w. (1 ≤ w) × (w ≤ 30)) waits

-- One report gives no more waits than the attempts that were up or begin with it.
wait_lem :
    (s : Session) (r : Report)
    → IsAwaited s r
    → length (wait s r) + up (after s r) ≤ up s + began s r
unfolding wait began after start connected hello history_read lost running IsAwaited answered
wait_lem s Report.started h = ground arith
wait_lem s Report.opened h = ground arith
wait_lem s Report.page_read h = ground arith
wait_lem s (Report.answer event) h = ground arith
wait_lem s (Report.ended why) h = ground arith

wait_bounds : (s : Session) (r : Report) → AreBounded (wait s r)
unfolding wait AreBounded lost
wait_bounds s (Report.ended why) = ground (arith, delay_bounds s.failures)
wait_bounds s _ = ground arith

All-append : {A : Type 0} (P : A → Type 0) (xs ys : List A) → All P xs → All P ys → All P (xs ++ ys)
All-append P [] ys ps qs = qs
All-append P (x ∷ xs) ys ps qs = (ps.0, All-append P xs ys ps.1 qs)

-- Where answers are read only while one is awaited, no more waits are given than attempts were up
-- or begun, and each is of 1 to 30 seconds.
pub waits_lem :
    (s : Session) (rs : List Report)
    → AreAwaited s rs
    → AreBounded (waits s rs) × (length (waits s rs) + up (run s rs) ≤ up s + attempts s rs)
unfolding waits run attempts AreAwaited AreBounded
waits_lem s [] h = (tt, ground arith)
waits_lem s (r ∷ rs) h =
    let rest = waits_lem (after s r) rs h.1 in
    (
      All-append _ (wait s r) (waits (after s r) rs) (wait_bounds s r) rest.0,
      ground (arith, wait_lem s r h.0, rest.1, length-append (wait s r) (waits (after s r) rs)),
    )

-- Reports that do not end a kept backoff: no page of the history reads, and the daemon does not
-- refuse this version.
refuses : Handshake → Bool
refuses (Handshake.refused _) = true
refuses _ = false

unfoldable pub IsOwing : Report → Type 0
unfolding refuses
IsOwing Report.page_read = ⊥
IsOwing (Report.answer event) = refuses (handshake event) ≡ false
IsOwing _ = Unit {0}

unfoldable is_refused : Phase → Bool
is_refused (Phase.refused _) = true
is_refused _ = false

-- A backoff kept for the history, of at least so many failures.
unfoldable IsKept : ℕ → Session → Type 0
unfolding is_refused
IsKept n s = (s.history_owed ≡ true) × (n ≤ s.failures) × (is_refused s.phase ≡ false)

pub IsLong : ℕ → List ℕ → Type 0
IsLong n waits = All (λ w. delay n ≤ w) waits

answered-IsKept :
    (n : ℕ) (s : Session) (h : Handshake) → refuses h ≡ false → IsKept n s → IsKept n (answered s h)
unfolding IsKept answered is_refused refuses
answered-IsKept n s _ accepted k = ground (arith, k)

after-IsKept :
    (n : ℕ) (s : Session) (r : Report)
    → n ≤ 4294967295
    → IsOwing r
    → IsKept n s
    → IsKept n (after s r)
unfolding IsKept after start connected hello history_read lost running IsOwing is_refused
after-IsKept n s Report.page_read u o k = absurd o
after-IsKept n s (Report.answer event) u o k = answered-IsKept n s (handshake event) o k
after-IsKept n s _ u o k = ground (arith, k)

wait_kept : (n : ℕ) (s : Session) (r : Report) → IsKept n s → IsLong n (wait s r)
unfolding IsKept IsLong wait lost
wait_kept n s (Report.ended why) k = ground (arith, delay_mono n s.failures)
wait_kept n s _ k = ground arith

run-IsKept :
    (n : ℕ) (s : Session) (rs : List Report)
    → n ≤ 4294967295
    → All IsOwing rs
    → IsKept n s
    → IsKept n (run s rs) × IsLong n (waits s rs)
unfolding run waits IsLong
run-IsKept n s [] u o k = (k, tt)
run-IsKept n s (r ∷ rs) u o k =
    let rest = run-IsKept n (after s r) rs u o.1 (after-IsKept n s r u o.0 k) in
    (rest.0, All-append _ (wait s r) (waits (after s r) rs) (wait_kept n s r k) rest.1)

lost-IsKept :
    (n : ℕ) (s : Session)
    → running s.phase ≡ true
    → n ≤ s.failures + 1
    → n ≤ 4294967295
    → IsKept n (lost s Lost.history).0
unfolding IsKept lost is_refused
lost-IsKept n s up k u = ground (arith, up, k, u)

-- A connection that gives up on its history after so many failures keeps its backoff, past every
-- handshake and whatever other loss comes between, until a page of it reads or the daemon
-- refuses: no wait after that loss is shorter than the one for that many failures and this one,
-- up to the count's greatest value.
pub history-waits :
    (n : ℕ) (s : Session) (rs : List Report)
    → running s.phase ≡ true
    → n ≤ s.failures + 1
    → n ≤ 4294967295
    → All IsOwing rs
    → IsLong n (waits (lost s Lost.history).0 rs)
history-waits n s rs up k u o =
    (run-IsKept n (lost s Lost.history).0 rs u o (lost-IsKept n s up k u)).1
