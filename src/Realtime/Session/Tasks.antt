-- ===== src/Realtime/Session/Tasks.antt =====
-- The tasks of a call.
use fermix_linux.Base.{◌≤◌, ◌≡◌, false, Option, some, none, arith, Bool-cases, inl, inr, str_eq_iff}
use fermix_linux.Base.Floats.{Floats}
use fermix_linux.Realtime.Protocol.{ServerEvent, Task}
use fermix_linux.Realtime.Client.{Incoming}
use fermix_linux.Realtime.Session.Data.{Input}
use fermix_linux.Realtime.Session.State.{Session, Outcome}
use fermix_linux.Realtime.Session.Returns.{Returns, of_Returns}
use fermix_linux.Realtime.Session.{event, apply}
use fermix_linux.Realtime.Session.Events.{task_update, is_late}

module _ (fl : Floats) where
  -- A task that replaces another of the same id is of the same or a later revision.
  abbrev pub NotEarlier : Option Task → Option Task → Type 0
  NotEarlier none next = Unit
  NotEarlier (some old) none = Unit
  NotEarlier (some old) (some next) =
      old.delegation_id ≡ next.delegation_id → old.revision ≤ next.revision

  NotEarlier-refl : (task : Option Task) → NotEarlier task task
  NotEarlier-refl none = tt
  NotEarlier-refl (some task) = λ e. omega arith

  NotEarlier-none : (task : Option Task) → NotEarlier task none
  NotEarlier-none none = tt
  NotEarlier-none (some task) = tt

  late_lem :
      (current : Option Task) (task : Task)
      → is_late fl current task ≡ false
      → NotEarlier current (some task)
  unfolding is_late
  late_lem none task h = tt
  late_lem (some old) task h = λ e. ground (arith, str_eq_iff old.delegation_id task.delegation_id)

  task_update-NotEarlier :
      (s : Session fl) (task : Task) → NotEarlier s.task (task_update fl s task).0.task
  unfolding task_update
  task_update-NotEarlier s task = elim (Bool-cases (is_late fl s.task task)) [
    | inl late ↦ rw late (NotEarlier-refl s.task)
    | inr fresh ↦ rw fresh (elim (Bool-cases s.in_call) [
      | inl up ↦ rw up (late_lem s.task task fresh)
      | inr down ↦ rw down (late_lem s.task task fresh)
    ])
  ]

  event-NotEarlier : (s : Session fl) (e : ServerEvent fl) → NotEarlier s.task (event fl s e).0.task
  unfolding event
  event-NotEarlier s (ServerEvent.task task) = task_update-NotEarlier s task
  event-NotEarlier s _ = ground (arith, NotEarlier-refl s.task)

  Returns-NotEarlier :
      (s : Session fl) (i : Input fl) → Returns fl (λ o. NotEarlier s.task o.0.task) (apply fl s i)
  unfolding apply
  Returns-NotEarlier s (Input.wire (Incoming.event e)) = event-NotEarlier s e
  Returns-NotEarlier s Input.begin = ground (arith, NotEarlier-refl s.task, NotEarlier-none s.task)
  Returns-NotEarlier s _ = ground (arith, NotEarlier-refl s.task, NotEarlier-none s.task)

  -- No input puts a task of an earlier revision in the place of one of the same id.
  pub apply-NotEarlier :
      (s : Session fl) (i : Input fl) {o : Outcome fl}
      → apply fl s i ≡ some o
      → NotEarlier s.task o.0.task
  apply-NotEarlier s i h =
      of_Returns fl (λ o. NotEarlier s.task o.0.task) (Returns-NotEarlier s i) h
