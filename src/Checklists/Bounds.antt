-- ===== src/Checklists/Bounds.antt =====
-- How much the library holds, and how much waits (desktop/core/src/checklists/library.rs).
pub mod Steps
pub mod Answers
pub mod Runs
use fermix_linux.Base.{
  ℕ, suc, ◌+◌, ◌-◌, ◌≤◌, ◌≡◌, refl, sym, subst, Bool, true, false, not, List, [], ◌∷◌, ◌++◌, Option,
  none, some, String, str_mem, arith, length, length-append, length-drop, filter, update_first,
  drop, Bool-cases, Option-cases, inl, inr, any, map,
}
use fermix_linux.Chat.Wire.Lists.{ListOp, ListRow, ListEntry, OwnerList}
use fermix_linux.Checklists.State.{ListState}
use fermix_linux.Checklists.Index.{lacks, titled, serve, Index}
use fermix_linux.Checklists.Library.{
  Library, Held, Outgoing, default, draw, drop_oldest, event_of, hold, holds, let_oldest_go,
  max_held, max_waiting, noted, pull, pull_all, same_held, wait, waits_for, asked_too,
}

-- At most 16 lists are held, 64 wait to be pulled, and 64 edits wait for their answers.
abbrev pub IsBounded : Library → Type 0
IsBounded lib =
    (length lib.held ≤ max_held)
    × ((length lib.waiting ≤ max_waiting) × (length lib.unanswered ≤ max_waiting))

pub length-filter {ℓ} :
    {A : Type ℓ} (test : A → Bool) (xs : List A) → length (filter test xs) ≤ length xs
unfolding filter
length-filter test [] = ground arith
length-filter test (x ∷ xs) = ground (arith, length-filter test xs)

pub length-update_first {ℓ} :
    {A : Type ℓ} (test : A → Bool) (change : A → A) (xs : List A)
    → length (update_first test change xs) ≡ length xs
unfolding update_first
length-update_first test change [] = refl
length-update_first test change (x ∷ xs) = ground (arith, length-update_first test change xs)

let_oldest_go_le :
    (held : List Held) (ids : List String)
    → length held ≤ max_held + 1
    → length (let_oldest_go held ids).0 ≤ max_held
unfolding let_oldest_go
let_oldest_go_le [] ids h = ground arith
let_oldest_go_le (Held.one id ∷ held) ids h = ground (arith, h)
let_oldest_go_le (Held.made id ∷ held) ids h = ground (arith, h)

pub hold-IsBounded :
    (lib : Library) (held : Held) (removed : Bool)
    → IsBounded lib
    → IsBounded (hold lib held removed)
unfolding hold
hold-IsBounded lib held removed k =
    let left = filter (λ old. not (same_held held old)) lib.held in
    ground (
      arith,
      k,
      length-filter (λ old. not (same_held held old)) lib.held,
      length-append left (held ∷ []),
      let_oldest_go_le (left ++ held ∷ []) (noted held removed lib.with_removed),
    )

pub pull-IsBounded :
    (lib : Library) (id : String) (removed : Bool)
    → IsBounded lib
    → IsBounded (pull lib id removed).0
unfolding pull
pull-IsBounded lib id removed k = hold-IsBounded lib (Held.one id) removed k

pub pull_all-IsBounded :
    (lib : Library) (waiting : List (String × Bool))
    → IsBounded lib
    → IsBounded (pull_all lib waiting).0
unfolding pull_all
pull_all-IsBounded lib [] k = k
pull_all-IsBounded lib ((id, removed) ∷ rest) k =
    pull_all-IsBounded (pull lib id removed).0 rest (pull-IsBounded lib id removed k)

length-drop_oldest {ℓ} :
    {A : Type ℓ} (waiting : List A)
    → length waiting ≤ max_waiting + 1
    → length (drop_oldest waiting) ≤ max_waiting
unfolding drop_oldest
length-drop_oldest waiting h = ground (arith, h, length-drop 1 waiting)

wait-IsBounded :
    (lib : Library) (id : String) (removed : Bool) → IsBounded lib → IsBounded (wait lib id removed)
unfolding wait
wait-IsBounded lib id removed k = ground (
  arith,
  k,
  length-update_first (waits_for id) (asked_too removed) lib.waiting,
  length-drop_oldest (lib.waiting ++ (id, removed) ∷ []),
  length-append lib.waiting ((id, removed) ∷ []),
)

pub draw-IsBounded :
    (lib : Library) (id : String) (removed : Bool)
    → IsBounded lib
    → IsBounded (draw lib id removed).0
unfolding draw
draw-IsBounded lib id removed k =
    ground (arith, k, wait-IsBounded lib id removed k, pull-IsBounded lib id removed k)
