-- ===== src/Checklists/Removals/Runs.antt =====
-- What is removed, undone and restored here in turn
-- (desktop/core/src/checklists/removals.rs).
use fermix_linux.Base.{
  ℕ, ◌≤◌, ◌≡◌, refl, ap, List, [], ◌∷◌, Option, none, some, String, arith, length, find,
  Option-cases, inl, inr,
}
use mathlib.Core.Option.{some_inj}
use fermix_linux.Chat.Wire.Requests.{ClientEvent}
use fermix_linux.Checklists.Library.{Library, default as default_library}
use fermix_linux.Checklists.Library.Edits.{remove as remove_edit}
use fermix_linux.Checklists.Calls.{Call, step as call}
use fermix_linux.Checklists.Removals.{
  Removal, Removals, default, is_of, kept_removal, made, max_kept, newest, remove, restore,
  take_back, taken_own, token_or, undo, undo_taken,
}
use fermix_linux.Checklists.Removals.Taken.{
  AreRemovals, IsGone, made-AreRemovals, made-IsGone, take_back-AreRemovals, take_back-IsGone,
  take_back-gone, take_back-some, default-AreRemovals,
}

-- An act of the owner's, or another call of the library.
pub data Act : Type 0 where
  removes : String → Option String → String → String → Act
  undoes : Option ℕ → String → Act
  restores : String → Option String → String → Act
  calls : Call → Act

unfoldable pub act : (String → String) → Removals × Library → Act → Removals × Library
unfolding remove undo restore call
act lower (rs, lib) (Act.removes list_id row_id text client) =
    (remove rs lib list_id row_id text client).0
act lower (rs, lib) (Act.undoes token client) = (undo rs lib token client).0
act lower (rs, lib) (Act.restores list_id row_id client) = (restore rs lib list_id row_id client).0
act lower (rs, lib) (Act.calls c) = (rs, (call lower lib c).0)

unfoldable pub run : (String → String) → Removals × Library → List Act → Removals × Library
unfolding act
run lower s [] = s
run lower s (a ∷ acts) = run lower (act lower s a) acts

-- What holds of removals holds after an act, where it does after a removal made and one taken
-- back.
module _ {ℓ} (P : Removals → Type ℓ)
    (at_made : (rs : Removals) (list_id : String) (row_id : Option String) (text : String)
      → P rs
      → P (made rs list_id row_id text).0)
    (at_taken : (rs : Removals) (token : ℕ) → P rs → P (take_back rs token).0) where
  kept_removal_lem :
      (rs : Removals) (list_id : String) (row_id : Option String) (text : String)
      (sent : Option (List ClientEvent))
      → P rs
      → P (kept_removal rs list_id row_id text sent).0
  unfolding kept_removal
  kept_removal_lem rs list_id row_id text none k = k
  kept_removal_lem rs list_id row_id text (some sent) k = at_made rs list_id row_id text k

  undo_taken_lem :
      (rs : Removals) (lib : Library) (taken : Option Removal) (client : String)
      → P rs
      → P (undo_taken rs lib taken client).0.0
  unfolding undo_taken
  undo_taken_lem rs lib none client k = k
  undo_taken_lem rs lib (some removal) client k = k

  undo_lem :
      (rs : Removals) (lib : Library) (token : Option ℕ) (client : String)
      → P rs
      → P (undo rs lib token client).0.0
  unfolding undo
  undo_lem rs lib token client k = elim (Option-cases (token_or token (newest rs))) [
    | inl e ↦ ground (arith, e, k)
    | inr (n, e) ↦
        let taken = take_back rs n in
        ground (arith, e, undo_taken_lem taken.0 lib taken.1 client (at_taken rs n k))
  ]

  taken_own_lem :
      (rs : Removals) (list_id : String) (row_id : Option String)
      → P rs
      → P (taken_own rs list_id row_id).0
  unfolding taken_own
  taken_own_lem rs list_id row_id k = elim (Option-cases (find (is_of list_id row_id) rs.kept)) [
    | inl e ↦ ground (arith, e, k)
    | inr (removal, e) ↦ ground (arith, e, at_taken rs removal.token k)
  ]

  run_lem :
      (lower : String → String) (s : Removals × Library) (acts : List Act)
      → P s.0
      → P (run lower s acts).0
  unfolding run act remove restore
  run_lem lower s [] k = k
  run_lem lower (rs, lib) (Act.removes list_id row_id text client ∷ acts) k =
      run_lem lower (remove rs lib list_id row_id text client).0 acts
        (kept_removal_lem rs list_id row_id text (remove_edit lib list_id row_id client).1 k)
  run_lem lower (rs, lib) (Act.undoes token client ∷ acts) k =
      run_lem lower (undo rs lib token client).0 acts (undo_lem rs lib token client k)
  run_lem lower (rs, lib) (Act.restores list_id row_id client ∷ acts) k =
      run_lem lower (restore rs lib list_id row_id client).0 acts
        (taken_own_lem rs list_id row_id k)
  run_lem lower (rs, lib) (Act.calls c ∷ acts) k = run_lem lower (rs, (call lower lib c).0) acts k

undo_taken-some :
    (rs : Removals) (lib : Library) (taken : Option Removal) (client : String) (removal : Removal)
    (sent : List ClientEvent)
    → (undo_taken rs lib taken client).1 ≡ some (removal, sent)
    → (taken ≡ some removal) × ((undo_taken rs lib taken client).0.0 ≡ rs)
unfolding undo_taken
undo_taken-some rs lib none client removal sent h = ground (arith, h)
undo_taken-some rs lib (some other) client removal sent h =
    let same : other ≡ removal = ap (λ p. p.0) (some_inj.0 h) in (ap some same, refl)

-- What an undo answers is gone.
undo-IsGone :
    (rs : Removals) (lib : Library) (token : Option ℕ) (client : String) (removal : Removal)
    (sent : List ClientEvent)
    → AreRemovals rs
    → (undo rs lib token client).1 ≡ some (removal, sent)
    → IsGone removal.token (undo rs lib token client).0.0
unfolding undo
undo-IsGone rs lib token client removal sent k h =
    elim (Option-cases (token_or token (newest rs))) [
      | inl e ↦ ground (arith, e, h)
      | inr (n, e) ↦
          let taken = take_back rs n in
          let shown : (undo_taken taken.0 lib taken.1 client).1 ≡ some (removal, sent) =
            ground (arith, e, h) in
          let facts = undo_taken-some taken.0 lib taken.1 client removal sent shown in
          ground (arith, e, facts, take_back-some rs n removal k facts.0)
    ]

undo-gone :
    (rs : Removals) (lib : Library) (token : ℕ) (client : String)
    → IsGone token rs
    → undo rs lib (some token) client ≡ ((rs, lib), none)
unfolding undo undo_taken
undo-gone rs lib token client k = rw (take_back-gone rs token k) refl

run-AreRemovals :
    (lower : String → String) (s : Removals × Library) (acts : List Act)
    → AreRemovals s.0
    → AreRemovals (run lower s acts).0
run-AreRemovals lower s acts k =
    run_lem AreRemovals made-AreRemovals take_back-AreRemovals lower s acts k

-- The removals and the library before anything was done.
abbrev pub first_state : Removals × Library
first_state = (default, default_library)

-- Whatever is removed, undone and restored here, before and after, and whatever else becomes of
-- the lists: at most 20 removals are kept, and once an undo, of a token or of the newest removal,
-- answers a removal, undoing its token sends nothing and changes nothing.
pub run-undo :
    (lower : String → String) (before later : List Act) (token : Option ℕ) (client again : String)
    (removal : Removal) (sent : List ClientEvent)
    → (undo (run lower first_state before).0 (run lower first_state before).1 token client).1
      ≡ some (removal, sent)
    → (length (run lower first_state before).0.kept ≤ max_kept)
      × (undo
            (run lower
              (undo
                (run lower first_state before).0
                (run lower first_state before).1
                token
                client).0
              later).0
            (run lower
              (undo
                (run lower first_state before).0
                (run lower first_state before).1
                token
                client).0
              later).1
            (some removal.token)
            again
          ≡ (
            run lower
                (undo
                  (run lower first_state before).0
                  (run lower first_state before).1
                  token
                  client).0
                later,
            none,
          ))
run-undo lower before later token client again removal sent h =
    let s = run lower first_state before in
    let next = (undo s.0 s.1 token client).0 in
    let valid = run-AreRemovals lower first_state before default-AreRemovals in
    let gone =
      run_lem (IsGone removal.token)
        (λ rs list_id row_id text k. made-IsGone rs list_id row_id text removal.token k)
        (λ rs other k. take_back-IsGone rs removal.token other k) lower next later
        (undo-IsGone s.0 s.1 token client removal sent valid h) in
    (valid.0, undo-gone (run lower next later).0 (run lower next later).1 removal.token again gone)
