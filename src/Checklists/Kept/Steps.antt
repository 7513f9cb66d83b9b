-- ===== src/Checklists/Kept/Steps.antt =====
-- Every call of the library keeps the edits drawn among those that wait
-- (desktop/core/src/checklists/library.rs).
use fermix_linux.Base.{
  ◌≡◌, ◌≢◌, refl, sym, subst, true, false, List, [], ◌∷◌, ◌++◌, Option, none, some, String, str_eq,
  str_eq_iff, arith, inl, inr, any, Bool-cases, Option-cases, if◌then◌else◌,
}
use fermix_linux.Chat.Wire.Lists.{ListOp, ListRow}
use fermix_linux.Checklists.Draft.{reworded}
use fermix_linux.Checklists.State.{ListState, has_id, edit as edit_state}
use fermix_linux.Checklists.Library.{
  Library, Outgoing, draw, or_default, put_state, state_in, state_mut,
}
use fermix_linux.Checklists.Library.Edits.{
  create, edit, outgoing, remove, removal_op, reword, say_refused, send_edit, takes, too_many,
}
use fermix_linux.Checklists.Frames.{IsSame, draw-IsSame}
use fermix_linux.Checklists.Kept.{AreKept, AreSent, IsKept, pending_in}
use fermix_linux.Checklists.Kept.Lists.{AreSent-append, AreSent-more}

pub state_in-put_state :
    (l list_id : String) (s : ListState) (states : List (String × ListState))
    → state_in l (put_state list_id s states)
      ≡ (if str_eq l list_id then some s else state_in l states)
unfolding state_in put_state
state_in-put_state l list_id s [] = ground arith
state_in-put_state l list_id s ((id, old) ∷ states) = ground (
  arith,
  str_eq_iff l list_id,
  str_eq_iff list_id id,
  str_eq_iff l id,
  state_in-put_state l list_id s states,
)

pub IsSame-IsKept : (lib next : Library) → IsSame lib next → IsKept lib → IsKept next
IsSame-IsKept lib next (u, (s, c)) k =
    subst (λ un. AreKept un next.states) (sym u)
      (subst (λ states. AreKept lib.unanswered states) (sym s) k)

-- One list's state changes, and other edits wait.
pub put_state-AreKept :
    (list_id : String) (s : ListState) (unanswered : List Outgoing)
    (states : List (String × ListState))
    → AreSent list_id unanswered s.pending
    → ((l : String) → l ≢ list_id → AreSent l unanswered (pending_in l states))
    → AreKept unanswered (put_state list_id s states)
unfolding AreKept
put_state-AreKept list_id s unanswered states here elsewhere = λ l.
    elim (Bool-cases (str_eq l list_id)) [
      | inl e ↦
          let same : l ≡ list_id = (str_eq_iff l list_id).0 e in
          let found : state_in l (put_state list_id s states) ≡ some s =
            ground (arith, e, state_in-put_state l list_id s states) in
          subst (λ o. AreSent l unanswered (or_default o).pending) (sym found)
            (subst (λ id. AreSent id unanswered s.pending) (sym same) here)
      | inr e ↦
          let found : state_in l (put_state list_id s states) ≡ state_in l states =
            ground (arith, e, state_in-put_state l list_id s states) in
          subst (λ o. AreSent l unanswered (or_default o).pending) (sym found)
            (elsewhere l (λ p. ground (arith, e, p, str_eq_iff l list_id)))
    ]

-- A change that leaves the edits of the list.
pub same_pending-AreKept :
    (list_id : String) (s : ListState) (unanswered : List Outgoing)
    (states : List (String × ListState))
    → s.pending ≡ pending_in list_id states
    → AreKept unanswered states
    → AreKept unanswered (put_state list_id s states)
unfolding AreKept
same_pending-AreKept list_id s unanswered states same k =
    put_state-AreKept list_id s unanswered states
      (subst (AreSent list_id unanswered) (sym same) (k list_id)) (λ l other. k l)

say_refused-IsKept :
    (lib : Library) (list_id sentence : String) (op : ListOp)
    → IsKept lib
    → IsKept (say_refused lib list_id op sentence)
unfolding say_refused state_mut
say_refused-IsKept lib list_id sentence op k = ground (
  arith,
  k,
  same_pending-AreKept list_id
      (record (or_default (state_in list_id lib.states)) { refusal = some sentence }) lib.unanswered
      lib.states refl k,
)

-- What is taken leaves the library as it was.
takes-IsKept :
    (lib : Library) (list_id : String) (op : ListOp) → IsKept lib → IsKept (takes lib list_id op).0
unfolding takes
takes-IsKept lib list_id op k = ground (arith, k, say_refused-IsKept lib list_id too_many op k)

takes-true :
    (lib : Library) (list_id : String) (op : ListOp)
    → (takes lib list_id op).1 ≡ true
    → (takes lib list_id op).0 ≡ lib
unfolding takes
takes-true lib list_id op h = ground (arith, h)

-- An edit of a new id.
unfoldable pub IsFresh : String → String → Library → Type 0
IsFresh list_id client lib = any (has_id client) (pending_in list_id lib.states) ≡ false

send_edit-IsKept :
    (lib : Library) (list_id client : String) (op : ListOp)
    → IsFresh list_id client lib
    → IsKept lib
    → IsKept (send_edit lib list_id op client).0
unfolding send_edit state_mut AreKept IsFresh
send_edit-IsKept lib list_id client op fresh k =
    let edited = edit_state (or_default (state_in list_id lib.states)) op client in
    let drawn = state_mut lib list_id (λ s. edit_state s op client) in
    let sent = outgoing client (some list_id) op in
    let same = draw-IsSame drawn list_id false in
    let made : AreKept (lib.unanswered ++ sent ∷ []) (put_state list_id edited lib.states) =
      put_state-AreKept list_id edited (lib.unanswered ++ sent ∷ []) lib.states
        (AreSent-append list_id lib.unanswered (pending_in list_id lib.states)
          (record { client_msg_id = client; op = op; accepted = false }) fresh (k list_id))
        (λ l other. AreSent-more l lib.unanswered (pending_in l lib.states) sent (k l)) in
    subst (λ un. AreKept (un ++ sent ∷ []) (draw drawn list_id false).0.states) (sym same.0)
      (subst (λ states. AreKept (lib.unanswered ++ sent ∷ []) states) (sym same.1.0) made)

pub edit-IsKept :
    (lib : Library) (list_id client : String) (op : ListOp)
    → IsFresh list_id client lib
    → IsKept lib
    → IsKept (edit lib list_id op client).0
unfolding edit
edit-IsKept lib list_id client op fresh k = elim (Bool-cases (takes lib list_id op).1) [
  | inl e ↦
      ground (arith, e, takes-true lib list_id op e, send_edit-IsKept lib list_id client op fresh k)
  | inr e ↦ ground (arith, e, takes-IsKept lib list_id op k)
]

pub remove-IsKept :
    (lib : Library) (list_id client : String) (row : Option String)
    → IsFresh list_id client lib
    → IsKept lib
    → IsKept (remove lib list_id row client).0
unfolding remove
remove-IsKept lib list_id client row fresh k =
    let op = removal_op row in
    elim (Bool-cases (takes lib list_id op).1) [
      | inl e ↦
          ground
            (arith, e, takes-true lib list_id op e, send_edit-IsKept lib list_id client op fresh k)
      | inr e ↦ ground (arith, e, takes-IsKept lib list_id op k)
    ]

pub reword-IsKept :
    (lib : Library) (list_id client : String) (began : ListRow) (words : String)
    (memo : Option String)
    → IsFresh list_id client lib
    → IsKept lib
    → IsKept (reword lib list_id began words memo client).0
unfolding reword
reword-IsKept lib list_id client began words memo fresh k =
    elim (Option-cases (reworded began words memo)) [
      | inl e ↦ ground (arith, e, k)
      | inr (op, e) ↦ ground (arith, e, edit-IsKept lib list_id client op fresh k)
    ]

pub create-IsKept :
    (lib : Library) (title client : String) (folder : Option String)
    → IsKept lib
    → IsKept (create lib title folder client).0
unfolding create AreKept
create-IsKept lib title client folder k =
    let sent = outgoing client none (ListOp.create title folder) in
    let more : AreKept (lib.unanswered ++ sent ∷ []) lib.states =
      λ l. AreSent-more l lib.unanswered (pending_in l lib.states) sent (k l) in
    ground (arith, k, more)
