-- ===== src/Checklists/Bounds/Steps.antt =====
-- Every edit made here keeps the library's bounds (desktop/core/src/checklists/library.rs).
use fermix_linux.Base.{
  suc, ◌≤◌, ◌≡◌, true, false, [], ◌∷◌, Option, none, some, String, arith, length, length-append,
  Bool-cases, Option-cases, inl, inr,
}
use fermix_linux.Chat.Wire.Lists.{ListOp, ListRow}
use fermix_linux.Checklists.Draft.{reworded}
use fermix_linux.Checklists.State.{edit as edit_state}
use fermix_linux.Checklists.Library.{Library, draw, max_waiting, state_mut}
use fermix_linux.Checklists.Library.Edits.{
  create, edit, outgoing, remove, removal_op, reword, say_refused, send_edit, takes,
}
use fermix_linux.Checklists.Frames.{draw-IsSame}
use fermix_linux.Checklists.Bounds.{IsBounded, draw-IsBounded}

send_edit-IsBounded :
    (lib : Library) (id : String) (op : ListOp) (client : String)
    → IsBounded lib
    → suc (length lib.unanswered) ≤ max_waiting
    → IsBounded (send_edit lib id op client).0
unfolding send_edit
send_edit-IsBounded lib id op client k room =
    let noted = state_mut lib id (λ s. edit_state s op client) in
    let drawn = (draw noted id false).0 in
    ground (
      arith,
      room,
      draw-IsBounded noted id false k,
      draw-IsSame noted id false,
      length-append drawn.unanswered (outgoing client (some id) op ∷ []),
    )

-- What is taken, there is room for, and nothing waits that did not.
takes-room :
    (lib : Library) (id : String) (op : ListOp)
    → IsBounded lib
    → IsBounded (takes lib id op).0
      × ((takes lib id op).1 ≡ true → suc (length (takes lib id op).0.unanswered) ≤ max_waiting)
unfolding takes say_refused
takes-room lib id op k = ground (arith, k)

pub edit-IsBounded :
    (lib : Library) (id : String) (op : ListOp) (client : String)
    → IsBounded lib
    → IsBounded (edit lib id op client).0
unfolding edit
edit-IsBounded lib id op client k = elim (Bool-cases (takes lib id op).1) [
  | inl e ↦ ground (
    arith,
    e,
    send_edit-IsBounded (takes lib id op).0 id op client (takes-room lib id op k).0
        ((takes-room lib id op k).1 e),
  )
  | inr e ↦ ground (arith, e, (takes-room lib id op k).0)
]

pub remove-IsBounded :
    (lib : Library) (id : String) (row : Option String) (client : String)
    → IsBounded lib
    → IsBounded (remove lib id row client).0
unfolding remove
remove-IsBounded lib id row client k =
    let op = removal_op row in
    elim (Bool-cases (takes lib id op).1) [
      | inl e ↦ ground (
        arith,
        e,
        send_edit-IsBounded (takes lib id op).0 id op client (takes-room lib id op k).0
            ((takes-room lib id op k).1 e),
      )
      | inr e ↦ ground (arith, e, (takes-room lib id op k).0)
    ]

pub reword-IsBounded :
    (lib : Library) (id : String) (began : ListRow) (words : String) (memo : Option String)
    (client : String)
    → IsBounded lib
    → IsBounded (reword lib id began words memo client).0
unfolding reword
reword-IsBounded lib id began words memo client k =
    elim (Option-cases (reworded began words memo)) [
      | inl e ↦ ground (arith, e, k)
      | inr (op, e) ↦ ground (arith, e, edit-IsBounded lib id op client k)
    ]

pub create-IsBounded :
    (lib : Library) (title : String) (folder : Option String) (client : String)
    → IsBounded lib
    → IsBounded (create lib title folder client).0
unfolding create
create-IsBounded lib title folder client k = ground (
  arith,
  k,
  length-append lib.unanswered (outgoing client none (ListOp.create title folder) ∷ []),
)
