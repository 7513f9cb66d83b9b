-- ===== src/Checklists/Kept/Lists.antt =====
-- The edits drawn over one list, as they come and go
-- (desktop/core/src/checklists/state.rs).
use Prim.{tt}
use fermix_linux.Base.{
  ◌≡◌, refl, Bool, false, List, [], ◌∷◌, ◌++◌, some, String, str_eq, str_eq_iff, arith, inl, inr,
  any, filter, Bool-cases, Option-cases,
}
use fermix_linux.Checklists.State.{PendingEdit, has_id, taken}
use fermix_linux.Checklists.Library.{Outgoing}
use fermix_linux.Checklists.Library.Answers.{take_out}
use fermix_linux.Checklists.Kept.{AreSent, Waits, sent_of}

Waits-append :
    (out x : Outgoing) (sents : List Outgoing) → Waits out sents → Waits out (sents ++ x ∷ [])
unfolding Waits
Waits-append out x [] h = elim h [ ]
Waits-append out x (sent ∷ sents) (inl e) = inl e
Waits-append out x (sent ∷ sents) (inr h) = inr (Waits-append out x sents h)

Waits-last : (out : Outgoing) (sents : List Outgoing) → Waits out (sents ++ out ∷ [])
unfolding Waits
Waits-last out [] = inl refl
Waits-last out (sent ∷ sents) = inr (Waits-last out sents)

pub take_out-id :
    (client : String) (sents : List Outgoing) (taken : Outgoing × List Outgoing)
    → take_out client sents ≡ some taken
    → taken.0.client_msg_id ≡ client
unfolding take_out
take_out-id client [] taken h = ground (arith, h)
take_out-id client (sent ∷ sents) taken h = elim (Option-cases (take_out client sents)) [
  | inl e ↦ ground (arith, e, h, str_eq_iff sent.client_msg_id client)
  | inr (later, e) ↦
      ground (arith, e, h, str_eq_iff sent.client_msg_id client, take_out-id client sents later e)
]

any-append :
    (id : String) (edits : List PendingEdit) (edit : PendingEdit)
    → any (has_id id) edits ≡ false
    → str_eq edit.client_msg_id id ≡ false
    → any (has_id id) (edits ++ edit ∷ []) ≡ false
any-append id [] edit h k = ground (arith, k)
any-append id (other ∷ edits) edit h k = ground (arith, h, k, any-append id edits edit)

-- An edit made.
pub AreSent-append :
    (list_id : String) (sents : List Outgoing) (edits : List PendingEdit) (edit : PendingEdit)
    → any (has_id edit.client_msg_id) edits ≡ false
    → AreSent list_id sents edits
    → AreSent list_id (sents ++ sent_of list_id edit ∷ []) (edits ++ edit ∷ [])
unfolding AreSent
AreSent-append list_id sents [] edit h k =
    (refl, (inr (Waits-last (sent_of list_id edit) sents), tt))
AreSent-append list_id sents (other ∷ edits) edit h (d, (w, k)) = (
  any-append other.client_msg_id edits edit d (
      ground (
        arith,
        h,
        str_eq_iff other.client_msg_id edit.client_msg_id,
        str_eq_iff edit.client_msg_id other.client_msg_id,
      )),
  (
    elim w [
      | inl e ↦ inl e
      | inr h ↦ inr (Waits-append (sent_of list_id other) (sent_of list_id edit) sents h)
    ],
    AreSent-append list_id sents edits edit (ground (arith, h)) k,
  ),
)

-- More waits.
pub AreSent-more :
    (list_id : String) (sents : List Outgoing) (edits : List PendingEdit) (sent : Outgoing)
    → AreSent list_id sents edits
    → AreSent list_id (sents ++ sent ∷ []) edits
unfolding AreSent
AreSent-more list_id sents [] sent k = tt
AreSent-more list_id sents (edit ∷ edits) sent (d, (w, k)) = (
  d,
  (
    elim w [ inl e ↦ inl e | inr h ↦ inr (Waits-append (sent_of list_id edit) sent sents h) ],
    AreSent-more list_id sents edits sent k,
  ),
)

any-filter :
    (id : String) (test : PendingEdit → Bool) (edits : List PendingEdit)
    → any (has_id id) edits ≡ false
    → any (has_id id) (filter test edits) ≡ false
unfolding filter
any-filter id test [] h = refl
any-filter id test (edit ∷ edits) h = ground (arith, h, any-filter id test edits)

-- Some are no longer drawn.
pub AreSent-filter :
    (list_id : String) (sents : List Outgoing) (test : PendingEdit → Bool)
    (edits : List PendingEdit)
    → AreSent list_id sents edits
    → AreSent list_id sents (filter test edits)
unfolding AreSent filter
AreSent-filter list_id sents test [] k = tt
AreSent-filter list_id sents test (edit ∷ edits) k = elim (Bool-cases (test edit)) [
  | inl e ↦ ground (
    arith,
    e,
    k,
    any-filter edit.client_msg_id test edits k.0,
    AreSent-filter list_id sents test edits k.1.1,
  )
  | inr e ↦ ground (arith, e, AreSent-filter list_id sents test edits k.1.1)
]
