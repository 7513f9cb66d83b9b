-- ===== src/Checklists/Kept/Out.antt =====
-- The edits drawn over a list once one was answered
-- (desktop/core/src/checklists/library.rs, state.rs).
use Prim.{tt}
use fermix_linux.Base.{
  ◌≡◌, ◌≢◌, refl, subst, Bool, true, false, not, List, [], ◌∷◌, some, String, str_eq, str_eq_iff,
  arith, ◌⊎◌, inl, inr, any, filter, update_first, Bool-cases, Option-cases,
}
use fermix_linux.Checklists.State.{PendingEdit, has_id, taken}
use fermix_linux.Checklists.Library.{Outgoing}
use fermix_linux.Checklists.Library.Answers.{take_out}
use fermix_linux.Checklists.Kept.{AreSent, Waits, sent_of}
use fermix_linux.Checklists.Kept.Lists.{take_out-id, AreSent-filter}

-- What waits is the edit taken out, or waits still.
Waits-take_out :
    (x : Outgoing) (client : String) (sents : List Outgoing) (out : Outgoing × List Outgoing)
    → take_out client sents ≡ some out
    → Waits x sents
    → (x ≡ out.0) ⊎ Waits x out.1
unfolding Waits take_out
Waits-take_out x client [] out h w = elim w [ ]
Waits-take_out x client (sent ∷ sents) out h w =
    elim (Bool-cases (str_eq sent.client_msg_id client)) [
      | inl e ↦
          let same : (sent, sents) ≡ out = ground (arith, e, h) in
          subst (λ t. (x ≡ t.0) ⊎ Waits x t.1) same w
      | inr e ↦ elim (Option-cases (take_out client sents)) [
        | inl n ↦ ground (arith, e, n, h)
        | inr (later, n) ↦
            let same : (later.0, sent ∷ later.1) ≡ out = ground (arith, e, n, h) in
            subst (λ t. (x ≡ t.0) ⊎ Waits x t.1) same
              (elim w [
                | inl p ↦ inr (inl p)
                | inr v ↦ elim (Waits-take_out x client sents later n v) [
                  | inl p ↦ inl p
                  | inr v ↦ inr (inr v)
                ]
              ])
      ]
    ]

-- An edit of another id waits still, and so does one of another list.
Waits-still :
    (list_id client : String) (edit : PendingEdit) (sents : List Outgoing)
    (out : Outgoing × List Outgoing)
    → take_out client sents ≡ some out
    → (has_id client edit ≡ false) ⊎ (out.0.list_id ≢ some list_id)
    → (edit.accepted ≡ true) ⊎ Waits (sent_of list_id edit) sents
    → (edit.accepted ≡ true) ⊎ Waits (sent_of list_id edit) out.1
Waits-still list_id client edit sents out h other (inl e) = inl e
Waits-still list_id client edit sents out h other (inr w) =
    elim (Waits-take_out (sent_of list_id edit) client sents out h w) [
      | inl p ↦
          ground
            (arith, p, other, take_out-id client sents out h, str_eq_iff edit.client_msg_id client)
      | inr v ↦ inr v
    ]

pub AreSent-still :
    (list_id client : String) (edits : List PendingEdit) (sents : List Outgoing)
    (out : Outgoing × List Outgoing)
    → take_out client sents ≡ some out
    → (any (has_id client) edits ≡ false) ⊎ (out.0.list_id ≢ some list_id)
    → AreSent list_id sents edits
    → AreSent list_id out.1 edits
unfolding AreSent
AreSent-still list_id client [] sents out h other k = tt
AreSent-still list_id client (edit ∷ edits) sents out h other (d, (w, k)) = (
  d,
  (
    Waits-still list_id client edit sents out h (ground (arith, other)) w,
    AreSent-still list_id client edits sents out h (ground (arith, other)) k,
  ),
)

any-update_first :
    (id client : String) (edits : List PendingEdit)
    → any (has_id id) (update_first (has_id client) taken edits) ≡ any (has_id id) edits
unfolding update_first
any-update_first id client [] = refl
any-update_first id client (edit ∷ edits) = ground (arith, any-update_first id client edits)

-- The edit was accepted.
pub AreSent-accepted :
    (list_id client : String) (edits : List PendingEdit) (sents : List Outgoing)
    (out : Outgoing × List Outgoing)
    → take_out client sents ≡ some out
    → AreSent list_id sents edits
    → AreSent list_id out.1 (update_first (has_id client) taken edits)
unfolding AreSent update_first
AreSent-accepted list_id client [] sents out h k = tt
AreSent-accepted list_id client (edit ∷ edits) sents out h (d, (w, k)) =
    elim (Bool-cases (has_id client edit)) [
      | inl e ↦
          let past : any (has_id client) edits ≡ false =
            subst (λ id. any (has_id id) edits ≡ false) ((str_eq_iff edit.client_msg_id client).0 e)
              d in
          ground (arith, e, d, AreSent-still list_id client edits sents out h (inl past) k)
      | inr e ↦ ground (
        arith,
        e,
        d,
        any-update_first edit.client_msg_id client edits,
        Waits-still list_id client edit sents out h (inl e) w,
        AreSent-accepted list_id client edits sents out h k,
      )
    ]

abbrev is_other : String → PendingEdit → Bool
is_other client edit = not (has_id client edit)

any-dropped :
    (client : String) (edits : List PendingEdit)
    → any (has_id client) (filter (is_other client) edits) ≡ false
unfolding filter
any-dropped client [] = refl
any-dropped client (edit ∷ edits) = ground (arith, any-dropped client edits)

-- The edit is no longer drawn.
pub AreSent-dropped :
    (list_id client : String) (edits : List PendingEdit) (sents : List Outgoing)
    (out : Outgoing × List Outgoing)
    → take_out client sents ≡ some out
    → AreSent list_id sents edits
    → AreSent list_id out.1 (filter (is_other client) edits)
AreSent-dropped list_id client edits sents out h k =
    AreSent-still list_id client (filter (is_other client) edits) sents out h
      (inl (any-dropped client edits)) (AreSent-filter list_id sents (is_other client) edits k)
