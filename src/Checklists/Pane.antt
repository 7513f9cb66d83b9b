-- ===== src/Checklists/Pane.antt =====
-- Whether the lists' pane is open (desktop/core/src/checklists/pane.rs).
use fermix_linux.Base.{
  ◌≡◌, refl, ◌∙◌, Bool, true, false, not, ◌&&◌, List, [], ◌∷◌, arith, if◌then◌else◌,
}

pub record PaneOpen : Type 0 where
  pub chosen : Bool
  pub collapsed : Bool
  pub asked : Bool
  pub unlaid : Bool
  pub asked_unlaid : Bool

abbrev pub new : Bool → PaneOpen
new chosen = record {
  chosen = chosen;
  collapsed = false;
  asked = false;
  unlaid = true;
  asked_unlaid = false;
}

abbrev pub default : PaneOpen
default = new false

unfoldable pub shown : PaneOpen → Bool
shown p = if p.collapsed then p.asked else p.chosen

unfoldable pub choose : PaneOpen → Bool → PaneOpen
choose p opened = record p { chosen = opened; asked = opened; asked_unlaid = opened && p.unlaid }

unfoldable pub toggle : PaneOpen → PaneOpen
unfolding shown choose
toggle p = choose p (not (shown p))

unfoldable pub collapse : PaneOpen → Bool → PaneOpen
collapse p collapsed = record p {
  collapsed = collapsed;
  asked = if not p.asked_unlaid then false else p.asked;
}

unfoldable pub chat_left : PaneOpen → PaneOpen
chat_left p = record p { unlaid = true; asked_unlaid = false }

unfoldable pub chat_laid_out : PaneOpen → PaneOpen
chat_laid_out p = record p { unlaid = false; asked_unlaid = false }

-- `==` of two Booleans
abbrev pub same : Bool → Bool → Bool
same true b = b
same false b = not b

unfoldable pub widget_shown : PaneOpen → Bool → PaneOpen × Bool
unfolding shown choose
widget_shown p now = if same now (shown p) then (p, false) else (choose p now, true)

-- What happens that is no choice of the owner's.
pub data Change : Type 0 where
  narrows : Bool → Change
  leaves laid_out : Change
  -- The split view follows the pane.
  follows : Change

unfoldable pub change : PaneOpen → Change → PaneOpen
unfolding collapse chat_left chat_laid_out widget_shown shown
change p (Change.narrows collapsed) = collapse p collapsed
change p Change.leaves = chat_left p
change p Change.laid_out = chat_laid_out p
change p Change.follows = (widget_shown p (shown p)).0

unfoldable pub changes : PaneOpen → List Change → PaneOpen
unfolding change
changes p [] = p
changes p (c ∷ rest) = changes (change p c) rest

same_refl : (b : Bool) → same b b ≡ true
same_refl true = refl
same_refl false = refl

change-chosen : (p : PaneOpen) (c : Change) → (change p c).chosen ≡ p.chosen
unfolding change collapse
change-chosen p (Change.narrows collapsed) = refl
change-chosen p Change.leaves = refl
change-chosen p Change.laid_out = refl
change-chosen p Change.follows = ground (arith, same_refl (shown p))

changes-chosen : (p : PaneOpen) (cs : List Change) → (changes p cs).chosen ≡ p.chosen
unfolding changes
changes-chosen p [] = refl
changes-chosen p (c ∷ cs) = changes-chosen (change p c) cs ∙ change-chosen p c

-- However the chat narrows, widens, leaves the screen and is laid out: widened again it shows the
-- pane as the owner last chose.
pub shown-changes :
    (p : PaneOpen) (opened : Bool) (cs : List Change)
    → shown (collapse (changes (choose p opened) cs) false) ≡ opened
unfolding shown collapse choose
shown-changes p opened cs = ground (arith, changes-chosen (choose p opened) cs)
