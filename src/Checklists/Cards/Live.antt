-- ===== src/Checklists/Cards/Live.antt =====
-- Which card of the conversation is live (desktop/core/src/checklists/cards.rs).
use fermix_linux.Base.{
  ℕ, ◌≡◌, refl, sym, ◌∙◌, ap, Bool, false, not, ◌&&◌, ◌||◌, List, [], ◌∷◌, ◌++◌, String, str_mem,
  arith, any, all, is_empty, append_assoc, append-nil, has_seq, insert_seq, ◌==◌,
}
use fermix_linux.Checklists.{ListRef}
use fermix_linux.Checklists.Cards.{ids_of, live, live_from, newest_first}

has_seq-insert_seq :
    (seq other : ℕ) (seqs : List ℕ)
    → has_seq seq (insert_seq other seqs) ≡ ((seq == other) || has_seq seq seqs)
unfolding has_seq insert_seq
has_seq-insert_seq seq other [] = refl
has_seq-insert_seq seq other (x ∷ seqs) = ground (arith, has_seq-insert_seq seq other seqs)

-- Whether a card stands under the reply of a seq.
abbrev pub stands : ℕ → List (ℕ × List ListRef) → Bool
stands seq cards = any (λ card. seq == card.0) cards

-- Whether a card draws a list.
abbrev pub draws : String → List (ℕ × List ListRef) → Bool
unfolding str_mem
draws id cards = any (λ card. str_mem id (ids_of card.1)) cards

live_from-absent :
    (seq : ℕ) (newer : List String) (cards : List (ℕ × List ListRef))
    → stands seq cards ≡ false
    → has_seq seq (live_from newer cards) ≡ false
unfolding has_seq live_from
live_from-absent seq newer [] h = refl
live_from-absent seq newer ((other, refs) ∷ cards) h = ground (
  arith,
  h,
  live_from-absent seq newer cards,
  live_from-absent seq (ids_of refs ++ newer) cards,
  has_seq-insert_seq seq other (live_from (ids_of refs ++ newer) cards),
)

str_mem-append :
    (id : String) (ids others : List String)
    → str_mem id (ids ++ others) ≡ (str_mem id ids || str_mem id others)
unfolding str_mem
str_mem-append id [] others = refl
str_mem-append id (x ∷ ids) others = ground (arith, str_mem-append id ids others)

all-cong {ℓ} :
    {A : Type ℓ} (f g : A → Bool) (xs : List A) → ((x : A) → f x ≡ g x) → all f xs ≡ all g xs
all-cong f g [] h = refl
all-cong f g (x ∷ xs) h = ground (arith, h x, all-cong f g xs h)

-- Whether a card draws lists, and none that newer cards draw.
abbrev pub is_newest : List ListRef → List (ℕ × List ListRef) → List String → Bool
unfolding str_mem
is_newest refs newer drawn =
    not (is_empty refs) && all (λ id. not (draws id newer || str_mem id drawn)) (ids_of refs)

is_newest-draws :
    (refs others : List ListRef) (other : ℕ) (newer : List (ℕ × List ListRef)) (drawn : List String)
    → is_newest refs newer (ids_of others ++ drawn) ≡ is_newest refs ((other, others) ∷ newer) drawn
unfolding str_mem
is_newest-draws refs others other newer drawn = ap (not (is_empty refs) &&◌) (
    all-cong (λ id. not (draws id newer || str_mem id (ids_of others ++ drawn)))
      (λ id. not (draws id ((other, others) ∷ newer) || str_mem id drawn)) (ids_of refs)
      (λ id. ground (arith, str_mem-append id (ids_of others) drawn)))

live_from-at :
    (seq : ℕ) (refs : List ListRef) (drawn : List String) (newer older : List (ℕ × List ListRef))
    → stands seq newer ≡ false
    → stands seq older ≡ false
    → has_seq seq (live_from drawn (newer ++ (seq, refs) ∷ older)) ≡ is_newest refs newer drawn
unfolding live_from str_mem
live_from-at seq refs drawn [] older h k = ground (
  arith,
  live_from-absent seq drawn older k,
  live_from-absent seq (ids_of refs ++ drawn) older k,
  has_seq-insert_seq seq seq (live_from (ids_of refs ++ drawn) older),
)
live_from-at seq refs drawn ((other, []) ∷ newer) older h k = ground (
  arith,
  h,
  live_from-at seq refs drawn newer older (ground (arith, h)) k,
  is_newest-draws refs [] other newer drawn,
)
live_from-at seq refs drawn ((other, r ∷ rs) ∷ newer) older h k =
    let ids = ids_of (r ∷ rs) in
    ground (
      arith,
      h,
      live_from-at seq refs (ids ++ drawn) newer older (ground (arith, h)) k,
      is_newest-draws refs (r ∷ rs) other newer drawn,
      has_seq-insert_seq seq other (live_from (ids ++ drawn) (newer ++ (seq, refs) ∷ older)),
    )

newest_first-append {ℓ} :
    {A : Type ℓ} (xs ys : List A) → newest_first (xs ++ ys) ≡ newest_first ys ++ newest_first xs
unfolding newest_first
newest_first-append [] ys = sym (append-nil (newest_first ys))
newest_first-append (x ∷ xs) ys =
    ground
      (arith, newest_first-append xs ys, append_assoc (newest_first ys) (newest_first xs) (x ∷ []))

any-append {ℓ} :
    {A : Type ℓ} (test : A → Bool) (xs : List A) (x : A)
    → any test (xs ++ x ∷ []) ≡ (any test xs || test x)
any-append test [] x = ground arith
any-append test (y ∷ xs) x = ground (arith, any-append test xs x)

any-newest_first {ℓ} :
    {A : Type ℓ} (test : A → Bool) (xs : List A) → any test (newest_first xs) ≡ any test xs
unfolding newest_first
any-newest_first test [] = refl
any-newest_first test (x ∷ xs) =
    ground (arith, any-newest_first test xs, any-append test (newest_first xs) x)

-- Where no two cards stand under one reply: a card is live where it draws a list and no newer
-- card draws one that it draws, the cards in the order of the conversation, oldest first.
pub live_lem :
    (seq : ℕ) (refs : List ListRef) (older newer : List (ℕ × List ListRef))
    → stands seq older ≡ false
    → stands seq newer ≡ false
    → has_seq seq (live (older ++ (seq, refs) ∷ newer))
      ≡ (not (is_empty refs) && all (λ id. not (draws id newer)) (ids_of refs))
unfolding live str_mem
live_lem seq refs older newer h k =
    let front = newest_first newer in
    let back = newest_first older in
    let turned : newest_first (older ++ (seq, refs) ∷ newer) ≡ front ++ (seq, refs) ∷ back =
      ground (
        arith,
        newest_first-append older ((seq, refs) ∷ newer),
        append_assoc front ((seq, refs) ∷ []) back,
      ) in
    let at =
      live_from-at seq refs [] front back (any-newest_first (λ card. seq == card.0) newer ∙ k)
        (any-newest_first (λ card. seq == card.0) older ∙ h) in
    let same =
      all-cong (λ id. not (draws id front || str_mem id [])) (λ id. not (draws id newer))
        (ids_of refs)
        (λ id. ground (arith, any-newest_first (λ card. str_mem id (ids_of card.1)) newer)) in
    ap (λ cards. has_seq seq (live_from [] cards)) turned ∙ (at ∙ ap (not (is_empty refs) &&◌) same)
