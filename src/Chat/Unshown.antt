-- ===== src/Chat/Unshown.antt =====
-- The cards this build could not read (desktop/core/src/chat_wire/unshown.rs). The set is a list
-- with no card twice: nothing here reads its order.
use fermix_linux.Base.{
  ℕ, suc, ◌+◌, ◌≤◌, ◌<◌, ◌≡◌, refl, Bool, true, false, not, ◌&&◌, ◌||◌, List, [], ◌∷◌, Option, none,
  some, String, if◌then◌else◌, arith, length, filter, any, ltb, str_eq, Bool-cases, inl, inr,
}

pub data Asks : Type 0 where
  proposal approval : Asks

pub record Unshown : Type 0 where
  pub asks : Asks
  pub id : Option String

abbrev pub max_kept : ℕ
max_kept = 64

pub asks_eq : Asks → Asks → Bool
asks_eq Asks.proposal Asks.proposal = true
asks_eq Asks.approval Asks.approval = true
asks_eq _ _ = false

-- `Option<String>`'s `==`
id_eq : Option String → Option String → Bool
id_eq none none = true
id_eq (some s) (some t) = str_eq s t
id_eq _ _ = false

pub unshown_eq : Unshown → Unshown → Bool
unfolding id_eq
unshown_eq c d = asks_eq c.asks d.asks && id_eq c.id d.id

-- `BTreeSet::insert`
pub insert : Unshown → List Unshown → List Unshown
insert card kept = if any (unshown_eq card) kept then kept else card ∷ kept

-- How many of a kind are kept.
pub of_kind : List Unshown → Asks → ℕ
of_kind kept asks = length (filter (λ card. asks_eq card.asks asks) kept)

pub keep : List Unshown → Asks → Option String → List Unshown
keep kept asks id =
    insert (record { asks = asks; id = if ltb (of_kind kept asks) max_kept then id else none }) kept

pub resolved : List Unshown → Asks → String → List Unshown
resolved kept asks id =
    filter (λ card. not (asks_eq card.asks asks) || not (id_eq card.id (some id))) kept

pub waiting : List Unshown → Asks → Bool
waiting kept asks = any (λ card. asks_eq card.asks asks) kept

pub data Change : Type 0 where
  kept : Asks → Option String → Change
  settled : Asks → String → Change
  -- a handshake: every card goes
  cleared : Change

pub change : List Unshown → Change → List Unshown
change cards (Change.kept asks id) = keep cards asks id
change cards (Change.settled asks id) = resolved cards asks id
change cards Change.cleared = []

pub run : List Unshown → List Change → List Unshown
run cards [] = cards
run cards (c ∷ cs) = run (change cards c) cs

-- The cards of a kind with an id, and those without.
ids : List Unshown → Asks → ℕ
ids [] asks = 0
ids (card ∷ cards) asks =
    let rest = ids cards asks in
    elim card.id [ some _ ↦ if asks_eq card.asks asks then suc rest else rest | none ↦ rest ]

nones : List Unshown → Asks → ℕ
nones [] asks = 0
nones (card ∷ cards) asks =
    let rest = nones cards asks in
    elim card.id [ none ↦ if asks_eq card.asks asks then suc rest else rest | some _ ↦ rest ]

of_kind_lem :
    (cards : List Unshown) (asks : Asks) → of_kind cards asks ≡ ids cards asks + nones cards asks
unfolding of_kind ids nones filter
of_kind_lem [] asks = refl
of_kind_lem (card ∷ cards) asks = ground (arith, of_kind_lem cards asks)

-- At most so many with an id, and one without.
IsBounded : List Unshown → Type 0
IsBounded cards = (asks : Asks) → (ids cards asks ≤ max_kept) × (nones cards asks ≤ 1)

nones_of_new :
    (cards : List Unshown) (asks : Asks)
    → any (unshown_eq (record { asks = asks; id = none })) cards ≡ false
    → nones cards asks ≡ 0
unfolding nones unshown_eq id_eq asks_eq
nones_of_new [] asks h = refl
nones_of_new (card ∷ cards) Asks.proposal h = ground (arith, nones_of_new cards Asks.proposal)
nones_of_new (card ∷ cards) Asks.approval h = ground (arith, nones_of_new cards Asks.approval)

filter_le :
    (test : Unshown → Bool) (cards : List Unshown) (asks : Asks)
    → (ids (filter test cards) asks ≤ ids cards asks)
      × (nones (filter test cards) asks ≤ nones cards asks)
unfolding filter ids nones
filter_le test [] asks = ground arith
filter_le test (card ∷ cards) asks = elim (Bool-cases (test card)) [
  | inl e ↦ ground (arith, filter_le test cards asks)
  | inr e ↦ ground (arith, filter_le test cards asks)
]

insert-none :
    (cards : List Unshown) (asks asked : Asks)
    → IsBounded cards
    → (ids (insert (record { asks = asks; id = none }) cards) asked ≤ max_kept)
      × (nones (insert (record { asks = asks; id = none }) cards) asked ≤ 1)
unfolding IsBounded insert ids nones asks_eq
insert-none cards asks asked h =
    elim (Bool-cases (any (unshown_eq (record { asks = asks; id = none })) cards)) [
      | inl there ↦ rw (there) (h asked)
      | inr new ↦ rw (new) (one_more asks asked (h asked) (nones_of_new cards asks new))
    ]
  where
    one_more :
        (asks asked : Asks)
        → (ids cards asked ≤ max_kept) × (nones cards asked ≤ 1)
        → nones cards asks ≡ 0
        → (ids (record { asks = asks; id = none } ∷ cards) asked ≤ max_kept)
          × (nones (record { asks = asks; id = none } ∷ cards) asked ≤ 1)
    one_more Asks.proposal Asks.proposal bound e = ground (arith, bound, e)
    one_more Asks.proposal Asks.approval bound e = ground (arith, bound, e)
    one_more Asks.approval Asks.proposal bound e = ground (arith, bound, e)
    one_more Asks.approval Asks.approval bound e = ground (arith, bound, e)

insert-some :
    (cards : List Unshown) (asks asked : Asks) (id : String)
    → IsBounded cards
    → of_kind cards asks < max_kept
    → (ids (insert (record { asks = asks; id = some id }) cards) asked ≤ max_kept)
      × (nones (insert (record { asks = asks; id = some id }) cards) asked ≤ 1)
unfolding IsBounded insert ids nones asks_eq
insert-some cards asks asked id h room =
    elim (Bool-cases (any (unshown_eq (record { asks = asks; id = some id })) cards)) [
      | inl there ↦ rw (there) (h asked)
      | inr new ↦ rw (new) (one_more asks asked (h asked) (ground (arith, of_kind_lem cards asks)))
    ]
  where
    one_more :
        (asks asked : Asks)
        → (ids cards asked ≤ max_kept) × (nones cards asked ≤ 1)
        → ids cards asks < max_kept
        → (ids (record { asks = asks; id = some id } ∷ cards) asked ≤ max_kept)
          × (nones (record { asks = asks; id = some id } ∷ cards) asked ≤ 1)
    one_more Asks.proposal Asks.proposal bound e = ground (arith, bound, e)
    one_more Asks.proposal Asks.approval bound e = ground (arith, bound, e)
    one_more Asks.approval Asks.proposal bound e = ground (arith, bound, e)
    one_more Asks.approval Asks.approval bound e = ground (arith, bound, e)

keep-IsBounded :
    (cards : List Unshown) (asks : Asks) (id : Option String)
    → IsBounded cards
    → (asked : Asks)
    → (ids (keep cards asks id) asked ≤ max_kept) × (nones (keep cards asks id) asked ≤ 1)
unfolding keep
keep-IsBounded cards asks none h asked = elim (Bool-cases (ltb (of_kind cards asks) max_kept)) [
  | inl room ↦ rw (room) (insert-none cards asks asked h)
  | inr full ↦ rw (full) (insert-none cards asks asked h)
]
keep-IsBounded cards asks (some s) h asked = elim (Bool-cases (ltb (of_kind cards asks) max_kept)) [
  | inl room ↦ rw (room) (insert-some cards asks asked s h (ground arith))
  | inr full ↦ rw (full) (insert-none cards asks asked h)
]

change-IsBounded :
    (cards : List Unshown) (c : Change) → IsBounded cards → IsBounded (change cards c)
unfolding change IsBounded resolved ids nones
change-IsBounded cards (Change.kept asks id) h asked = keep-IsBounded cards asks id h asked
change-IsBounded cards (Change.settled asks id) h asked = ground (
  arith,
  filter_le (λ card. not (asks_eq card.asks asks) || not (id_eq card.id (some id))) cards asked,
  h asked,
)
change-IsBounded cards Change.cleared h asked = ground arith

run-IsBounded :
    (cs : List Change) (cards : List Unshown) → IsBounded cards → IsBounded (run cards cs)
unfolding run
run-IsBounded [] cards h = h
run-IsBounded (c ∷ cs) cards h = run-IsBounded cs (change cards c) (change-IsBounded cards c h)

-- Whatever cards come, are settled and go at a handshake, at most `max_kept` and one of a kind
-- are kept.
pub of_kind_le : (cs : List Change) (asks : Asks) → of_kind (run [] cs) asks ≤ suc max_kept
unfolding IsBounded ids nones
of_kind_le cs asks = ground (
  arith,
  of_kind_lem (run [] cs) asks,
  run-IsBounded cs [] (λ asked. (ground arith, ground arith)) asks,
)
