-- ===== src/Player/Tests.antt =====
-- The theorem on the player at a concrete input.
use fermix_linux.Base.{
  ◌+◌, ◌*◌, ◌/◌, ◌^◌, ℕ, ◌≡◌, refl, true, false, [], ◌∷◌, List, is_some, ◌&&◌, max, min, ltb, leb,
}
use fermix_linux.Player.{Seconds, default, granted, press}
use fermix_linux.Player.Presses.{Act, AsksWith, Plays, run, run-granted, story}

-- Whole seconds in place of floating point numbers.
abbrev whole : Seconds
whole = record {
  F64 = ℕ;
  zero = 0;
  one = 1;
  step = 5;
  infinity = 2 ^ 64;
  neg = λ n. 0;
  add = λ a b. a + b;
  mul = λ a b. a * b;
  div = λ a b. a / b;
  greater = λ a b. max a b;
  lesser = λ a b. min a b;
  clamp = λ low high n. max low (min n high);
  is_finite = λ n. true;
  gt = λ a b. ltb b a;
  ge = λ a b. leb b a;
  rounded = λ n. n;
}

-- A note is pressed, and then another.
abbrev overtaken : List (Act whole)
overtaken = Act.presses "a" ∷ Act.presses "b" ∷ []

run-granted_example :
    let p = run whole (default whole) overtaken in
    ((is_some p.held && (story whole overtaken).up) ≡ false)
    × ((is_some p.asking && (story whole overtaken).up) ≡ false)
    × AsksWith whole ((story whole overtaken).made + 1) (press whole p "a").1
    × Plays whole p 1 (story whole overtaken).awaited (granted whole p 1)
run-granted_example = run-granted whole overtaken "a" 1

known_granted : (granted whole (run whole (default whole) overtaken) 2).1 ≡ true
unfolding run granted
known_granted = refl
