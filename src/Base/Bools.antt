-- ===== src/Base/Bools.antt =====
-- Laws of the Boolean operations.
use mathlib.Core.Path.{◌≡◌, refl, ◌∙◌}
use mathlib.Core.Bool.{Bool, true, false, ◌&&◌, ◌||◌}

pub or_false : (a : Bool) → (a || false) ≡ a
or_false true = refl
or_false false = refl

pub or_left_comm : (a b c : Bool) → (a || (b || c)) ≡ (b || (a || c))
or_left_comm true true c = refl
or_left_comm true false c = refl
or_left_comm false b c = refl

pub or_assoc : (a b c : Bool) → ((a || b) || c) ≡ (a || (b || c))
or_assoc true b c = refl
or_assoc false b c = refl

pub and_or : (a b c : Bool) → (a && (b || c)) ≡ ((a && b) || (a && c))
and_or true b c = refl
and_or false b c = refl

pub or_and_false : (a b : Bool) → (a || (b && false)) ≡ a
or_and_false true b = refl
or_and_false false true = refl
or_and_false false false = refl

pub collected : (s a b c : Bool) → ((s || (a && b)) || (a && c)) ≡ (s || (a && (b || c)))
collected true a b c = refl
collected false true b c = refl
collected false false b c = refl

pub gather : (a b c s : Bool) → (((a && b) || s) || (a && c)) ≡ (s || (a && (b || c)))
gather true b c s = or_assoc b s c ∙ or_left_comm b s c
gather false b c s = refl

pub and_or_or : (a b c d : Bool) → ((a && (b || c)) || d) ≡ ((a && b) || ((a && c) || d))
and_or_or a b c d = rw (and_or a b c) (or_assoc (a && b) (a && c) d)

pub or_right : (a b : Bool) → b ≡ true → (a || b) ≡ true
or_right true b h = refl
or_right false b h = h
