-- ===== src/Security/Utf16.antt =====
-- JavaScript strings as lists of UTF-16 units, with `codePointAt`, `String.fromCodePoint`,
-- `slice` and the decimal digits of `toString`.
use Prim.Native.Nat.{◌*◌, ◌/◌, ◌%◌}
use thunderchat_server.Base.{
  ℕ, zero, suc, ◌+◌, ◌-◌, ◌≤◌, ◌<◌, ◌≡◌, refl, ap, ◌∙◌, Bool, true, false, ◌&&◌, ◌||◌, List, [],
  ◌∷◌, ◌++◌, arith, ltb, leb, if◌then◌else◌, All, length, inl, inr, Bool-cases,
}

abbrev pub Text : Type 0
Text = List ℕ

abbrev pub is_high : ℕ → Bool
is_high u = leb 0xd800 u && leb u 0xdbff

abbrev pub is_low : ℕ → Bool
is_low u = leb 0xdc00 u && leb u 0xdfff

abbrev pub joined : ℕ → ℕ → ℕ
joined high low = (high - 0xd800) * 0x400 + (low - 0xdc00) + 0x10000

-- The code points that a loop over the units of a string reads with `codePointAt`, which takes two
-- units where they are a surrogate pair and then goes on behind both.
unfoldable pub code_points : Text → List ℕ
code_points [] = []
code_points (u ∷ []) = u ∷ []
code_points (u ∷ v ∷ us) =
    let pair = code_points us in
    let single = code_points (v ∷ us) in
    if is_high u && is_low v then joined u v ∷ pair else u ∷ single

-- What `codePointAt` reads at every unit of a string.
unfoldable pub points_at : Text → List ℕ
points_at [] = []
points_at (u ∷ []) = u ∷ []
points_at (u ∷ v ∷ us) = (if is_high u && is_low v then joined u v else u) ∷ points_at (v ∷ us)

abbrev pub high_of : ℕ → ℕ
high_of c = 0xd800 + (c - 0x10000) / 0x400

abbrev pub low_of : ℕ → ℕ
low_of c = 0xdc00 + (c - 0x10000) % 0x400

unfoldable pub from_code_point : ℕ → Text
from_code_point c = if ltb 0xffff c then high_of c ∷ low_of c ∷ [] else c ∷ []

unfoldable pub from_code_points : List ℕ → Text
unfolding from_code_point
from_code_points [] = []
from_code_points (c ∷ cs) = from_code_point c ++ from_code_points cs

abbrev pub take : ℕ → Text → Text
take zero us = []
take (suc n) [] = []
take (suc n) (u ∷ us) = u ∷ take n us

abbrev pub drop : ℕ → Text → Text
drop zero us = us
drop (suc n) [] = []
drop (suc n) (u ∷ us) = drop n us

-- The digits of a number, with fuel for each of them.
abbrev digits : ℕ → ℕ → Text → Text
digits zero n rest = rest
digits (suc fuel) n rest =
    let more = digits fuel (n / 10) ((48 + n % 10) ∷ rest) in
    if ltb n 10 then (48 + n) ∷ rest else more

abbrev pub decimal : ℕ → Text
decimal n = digits (suc n) n []

-- The units of a string are below 2 ^ 16.
abbrev pub IsText : Text → Type 0
IsText us = All (λ u. u < 0x10000) us

-- A code point of Unicode that is no surrogate.
abbrev pub is_scalar : ℕ → Bool
is_scalar c = ltb c 0xd800 || ltb 0xdfff c && ltb c 0x110000

-- A pair of surrogates, and a unit.
from_pair : (u v : ℕ) → (is_high u && is_low v) ≡ true → from_code_point (joined u v) ≡ u ∷ v ∷ []
unfolding from_code_point
from_pair u v pair =
    let high : u ≡ high_of (joined u v) = ground arith in
    let low : v ≡ low_of (joined u v) = ground arith in
    let big : ltb 0xffff (joined u v) ≡ true = ground arith in rw big (rw (← high, ← low) refl)

from_single : (u : ℕ) → u < 0x10000 → from_code_point u ≡ u ∷ []
unfolding from_code_point
from_single u h = ground arith

code_points-single :
    (u : ℕ) (us : Text) → is_high u ≡ false → code_points (u ∷ us) ≡ u ∷ code_points us
unfolding code_points
code_points-single u [] h = refl
code_points-single u (v ∷ us) h = ground arith

points_at-single : (u : ℕ) (us : Text) → is_high u ≡ false → points_at (u ∷ us) ≡ u ∷ points_at us
unfolding points_at
points_at-single u [] h = refl
points_at-single u (v ∷ us) h = ground arith

code_points-pair :
    (c : ℕ) (us : Text)
    → ltb 0xffff c ≡ true
    → ltb c 0x110000 ≡ true
    → code_points (high_of c ∷ low_of c ∷ us) ≡ c ∷ code_points us
unfolding code_points
code_points-pair c us big small =
    let pair : (is_high (high_of c) && is_low (low_of c)) ≡ true = ground arith in
    let back : joined (high_of c) (low_of c) ≡ c = ground arith in rw (pair, back) refl

pub from_code_points-code_points : (us : Text) → IsText us → from_code_points (code_points us) ≡ us
unfolding from_code_points code_points
from_code_points-code_points [] h = refl
from_code_points-code_points (u ∷ []) h = ground (arith, h.0)
from_code_points-code_points (u ∷ v ∷ us) h = elim (Bool-cases (is_high u && is_low v)) [
  | inl pair ↦
      let rest = from_code_points-code_points us h.1.1 in
      rw (pair, from_pair u v pair) (ap (λ t. u ∷ v ∷ t) rest)
  | inr single ↦
      let rest = from_code_points-code_points (v ∷ us) h.1 in
      rw (single, from_single u h.0) (ap (λ t. u ∷ t) rest)
]

pub code_points-from_code_points :
    (cs : List ℕ) → All (λ c. is_scalar c ≡ true) cs → code_points (from_code_points cs) ≡ cs
unfolding from_code_points from_code_point code_points
code_points-from_code_points [] h = refl
code_points-from_code_points (c ∷ cs) h =
    let rest = code_points-from_code_points cs h.1 in
    elim (Bool-cases (ltb 0xffff c)) [
      | inl big ↦ rw big (
          code_points-pair c (from_code_points cs) big (ground (arith, h.0)) ∙ ap (λ t. c ∷ t) rest)
      | inr small ↦
          rw small (
            code_points-single c (from_code_points cs) (ground (arith, h.0)) ∙ ap (λ t. c ∷ t) rest)
    ]

pub take-append : (us vs : Text) → take (length us) (us ++ vs) ≡ us
take-append [] vs = refl
take-append (u ∷ us) vs = ap (λ t. u ∷ t) (take-append us vs)

pub drop-append : (us vs : Text) → drop (length us) (us ++ vs) ≡ vs
drop-append [] vs = refl
drop-append (u ∷ us) vs = drop-append us vs

pub length-take : (n : ℕ) (us : Text) → n ≤ length us → length (take n us) ≡ n
length-take zero us h = refl
length-take (suc n) [] h = omega arith
length-take (suc n) (u ∷ us) h = omega (arith, length-take n us (omega arith))

-- In a string of units that are no surrogates, the two loops read the units.
pub points_at-from_code_points :
    (cs : List ℕ)
    → All (λ c. (is_scalar c && ltb c 0x10000) ≡ true) cs
    → points_at (from_code_points cs) ≡ cs
unfolding from_code_points from_code_point points_at
points_at-from_code_points [] h = refl
points_at-from_code_points (c ∷ cs) h =
    let small : ltb 0xffff c ≡ false = ground (arith, h.0) in
    rw small (
      points_at-single c (from_code_points cs) (ground (arith, h.0))
      ∙ ap (λ t. c ∷ t) (points_at-from_code_points cs h.1))
