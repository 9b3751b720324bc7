-- ===== src/Common/Text.antt =====
-- Strings of the language: sequences of UTF-16 code units, with `+`, `===`, `<` and `includes`.
-- A literal is written `units "..."`; the source's literals lie in the basic plane.
use Prim.Native.Char.{code}
use Prim.Native.String.{String}
use Prim.Native.Nat.{ℕ, zero, suc, ◌+◌, ◌-◌, ◌*◌, ◌/◌, ◌%◌, ◌<◌, ◌≤◌}
use mathlib.Core.Path.{◌≡◌, refl}
use mathlib.Core.Logic.{◌↔◌, ◌≢◌, inl, inr}
use mathlib.Core.Bool.{Bool, true, false, ◌&&◌, ◌||◌, not}
use mathlib.Core.List.{List, [], ◌∷◌, ◌++◌}
use native.Mathlib.Omega.{arith}
use fast_share.Common.Lists.{All, All-snoc}
use mathlib.Core.Logic.{◌≢◌}
use fast_share.Common.Tests.{ltb, ◌==◌, if◌then◌else◌, Bool-cases}

abbrev pub Text : Type 0
Text = List ℕ

abbrev pub units : String → Text
units String.[] = []
units (String.◌∷◌ c s) = code c ∷ units s

-- `a === b`
unfoldable pub text_eq : Text → Text → Bool
text_eq [] [] = true
text_eq [] (d ∷ t) = false
text_eq (c ∷ s) [] = false
text_eq (c ∷ s) (d ∷ t) = c == d && text_eq s t

-- `a < b`
unfoldable pub text_lt : Text → Text → Bool
text_lt s [] = false
text_lt [] (d ∷ t) = true
text_lt (c ∷ s) (d ∷ t) = ltb c d || (c == d && text_lt s t)

pub text_eq_refl : (s : Text) → text_eq s s ≡ true
unfolding text_eq
text_eq_refl [] = refl
text_eq_refl (c ∷ s) = ground (arith, text_eq_refl s)

text_eq_sound : (s t : Text) → text_eq s t ≡ true → s ≡ t
unfolding text_eq
text_eq_sound [] [] h = refl
text_eq_sound [] (d ∷ t) h = cc
text_eq_sound (c ∷ s) [] h = cc
text_eq_sound (c ∷ s) (d ∷ t) h = ground (arith, text_eq_sound s t)

pub text_eq_iff : (s t : Text) → (text_eq s t ≡ true) ↔ (s ≡ t)
text_eq_iff s t = (text_eq_sound s t, λ e. rw e (text_eq_refl t))

-- Code unit order is total and antisymmetric.
pub text_lt-total : (s t : Text) → text_lt s t ≡ false → text_lt t s ≡ false → s ≡ t
unfolding text_lt
text_lt-total [] [] h k = refl
text_lt-total [] (d ∷ t) h k = cc
text_lt-total (c ∷ s) [] h k = cc
text_lt-total (c ∷ s) (d ∷ t) h k = ground (arith, text_lt-total s t)

pub text_lt-asymm : (s t : Text) → text_lt s t ≡ true → text_lt t s ≡ false
unfolding text_lt
text_lt-asymm s [] h = cc
text_lt-asymm [] (d ∷ t) h = refl
text_lt-asymm (c ∷ s) (d ∷ t) h = ground (arith, text_lt-asymm s t)

-- `String(n)` of a natural number
decimal_from : ℕ → ℕ → Text
decimal_from zero n = []
decimal_from (suc fuel) n =
    let rest = decimal_from fuel (n / 10) in
    if ltb n 10 then (48 + n) ∷ [] else rest ++ (48 + n % 10) ∷ []

-- The value falls in every round, so the fuel suffices: see `digits_value-decimal`.
unfoldable pub decimal : ℕ → Text
unfolding decimal_from
decimal n = decimal_from (suc n) n

-- `Number(s)` of a text of digits; the empty text is 0
digits_value_from : ℕ → Text → ℕ
digits_value_from acc [] = acc
digits_value_from acc (c ∷ s) = digits_value_from (acc * 10 + (c - 48)) s

unfoldable pub digits_value : Text → ℕ
unfolding digits_value_from
digits_value s = digits_value_from 0 s

digits_value_from-snoc :
    (acc c : ℕ) (s : Text)
    → digits_value_from acc (s ++ c ∷ []) ≡ digits_value_from acc s * 10 + (c - 48)
unfolding digits_value_from
digits_value_from-snoc acc c [] = refl
digits_value_from-snoc acc c (d ∷ s) = digits_value_from-snoc (acc * 10 + (d - 48)) c s

digits_value-decimal_from : (fuel n : ℕ) → n < fuel → digits_value_from 0 (decimal_from fuel n) ≡ n
unfolding decimal_from digits_value_from
digits_value-decimal_from zero n h = elim h [ ]
digits_value-decimal_from (suc fuel) n h = ground (
  arith,
  digits_value-decimal_from fuel (n / 10),
  digits_value_from-snoc 0 (48 + n % 10) (decimal_from fuel (n / 10)),
)

-- Reading back what `String(n)` writes gives `n`.
pub digits_value-decimal : (n : ℕ) → digits_value (decimal n) ≡ n
unfolding digits_value decimal
digits_value-decimal n = digits_value-decimal_from (suc n) n (omega arith)

decimal_test : decimal 60000 ≡ units "60000"
unfolding decimal
decimal_test = refl

-- A code unit that does not occur in a text.
abbrev pub Lacks : ℕ → Text → Type 0
Lacks u s = All (λ c. c ≢ u) s

-- Two texts that are split at the first occurrence of a unit have the same parts.
pub split_at_unit :
    (u : ℕ) (a b c d : Text) → Lacks u a → Lacks u c → a ++ u ∷ b ≡ c ++ u ∷ d → (a ≡ c) × (b ≡ d)
split_at_unit u [] b [] d h k e = (refl, cc)
split_at_unit u [] b (y ∷ c) d h k e = absurd (k.0 (cc))
split_at_unit u (x ∷ a) b [] d h k e = absurd (h.0 (cc))
split_at_unit u (x ∷ a) b (y ∷ c) d h k e =
    let (same, rest) = split_at_unit u a b c d h.1 k.1 (cc) in (cc, rest)

pub not-Lacks : (u : ℕ) (s a b : Text) → Lacks u s → s ≢ a ++ u ∷ b
not-Lacks u [] [] b h e = cc
not-Lacks u [] (y ∷ a) b h e = cc
not-Lacks u (x ∷ s) [] b h e = h.0 (cc)
not-Lacks u (x ∷ s) (y ∷ a) b h e = not-Lacks u s a b h.1 (cc)

unfoldable pub lacks : ℕ → Text → Bool
lacks u [] = true
lacks u (c ∷ s) = not (c == u) && lacks u s

pub lacks-Lacks : (u : ℕ) (s : Text) → lacks u s ≡ true → Lacks u s
unfolding lacks
lacks-Lacks u [] h = tt
lacks-Lacks u (c ∷ s) h = (ground arith, lacks-Lacks u s (ground arith))

abbrev pub IsDigit : ℕ → Type 0
IsDigit c = (48 ≤ c) × (c ≤ 57)

decimal_from-AreDigits : (fuel n : ℕ) → All IsDigit (decimal_from fuel n)
unfolding decimal_from
decimal_from-AreDigits zero n = tt
decimal_from-AreDigits (suc fuel) n = elim (Bool-cases (ltb n 10)) [
  | inl e ↦ rw e ((omega arith, ground arith), tt)
  | inr e ↦ rw e (
      All-snoc IsDigit (decimal_from fuel (n / 10)) (48 + n % 10)
        (decimal_from-AreDigits fuel (n / 10)) (omega arith, omega arith))
]

-- `String(n)` is made of digits.
pub decimal-AreDigits : (n : ℕ) → All IsDigit (decimal n)
unfolding decimal
decimal-AreDigits n = decimal_from-AreDigits (suc n) n
