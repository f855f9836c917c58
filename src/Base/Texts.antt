-- ===== src/Base/Texts.antt =====
-- The methods of Python's str that the code uses. The letters that upper and lower change are those
-- of ASCII.
use Prim.Native.Nat.{ℕ, zero, suc, ◌≤◌}
use native.Mathlib.Omega.{arith}
use mathlib.Core.Path.{◌≡◌, refl, ap}
use Prim.Native.Char.{Char, code}
use Prim.Native.String.{String, [], ◌∷◌}
use mathlib.Core.Bool.{Bool, true, false, not, ◌&&◌, ◌||◌}
use stock_tracker_data_colle.Base.Tests.{eqb, leb, if◌then◌else◌}

abbrev is_empty : String → Bool
is_empty [] = true
is_empty (c ∷ s) = false

between : ℕ → ℕ → ℕ → Bool
between lo hi n = leb lo n && leb n hi

-- str.isspace, for one character
unfoldable pub is_space : Char → Bool
unfolding between
is_space c =
    between 9 13 (code c)
    || between 28 32 (code c)
    || eqb 133 (code c)
    || eqb 160 (code c)
    || eqb 5760 (code c)
    || between 8192 8202 (code c)
    || between 8232 8233 (code c)
    || eqb 8239 (code c)
    || eqb 8287 (code c)
    || eqb 12288 (code c)

abbrev pub lstrip : String → String
lstrip [] = []
lstrip (c ∷ s) = let rest = lstrip s in if is_space c then rest else c ∷ s

abbrev pub rstrip : String → String
rstrip [] = []
rstrip (c ∷ s) = let rest = rstrip s in if is_empty rest && is_space c then [] else c ∷ rest

-- text.strip()
unfoldable pub strip : String → String
unfolding is_space
strip s = rstrip (lstrip s)

-- The character at the place in `to` that `c` has in `from`, and else `c`.
abbrev translate : String → String → Char → Char
translate [] to c = c
translate (a ∷ from) [] c = c
translate (a ∷ from) (b ∷ to) c =
    let rest = translate from to c in if eqb (code a) (code c) then b else rest

abbrev small_letters : String
small_letters = "abcdefghijklmnopqrstuvwxyz"

abbrev capital_letters : String
capital_letters = "ABCDEFGHIJKLMNOPQRSTUVWXYZ"

-- text.upper() and text.lower()
unfoldable pub upper : String → String
upper [] = []
upper (c ∷ s) = translate small_letters capital_letters c ∷ upper s

unfoldable pub lower : String → String
lower [] = []
lower (c ∷ s) = translate capital_letters small_letters c ∷ lower s

-- text[:n]
abbrev pub prefix : ℕ → String → String
prefix zero s = []
prefix (suc n) [] = []
prefix (suc n) (c ∷ s) = c ∷ prefix n s

-- Whether the character of a code stands in the text.
abbrev pub has_code : ℕ → String → Bool
has_code n [] = false
has_code n (c ∷ s) = eqb n (code c) || has_code n s

-- Whether the text begins as the pattern says, in which the letter d stands for a digit of ASCII:
-- re.match of r"^\d{4}-\d{2}-\d{2}" is begins_like "dddd-dd-dd".
unfoldable pub begins_like : String → String → Bool
unfolding between
begins_like [] s = true
begins_like (p ∷ pattern') [] = false
begins_like (p ∷ pattern') (c ∷ s) =
    (if eqb (code p) 100 then between 48 57 (code c) else eqb (code p) (code c))
    && begins_like pattern' s

-- len(text)
abbrev pub text_length : String → ℕ
text_length [] = 0
text_length (c ∷ s) = suc (text_length s)

pub text_length-upper : (s : String) → text_length (upper s) ≡ text_length s
unfolding upper
text_length-upper [] = refl
text_length-upper (c ∷ s) = ap suc (text_length-upper s)

pub text_length-prefix : (n : ℕ) (s : String) → text_length (prefix n s) ≤ n
text_length-prefix zero s = omega arith
text_length-prefix (suc n) [] = omega arith
text_length-prefix (suc n) (c ∷ s) = omega (arith, text_length-prefix n s)

-- Whether the text has no character but white space.
abbrev pub is_blank : String → Bool
is_blank [] = true
is_blank (c ∷ s) = is_space c && is_blank s

-- A text that is stripped is empty, or begins with a character that is no white space.
abbrev is_led : String → Bool
is_led [] = true
is_led (c ∷ s) = not (is_space c)

lstrip-is_led : (s : String) → is_led (lstrip s) ≡ true
lstrip-is_led [] = refl
lstrip-is_led (c ∷ s) = ground (arith, lstrip-is_led s)

rstrip-is_led : (s : String) → is_led s ≡ true → is_led (rstrip s) ≡ true
rstrip-is_led [] h = refl
rstrip-is_led (c ∷ s) h = ground (arith, h)

abbrev is_spaceless : String → Bool
is_spaceless [] = true
is_spaceless (c ∷ s) = not (is_space c) && is_spaceless s

translate-is_space :
    (from to : String) (c : Char)
    → is_spaceless to ≡ true
    → is_space c ≡ false
    → is_space (translate from to c) ≡ false
translate-is_space [] to c clear h = h
translate-is_space (a ∷ from) [] c clear h = h
translate-is_space (a ∷ from) (b ∷ to) c clear h =
    ground (arith, clear, translate-is_space from to c)

upper-is_led : (s : String) → is_led s ≡ true → is_blank (upper s) ≡ true → upper s ≡ ""
unfolding upper is_space between
upper-is_led [] led blank = refl
upper-is_led (c ∷ s) led blank =
    absurd (ground (arith, led, blank, translate-is_space small_letters capital_letters c refl))

-- A text that is stripped and put in capitals is blank only if it is empty.
pub upper-is_blank : (s : String) → is_blank (upper (strip s)) ≡ true → upper (strip s) ≡ ""
unfolding strip
upper-is_blank s = upper-is_led (rstrip (lstrip s)) (rstrip-is_led (lstrip s) (lstrip-is_led s))
