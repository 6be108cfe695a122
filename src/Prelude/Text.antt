-- ===== src/Prelude/Text.antt =====
-- Text as a list of code points, and what the program uses of Go's package `strings`.
use Prim.Native.Char.{code}
use Prim.Native.String.{String}
use cpa_helper_s.Prelude.Lists.{All}
use mathlib.Core.Logic.{inl, inr}
use cpa_helper_s.Prelude.Tests.{Bool-cases, ◌==◌, leb, if◌then◌else◌}
use Prim.Native.Nat.{ℕ, ◌+◌}
use mathlib.Core.Path.{◌≡◌, refl}
use mathlib.Core.Logic.{◌↔◌}
use mathlib.Core.Bool.{Bool, true, false, ◌&&◌, ◌||◌}
use mathlib.Core.List.{List, [], ◌∷◌, map}
use native.Mathlib.Omega.{arith}

abbrev pub Text : Type 0
Text = List ℕ

abbrev pub codes : String → Text
codes String.[] = []
codes (String.◌∷◌ c s) = code c ∷ codes s

unfoldable pub text_eq : Text → Text → Bool
text_eq [] [] = true
text_eq (x ∷ xs) (y ∷ ys) = x == y && text_eq xs ys
text_eq _ _ = false

pub text_eq_iff : (a b : Text) → (text_eq a b ≡ true) ↔ (a ≡ b)
unfolding text_eq
text_eq_iff (x ∷ a) (y ∷ b) = ground (arith, text_eq_iff a b)
text_eq_iff _ _ = ground arith

pub text_eq_refl : (a : Text) → text_eq a a ≡ true
text_eq_refl a = ground (arith, text_eq_iff a a)

pub text_eq_comm : (a b : Text) → text_eq a b ≡ text_eq b a
unfolding text_eq
text_eq_comm (x ∷ a) (y ∷ b) = ground (arith, text_eq_comm a b)
text_eq_comm _ _ = ground arith

pub text_eq_left : (a b c : Text) → text_eq a b ≡ true → text_eq a c ≡ text_eq b c
text_eq_left a b c same = rw ((text_eq_iff a b).0 same) refl

pub text_eq_right : (a b c : Text) → text_eq b c ≡ true → text_eq a b ≡ text_eq a c
text_eq_right a b c same = rw ((text_eq_iff b c).0 same) refl

abbrev pub is_empty : Text → Bool
is_empty [] = true
is_empty (x ∷ xs) = false

-- `unicode.IsSpace`.
pub is_space : ℕ → Bool
is_space c =
    leb 0x09 c && leb c 0x0d
    || c == 0x20
    || c == 0x85
    || c == 0xa0
    || c == 0x1680
    || leb 0x2000 c && leb c 0x200a
    || c == 0x2028
    || c == 0x2029
    || c == 0x202f
    || c == 0x205f
    || c == 0x3000

pub trim_left : Text → Text
trim_left [] = []
trim_left (c ∷ cs) = if is_space c then trim_left cs else c ∷ cs

-- A text without the spaces at its end.
pub keep_visible : ℕ → Text → Text
keep_visible c [] = if is_space c then [] else c ∷ []
keep_visible c (d ∷ ds) = c ∷ d ∷ ds

pub trim_right : Text → Text
trim_right [] = []
trim_right (c ∷ cs) = keep_visible c (trim_right cs)

-- `strings.TrimSpace`.
unfoldable pub trim_space : Text → Text
unfolding is_space trim_left keep_visible trim_right
trim_space s = trim_right (trim_left s)

-- What holds of each code point of a text holds of each of the trimmed text.
module _ (P : ℕ → Type 0) where
  All-trim_left : (s : Text) → All P s → All P (trim_left s)
  unfolding trim_left
  All-trim_left [] h = tt
  All-trim_left (c ∷ cs) h = elim (Bool-cases (is_space c)) [
    | inl e ↦ rw e (All-trim_left cs h.1)
    | inr e ↦ rw e h
  ]

  All-keep_visible : (c : ℕ) (s : Text) → P c → All P s → All P (keep_visible c s)
  unfolding keep_visible
  All-keep_visible c [] h all = elim (Bool-cases (is_space c)) [
    | inl e ↦ rw e tt
    | inr e ↦ rw e (h, tt)
  ]
  All-keep_visible c (d ∷ ds) h all = (h, all)

  All-trim_right : (s : Text) → All P s → All P (trim_right s)
  unfolding trim_right
  All-trim_right [] h = tt
  All-trim_right (c ∷ cs) h = All-keep_visible c (trim_right cs) h.0 (All-trim_right cs h.1)

  pub All-trim_space : (s : Text) → All P s → All P (trim_space s)
  unfolding trim_space
  All-trim_space s h = All-trim_right (trim_left s) (All-trim_left s h)

-- `strings.HasPrefix(s, p)` and `strings.Contains(s, p)`.
pub starts_with : Text → Text → Bool
starts_with s [] = true
starts_with [] (p ∷ ps) = false
starts_with (c ∷ s) (p ∷ ps) = c == p && starts_with s ps

unfoldable pub contains_text : Text → Text → Bool
unfolding starts_with
contains_text [] p = starts_with [] p
contains_text (c ∷ s) p = starts_with (c ∷ s) p || contains_text s p

-- `strings.ToLower(strings.TrimSpace(s))`, where `lower` is `unicode.ToLower` of a code point.
abbrev pub normal : (ℕ → ℕ) → Text → Text
normal lower s = map lower (trim_space s)

-- `unicode.ToLower` on ASCII, for tests.
unfoldable pub ascii_lower : ℕ → ℕ
ascii_lower c = if leb b'A' c && leb c b'Z' then c + 32 else c
