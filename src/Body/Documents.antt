-- ===== src/Body/Documents.antt =====
-- JSON documents as text, and the model that a document names: the description that the scanner of
-- model_proxy_body.go is held against. Each printer takes the text that follows.
use cpa_helper_s.Prelude.{
  ℕ, ◌≡◌, Bool, true, false, ◌||◌, List, [], ◌∷◌, ◌++◌, Option, none, some, leb, ◌==◌,
  if◌then◌else◌, length,
}
use cpa_helper_s.Prelude.Text.{Text, codes, text_eq, trim_space}

-- What stands between two quotes: bytes that are no quote and no backslash, and escapes.
pub data Content : Type 0 where
  end : Content
  plain : (c : ℕ) → (c == b'"') ≡ false → (c == b'\\') ≡ false → Content → Content
  escape : ℕ → Content → Content

abbrev pub print_content : Content → Text → Text
print_content end rest = rest
print_content (plain c _ _ s) rest = c ∷ print_content s rest
print_content (escape c s) rest = b'\\' ∷ c ∷ print_content s rest

-- The text of a string literal, its quotes included.
abbrev pub literal : Content → Text
literal s = b'"' ∷ print_content s (b'"' ∷ [])

abbrev pub is_opening : ℕ → Bool
is_opening c = c == b'{' || c == b'['

abbrev pub is_closing : ℕ → Bool
is_closing c = c == b'}' || c == b']'

abbrev pub is_blank : ℕ → Bool
is_blank c = c == b' ' || c == b'\t' || c == b'\r' || c == b'\n'

-- The inside of a nested object or array: strings, groups, and any other bytes.
pub data Nested : Type 0 where
  nil : Nested
  byte :
      (c : ℕ) → (c == b'"') ≡ false → is_opening c ≡ false → is_closing c ≡ false → Nested → Nested
  text : Content → Nested → Nested
  group : (o c : ℕ) → is_opening o ≡ true → is_closing c ≡ true → Nested → Nested → Nested

abbrev pub print_nested : Nested → Text → Text
print_nested nil rest = rest
print_nested (byte c _ _ _ n) rest = c ∷ print_nested n rest
print_nested (text s n) rest = b'"' ∷ print_content s (b'"' ∷ print_nested n rest)
print_nested (group o c _ _ inner n) rest = o ∷ print_nested inner (c ∷ print_nested n rest)

abbrev pub Blank : Text → Type 0
Blank [] = Unit
Blank (c ∷ cs) = (is_blank c ≡ true) × Blank cs

-- A byte of a number or a word: no quote, no bracket, no colon, no comma.
abbrev pub IsWord : ℕ → Type 0
IsWord c =
    ((c == b'"') ≡ false)
    × (is_opening c ≡ false)
    × (is_closing c ≡ false)
    × ((c == b':') ≡ false)
    × ((c == b',') ≡ false)

abbrev pub Word : Text → Type 0
Word [] = Unit
Word (c ∷ cs) = IsWord c × Word cs

-- The value of a member of the document.
pub data Value : Type 0 where
  string : Content → Value
  word : (c : ℕ) (cs : Text) → IsWord c → is_blank c ≡ false → Word cs → Value
  nested : (o c : ℕ) → is_opening o ≡ true → is_closing c ≡ true → Nested → Value

abbrev pub print_value : Value → Text → Text
print_value (string s) rest = b'"' ∷ print_content s (b'"' ∷ rest)
print_value (word c cs _ _ _) rest = c ∷ (cs ++ rest)
print_value (nested o c _ _ n) rest = o ∷ print_nested n (c ∷ rest)

-- A member with the gaps around its four tokens.
pub record Member : Type 0 where
  pub before : Text
  pub before_blank : Blank before
  pub key : Content
  pub after_key : Text
  pub after_key_blank : Blank after_key
  pub before_value : Text
  pub before_value_blank : Blank before_value
  pub value : Value
  pub after_value : Text
  pub after_value_blank : Blank after_value

abbrev pub print_member : Member → Text → Text
print_member m rest =
    m.before
    ++ (b'"'
        ∷ print_content m.key (
            b'"'
            ∷ (m.after_key
                ++ (b':' ∷ (m.before_value ++ print_value m.value (m.after_value ++ rest))))))

abbrev pub print_tail : List Member → Text → Text
print_tail [] rest = b'}' ∷ rest
print_tail (m ∷ ms) rest = b',' ∷ print_member m (print_tail ms rest)

abbrev pub print_members : List Member → Text → Text
print_members [] rest = b'}' ∷ rest
print_members (m ∷ ms) rest = print_member m (print_tail ms rest)

-- An object with a gap behind its brace, and whatever stands behind it.
abbrev pub print_object : Text → List Member → Text → Text
print_object gap ms rest = b'{' ∷ (gap ++ print_members ms rest)

abbrev pub NoBrace : Text → Type 0
NoBrace [] = Unit
NoBrace (c ∷ cs) = ((c == b'{') ≡ false) × NoBrace cs

-- What the program promises for a document, with the decoder of string literals as a parameter. A
-- literal counts up to 4096 bytes, quotes included.
module _ (unmarshal : Text → Option Text) where
  abbrev pub decoded : Content → Option Text
  decoded s = if leb (length (literal s)) 4096 then unmarshal (literal s) else none

  -- A key that is too long or does not decode is no key.
  abbrev pub key_text : Option Text → Text
  key_text none = []
  key_text (some k) = k

  abbrev pub is_model : Member → Bool
  is_model m = text_eq (key_text (decoded m.key)) (codes "model")

  abbrev pub named_model : Value → Text
  named_model (string s) =
      if leb (length (literal s)) 4096
      then (elim (unmarshal (literal s)) [
        | none ↦ 0 ∷ codes "invalid_model"
        | some m ↦ trim_space m
      ])
      else 0 ∷ codes "model_too_long"
  named_model _ = 0 ∷ codes "invalid_model"

  -- The first member with the key "model" decides; a document without one names no model.
  abbrev pub first_model : List Member → Text
  first_model [] = []
  first_model (m ∷ ms) = if is_model m then named_model m.value else first_model ms
