-- ===== src/Body.antt =====
-- backend/internal/app/model_proxy_body.go: the model name is read from the request's body by a byte
-- machine, with no parse of the whole document. The fields of `Scan` are the loop's variables.
pub mod Documents
mod Strings
mod Tokens
mod Values
mod Tests
pub mod Reading
pub mod Refinement
use cpa_helper_s.Prelude.{
  ℕ, suc, ◌+◌, ◌-◌, ◌≡◌, Bool, true, false, not, ◌&&◌, ◌||◌, List, [], ◌∷◌, ◌++◌, Option, none,
  some, leb, ◌==◌, if◌then◌else◌, length,
}
use cpa_helper_s.Prelude.Text.{Text, codes, text_eq, is_empty, trim_space}

-- A top-level key, the value of the key "model", or neither.
pub data Capture : Type 0 where
  nothing key model_value : Capture

pub record Scan : Type 0 where
  pub depth : ℕ
  pub in_string : Bool
  pub escaped : Bool
  pub expect_key : Bool
  pub awaiting_value : Bool
  pub capture_kind : Capture
  pub capture_overflow : Bool
  pub raw_string : Text
  pub current_key : Text

abbrev pub initial : Scan
initial = record {
  depth = 0;
  in_string = false;
  escaped = false;
  expect_key = false;
  awaiting_value = false;
  capture_kind = nothing;
  capture_overflow = false;
  raw_string = [];
  current_key = [];
}

-- One turn of the loop goes on with new values of the variables, or returns.
pub data Turn : Type 0 where
  continue : Scan → Turn
  return : Text → Turn

abbrev pub max_captured_json_string : ℕ
max_captured_json_string = 4096

abbrev pub model_too_long : Text
model_too_long = 0 ∷ codes "model_too_long"

abbrev pub invalid_model : Text
invalid_model = 0 ∷ codes "invalid_model"

abbrev pub model_name : Text
model_name = codes "model"

-- The lines on `captureKind` and `captureOverflow` at the head of the string branch.
abbrev pub captures : Capture → Bool
captures nothing = false
captures _ = true

pub collect : Scan → ℕ → Scan
collect s char =
    if captures s.capture_kind && not s.capture_overflow
    then (if leb max_captured_json_string (length s.raw_string)
        then record s { capture_overflow = true }
        else record s { raw_string = s.raw_string ++ char ∷ [] })
    else s

-- The end of a string, after the `switch`.
abbrev pub end_string : Scan → Scan
end_string s = record s {
  in_string = false;
  capture_kind = nothing;
  raw_string = [];
  capture_overflow = false;
}

-- `json.Unmarshal` of a quoted string is a parameter: `none` where it returns an error.
module _ (unmarshal : Text → Option Text) where
  -- `_ = json.Unmarshal(rawString, &currentKey)`: an error leaves the key as it was.
  pub set_key : Scan → Option Text → Scan
  set_key s none = s
  set_key s (some k) = record s { current_key = k }

  pub model_result : Option Text → Text
  model_result none = invalid_model
  model_result (some m) = trim_space m

  -- The `switch` at a closing quote.
  pub close_string : Capture → Scan → Turn
  close_string nothing s = continue (end_string s)
  close_string key s =
      continue (end_string (if s.capture_overflow then s else set_key s (unmarshal s.raw_string)))
  close_string model_value s =
      return (if s.capture_overflow then model_too_long else model_result (unmarshal s.raw_string))

  pub string_turn : Scan → ℕ → Turn
  string_turn s char =
      if s.escaped
      then continue (record s { escaped = false })
      else if char == b'\\'
      then continue (record s { escaped = true })
      else if not (char == b'"')
      then continue s
      else close_string s.capture_kind s

-- An opening quote.
pub open_string : Scan → Scan
open_string s =
    if s.depth == 1 && s.expect_key
    then record s {
      in_string = true;
      escaped = false;
      raw_string = b'"' ∷ [];
      capture_kind = key;
      expect_key = false;
    }
    else if s.depth == 1 && s.awaiting_value && text_eq s.current_key model_name
    then record s {
      in_string = true;
      escaped = false;
      raw_string = b'"' ∷ [];
      capture_kind = model_value;
      awaiting_value = false;
    }
    else record s { in_string = true; escaped = false; raw_string = []; capture_kind = nothing }

-- `awaitingValue` at a value that is no string: a model must be one.
unfoldable pub other_value : Scan → Turn
other_value s =
    if text_eq s.current_key model_name
    then return invalid_model
    else continue (record s { awaiting_value = false })

abbrev pub deeper : Turn → Turn
deeper (return r) = return r
deeper (continue s) = continue (record s { depth = suc s.depth })

unfoldable pub open_bracket : Scan → Turn
unfolding other_value
open_bracket s = deeper (if s.depth == 1 && s.awaiting_value then other_value s else continue s)

-- `depth` is positive here.
unfoldable pub close_bracket : Scan → Turn
close_bracket s =
    if s.depth - 1 == 0 then return [] else continue (record s { depth = s.depth - 1 })

abbrev pub is_blank : ℕ → Bool
is_blank c = c == b' ' || c == b'\t' || c == b'\r' || c == b'\n'

unfoldable pub other_byte : Scan → ℕ → Turn
unfolding other_value
other_byte s char =
    if s.depth == 1 && s.awaiting_value && not (is_blank char) then other_value s else continue s

-- The `switch` on a byte outside strings and inside the document.
unfoldable pub punctuation_turn : Scan → ℕ → Turn
unfolding open_bracket close_bracket other_byte
punctuation_turn s char =
    if char == b'{' || char == b'['
    then open_bracket s
    else if char == b'}' || char == b']'
    then close_bracket s
    else if char == b':'
    then continue (
        if s.depth == 1 && not (is_empty s.current_key)
        then record s { awaiting_value = true }
        else s)
    else if char == b','
    then continue (
        if s.depth == 1
        then record s { current_key = []; awaiting_value = false; expect_key = true }
        else s)
    else other_byte s char

unfoldable pub outside_turn : Scan → ℕ → Turn
unfolding open_string punctuation_turn
outside_turn s char =
    if s.depth == 0
    then continue (if char == b'{' then record s { depth = 1; expect_key = true } else s)
    else if char == b'"'
    then continue (open_string s)
    else punctuation_turn s char

-- What the loop makes of a turn.
abbrev pub resume : (Scan → Text) → Turn → Text
resume k (return r) = r
resume k (continue s) = k s

module _ (unmarshal : Text → Option Text) where
  unfoldable pub turn : Scan → ℕ → Turn
  unfolding collect string_turn close_string set_key model_result outside_turn
  turn s char =
      if s.in_string then string_turn unmarshal (collect s char) char else outside_turn s char

  -- The loop: a read that fails, at the end of the body or before, returns "".
  pub scan : Scan → Text → Text
  scan s [] = []
  scan s (c ∷ cs) = resume (λ t. scan t cs) (turn s c)

  unfoldable pub scan_top_level_model : Text → Text
  unfolding scan
  scan_top_level_model = scan initial
