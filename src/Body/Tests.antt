-- ===== src/Body/Tests.antt =====
-- Scans of whole bodies, and the theorems at concrete documents.
use cpa_helper_s.Prelude.{◌≡◌, refl, false, List, [], ◌∷◌, ◌++◌, Option, none, some, arith}
use cpa_helper_s.Prelude.Text.{Text, codes, trim_space, text_eq}
use cpa_helper_s.Body.{turn, scan_top_level_model}
use cpa_helper_s.Body.Documents.{
  Content, end, plain, nil, byte, group, Value, string, nested, Member, print_object, first_model,
}
use cpa_helper_s.Body.Refinement.{scan_top_level_model-object}
use cpa_helper_s.Body.Reading.{
  IsComplete, sound, working, read_within, read_within-IsComplete, read_within_decides, on_disk,
}

-- A decoder that takes the quotes off, for literals with no escapes.
abbrev but_last : Text → Text
but_last [] = []
but_last (c ∷ []) = []
but_last (c ∷ d ∷ cs) = c ∷ but_last (d ∷ cs)

abbrev unquote : Text → Option Text
unquote [] = none
unquote (c ∷ cs) = some (but_last cs)

found :
    scan_top_level_model unquote
      (codes " {\"messages\": [{\"model\": \"x\"}], \"model\": \" gpt-5 \", \"n\":1}")
    ≡ codes "gpt-5"
unfolding scan_top_level_model trim_space text_eq turn
found = refl

not_a_string : scan_top_level_model unquote (codes "{\"model\": 7}") ≡ 0 ∷ codes "invalid_model"
unfolding scan_top_level_model trim_space text_eq turn
not_a_string = refl

nested_only : scan_top_level_model unquote (codes "{\"a\":{\"model\":\"x\"}}") ≡ []
unfolding scan_top_level_model trim_space text_eq turn
nested_only = refl

abbrev member : Content → Value → Member
member k v = record {
  before = codes " ";
  before_blank = (refl, tt);
  key = k;
  after_key = [];
  after_key_blank = tt;
  before_value = codes " ";
  before_value_blank = (refl, tt);
  value = v;
  after_value = [];
  after_value_blank = tt;
}

abbrev model_key : Content
model_key =
    plain b'm' refl refl (
      plain b'o' refl refl (plain b'd' refl refl (plain b'e' refl refl (plain b'l' refl refl end))))

abbrev members : List Member
members =
    member (plain b'a' refl refl end)
      (nested b'[' b']' refl refl (byte b'1' refl refl refl (group b'{' b'}' refl refl nil nil)))
    ∷ member model_key (string (plain b'o' refl refl (plain b'3' refl refl end)))
    ∷ []

scan_top_level_model-object_example :
    scan_top_level_model unquote (codes "\n" ++ print_object (codes " ") members (codes "junk"))
    ≡ first_model unquote members
scan_top_level_model-object_example =
    scan_top_level_model-object unquote (codes "\n") (codes " ") members (codes "junk") (refl, tt)
      (refl, tt)

-- An object without members, with blanks inside.
empty-object : scan_top_level_model unquote (print_object (codes " ") [] []) ≡ []
empty-object = scan_top_level_model-object unquote [] (codes " ") [] [] tt (refl, tt)

named : first_model unquote members ≡ codes "o3"
unfolding trim_space text_eq
named = refl

read_within-IsComplete_example :
    IsComplete 2 4
      (codes "abc")
      working
      (read_within 2 4 (record { bytes = codes "abc"; fails = false }) working)
read_within-IsComplete_example =
    read_within-IsComplete 2 4 (record { bytes = codes "abc"; fails = false }) working (omega arith)

read_within_decides_example :
    read_within 2 4 (sound (codes "abc")) working ≡ (on_disk (codes "abc") 3, some (codes "abc"))
read_within_decides_example = read_within_decides 2 4 (codes "abc") (omega arith)
