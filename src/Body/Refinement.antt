-- ===== src/Body/Refinement.antt =====
-- The scanner finds the model that a document names.
use cpa_helper_s.Prelude.{
  ◌≡◌, refl, Bool, true, false, not, ◌&&◌, List, [], ◌∷◌, ◌++◌, Option, arith, ◌∙◌, Bool-cases, inl,
  inr,
}
use cpa_helper_s.Prelude.Text.{Text, codes, text_eq, is_empty}
use cpa_helper_s.Body.{initial, turn, scan, scan_top_level_model, outside_turn}
use cpa_helper_s.Body.Documents.{
  Member, Blank, print_member, print_members, print_tail, print_object, NoBrace, decoded, key_text,
  is_model, named_model, first_model,
}
use cpa_helper_s.Body.Tokens.{outside, scan_key, scan-Blank}
use cpa_helper_s.Body.Values.{
  awaits_after, scan_value, scan_named, scan_colon, scan_comma, scan_end,
}

module _ (unmarshal : Text → Option Text) where
  scan_skip_member :
      (m : Member) (rest : Text)
      → is_model unmarshal m ≡ false
      → (a : Bool) × (scan unmarshal (outside 1 true false []) (print_member m rest)
          ≡ scan unmarshal (outside 1 false a (key_text unmarshal (decoded unmarshal m.key))) rest)
  scan_skip_member m rest other =
      let k = key_text unmarshal (decoded unmarshal m.key) in
      let a = not (is_empty k) in
      let skipped : (a && text_eq k (codes "model")) ≡ false = ground arith in
      (
        awaits_after unmarshal a m.value,
        scan-Blank unmarshal 0 true false [] m.before _ m.before_blank
            ∙ scan_key unmarshal m.key _
            ∙ scan-Blank unmarshal 0 false false k m.after_key _ m.after_key_blank
            ∙ scan_colon unmarshal k _
            ∙ scan-Blank unmarshal 0 false a k m.before_value _ m.before_value_blank
            ∙ scan_value unmarshal a k m.value _ skipped
            ∙ scan-Blank unmarshal 0 false (awaits_after unmarshal a m.value) k m.after_value rest
                m.after_value_blank,
      )

  model_ne_empty : (k : Text) → text_eq k (codes "model") ≡ true → is_empty k ≡ false
  unfolding text_eq
  model_ne_empty [] h = cc
  model_ne_empty (c ∷ k) h = refl

  scan_model_member :
      (m : Member) (rest : Text)
      → is_model unmarshal m ≡ true
      → scan unmarshal (outside 1 true false []) (print_member m rest)
        ≡ named_model unmarshal m.value
  scan_model_member m rest it =
      let k = key_text unmarshal (decoded unmarshal m.key) in
      scan-Blank unmarshal 0 true false [] m.before _ m.before_blank
      ∙ scan_key unmarshal m.key _
      ∙ scan-Blank unmarshal 0 false false k m.after_key _ m.after_key_blank
      ∙ scan_colon unmarshal k _
      ∙ rw (model_ne_empty k it) (
          scan-Blank unmarshal 0 false true k m.before_value _ m.before_value_blank
          ∙ scan_named unmarshal k m.value _ it)

  scan_members :
      (m : Member) (ms : List Member) (rest : Text)
      → ((a : Bool) (k : Text)
          → scan unmarshal (outside 1 false a k) (print_tail ms rest) ≡ first_model unmarshal ms)
      → scan unmarshal (outside 1 true false []) (print_member m (print_tail ms rest))
        ≡ first_model unmarshal (m ∷ ms)
  scan_members m ms rest tail = elim (Bool-cases (is_model unmarshal m)) [
    | inl it ↦ rw it (scan_model_member m _ it)
    | inr other ↦
        let (a, skipped) = scan_skip_member m (print_tail ms rest) other in
        rw other (skipped ∙ tail a _)
  ]

  scan_tail :
      (a : Bool) (k : Text) (ms : List Member) (rest : Text)
      → scan unmarshal (outside 1 false a k) (print_tail ms rest) ≡ first_model unmarshal ms
  scan_tail a k [] rest = scan_end unmarshal a k rest
  scan_tail a k (m ∷ ms) rest =
      scan_comma unmarshal a k _ ∙ scan_members m ms rest (λ b l. scan_tail b l ms rest)

  scan_brace :
      (rest : Text)
      → scan unmarshal initial (b'{' ∷ rest) ≡ scan unmarshal (outside 1 true false []) rest
  unfolding scan turn outside_turn
  scan_brace rest = refl

  scan_empty : (rest : Text) → scan unmarshal (outside 1 true false []) (b'}' ∷ rest) ≡ []
  unfolding scan turn outside_turn
  scan_empty rest = refl

  -- Junk before the opening brace is skipped.
  scan_prefix :
      (junk rest : Text)
      → NoBrace junk
      → scan unmarshal initial (junk ++ rest) ≡ scan unmarshal initial rest
  unfolding scan turn outside_turn
  scan_prefix [] rest b = refl
  scan_prefix (c ∷ junk) rest b = ground (arith, scan_prefix junk rest b.1)

  scan_inside :
      (ms : List Member) (rest : Text)
      → scan unmarshal (outside 1 true false []) (print_members ms rest) ≡ first_model unmarshal ms
  scan_inside [] rest = scan_empty rest
  scan_inside (m ∷ ms) rest = scan_members m ms rest (λ a k. scan_tail a k ms rest)

  -- For every decoder of string literals and every JSON object, with any blanks between its tokens,
  -- any bytes but `{` before it and any text behind it: the scanner returns the model that the first
  -- member with the key "model" names, trimmed, the mark of an overlong or an invalid model if that
  -- value is a literal of more than 4096 bytes, no string or not decodable, and "" if no member has
  -- that key; a key literal counts if it decodes and has at most 4096 bytes.
  pub scan_top_level_model-object :
      (junk gap : Text) (ms : List Member) (rest : Text)
      → NoBrace junk
      → Blank gap
      → scan_top_level_model unmarshal (junk ++ print_object gap ms rest) ≡ first_model unmarshal ms
  unfolding scan_top_level_model
  scan_top_level_model-object junk gap ms rest b blank =
      scan_prefix junk _ b
      ∙ scan_brace _
      ∙ scan-Blank unmarshal 0 true false [] gap _ blank
      ∙ scan_inside ms rest
