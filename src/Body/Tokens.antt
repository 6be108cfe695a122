-- ===== src/Body/Tokens.antt =====
-- One token of a document: what the scanner does at a literal, a blank or a bracket.
use cpa_helper_s.Prelude.{
  ℕ, suc, ◌≡◌, refl, ap, Bool, true, false, ◌&&◌, [], ◌∷◌, ◌++◌, Option, none, some, leb, ◌==◌,
  if◌then◌else◌, length, arith, ◌∙◌, Bool-cases, inl, inr,
}
use cpa_helper_s.Prelude.Text.{Text, codes, text_eq, trim_space}
use cpa_helper_s.Body.{
  Capture, nothing, key, model_value, Scan, continue, return, close_string, turn, scan, end_string,
  outside_turn, set_key, model_result,
}
use cpa_helper_s.Body.Documents.{
  Content, print_content, Blank, string, decoded, key_text, named_model, is_opening, is_closing,
}
use cpa_helper_s.Body.Strings.{
  scan_content, collect_all, collect_nothing, collect_fits, collect_over, end_collect,
}

-- The machine between tokens.
abbrev pub outside : ℕ → Bool → Bool → Text → Scan
outside d expects awaits k = record {
  depth = d;
  in_string = false;
  escaped = false;
  expect_key = expects;
  awaiting_value = awaits;
  capture_kind = nothing;
  capture_overflow = false;
  raw_string = [];
  current_key = k;
}

-- The machine behind an opening quote, with a capture.
abbrev pub capturing : Capture → Text → Scan
capturing c k = record {
  depth = 1;
  in_string = true;
  escaped = false;
  expect_key = false;
  awaiting_value = false;
  capture_kind = c;
  capture_overflow = false;
  raw_string = b'"' ∷ [];
  current_key = k;
}

module _ (unmarshal : Text → Option Text) where
  pub open_quote_skip :
      (d : ℕ) (e a : Bool) (k rest : Text)
      → (suc d == 1 && e) ≡ false
      → (suc d == 1 && a && text_eq k (codes "model")) ≡ false
      → scan unmarshal (outside (suc d) e a k) (b'"' ∷ rest)
        ≡ scan unmarshal (record (outside (suc d) e a k) { in_string = true }) rest
  unfolding scan turn outside_turn
  open_quote_skip d e a k rest p q = ground arith

  pub scan_skip :
      (d : ℕ) (e a : Bool) (k : Text) (c : Content) (rest : Text)
      → (suc d == 1 && e) ≡ false
      → (suc d == 1 && a && text_eq k (codes "model")) ≡ false
      → scan unmarshal (outside (suc d) e a k) (b'"' ∷ print_content c (b'"' ∷ rest))
        ≡ scan unmarshal (outside (suc d) e a k) rest
  scan_skip d e a k c rest p q =
      let s : Scan = record (outside (suc d) e a k) { in_string = true } in
      open_quote_skip d e a k _ p q
      ∙ scan_content unmarshal s nothing c rest refl refl refl
      ∙ rw (collect_nothing s (print_content c (b'"' ∷ [])) refl) (unfold close_string in refl)

  pub open_quote_key :
      (rest : Text)
      → scan unmarshal (outside 1 true false []) (b'"' ∷ rest)
        ≡ scan unmarshal (capturing key []) rest
  unfolding scan turn outside_turn
  open_quote_key rest = refl

  pub set_key_lem :
      (t : Text) (o : Option Text)
      → end_string (set_key unmarshal (record (capturing key []) { raw_string = t }) o)
        ≡ outside 1 false false (key_text unmarshal o)
  unfolding set_key
  set_key_lem t none = refl
  set_key_lem t (some k) = refl

  pub close_key_text :
      (t : Text)
      → close_string unmarshal key (collect_all (capturing key []) t)
        ≡ continue (
            outside 1 false false (
              key_text unmarshal
                (if leb (suc (length t)) 4096 then unmarshal (b'"' ∷ t) else none)))
  unfolding close_string
  close_key_text t = elim (Bool-cases (leb (suc (length t)) 4096)) [
    | inl fits ↦
        rw (fits, collect_fits (capturing key []) t refl refl (ground arith))
          (ap continue (set_key_lem (b'"' ∷ t) (unmarshal (b'"' ∷ t))))
    | inr over ↦
        rw (over, collect_over (capturing key []) t refl (omega arith) (ground arith))
          (ap continue (end_collect (capturing key []) t))
  ]

  pub close_key :
      (c : Content)
      → close_string unmarshal key (collect_all (capturing key []) (print_content c (b'"' ∷ [])))
        ≡ continue (outside 1 false false (key_text unmarshal (decoded unmarshal c)))
  close_key c = close_key_text (print_content c (b'"' ∷ []))

  pub scan_key :
      (c : Content) (rest : Text)
      → scan unmarshal (outside 1 true false []) (b'"' ∷ print_content c (b'"' ∷ rest))
        ≡ scan unmarshal (outside 1 false false (key_text unmarshal (decoded unmarshal c))) rest
  scan_key c rest =
      open_quote_key _
      ∙ scan_content unmarshal (capturing key []) key c rest refl refl refl
      ∙ rw (close_key c)

  pub open_quote_model :
      (k rest : Text)
      → text_eq k (codes "model") ≡ true
      → scan unmarshal (outside 1 false true k) (b'"' ∷ rest)
        ≡ scan unmarshal (capturing model_value k) rest
  unfolding scan turn outside_turn
  open_quote_model k rest m = ground arith

  pub model_result_lem :
      (o : Option Text)
      → model_result unmarshal o
        ≡ elim o [ none ↦ 0 ∷ codes "invalid_model" | some m ↦ trim_space m ]
  unfolding model_result
  model_result_lem none = refl
  model_result_lem (some m) = refl

  pub close_model :
      (k : Text) (c : Content)
      → close_string unmarshal model_value
          (collect_all (capturing model_value k) (print_content c (b'"' ∷ [])))
        ≡ return (named_model unmarshal (string c))
  unfolding close_string
  close_model k c =
      let t = print_content c (b'"' ∷ []) in
      elim (Bool-cases (leb (suc (length t)) 4096)) [
        | inl fits ↦
            rw (fits, collect_fits (capturing model_value k) t refl refl (ground arith))
              (ap return (model_result_lem (unmarshal (b'"' ∷ t))))
        | inr over ↦
            rw (over, collect_over (capturing model_value k) t refl (omega arith) (ground arith))
      ]

  pub scan_model :
      (k rest : Text) (c : Content)
      → text_eq k (codes "model") ≡ true
      → scan unmarshal (outside 1 false true k) (b'"' ∷ print_content c (b'"' ∷ rest))
        ≡ named_model unmarshal (string c)
  scan_model k rest c m =
      open_quote_model k _ m
      ∙ scan_content unmarshal (capturing model_value k) model_value c rest refl refl refl
      ∙ rw (close_model k c)

  pub scan-Blank :
      (d : ℕ) (e a : Bool) (k ws rest : Text)
      → Blank ws
      → scan unmarshal (outside (suc d) e a k) (ws ++ rest)
        ≡ scan unmarshal (outside (suc d) e a k) rest
  unfolding scan turn outside_turn
  scan-Blank d e a k [] rest b = refl
  scan-Blank d e a k (c ∷ ws) rest b = ground (arith, scan-Blank d e a k ws rest b.1)

  pub scan_byte :
      (d : ℕ) (e a : Bool) (k rest : Text) (c : ℕ)
      → (c == b'"') ≡ false
      → is_opening c ≡ false
      → is_closing c ≡ false
      → scan unmarshal (outside (suc (suc d)) e a k) (c ∷ rest)
        ≡ scan unmarshal (outside (suc (suc d)) e a k) rest
  unfolding scan turn outside_turn
  scan_byte d e a k rest c p q r = ground arith

  pub scan_open :
      (d : ℕ) (e a : Bool) (k rest : Text) (o : ℕ)
      → is_opening o ≡ true
      → (suc d == 1 && a) ≡ false
      → scan unmarshal (outside (suc d) e a k) (o ∷ rest)
        ≡ scan unmarshal (outside (suc (suc d)) e a k) rest
  unfolding scan turn outside_turn
  scan_open d e a k rest o p q = ground arith

  pub scan_close :
      (d : ℕ) (e a : Bool) (k rest : Text) (c : ℕ)
      → is_closing c ≡ true
      → scan unmarshal (outside (suc (suc d)) e a k) (c ∷ rest)
        ≡ scan unmarshal (outside (suc d) e a k) rest
  unfolding scan turn outside_turn
  scan_close d e a k rest c p = ground arith
