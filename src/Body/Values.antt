-- ===== src/Body/Values.antt =====
-- The value of a member: the scanner passes it over, or returns it.
use cpa_helper_s.Prelude.{
  ℕ, suc, ◌≡◌, refl, Bool, true, false, not, ◌&&◌, [], ◌∷◌, ◌++◌, Option, ◌==◌, arith, ◌∙◌,
}
use cpa_helper_s.Prelude.Text.{Text, codes, text_eq, is_empty}
use cpa_helper_s.Body.{turn, scan, outside_turn}
use cpa_helper_s.Body.Documents.{
  Nested, nil, byte, text, group, print_nested, Word, IsWord, Value, string, word, nested,
  print_value, named_model, is_opening, is_closing, is_blank,
}
use cpa_helper_s.Body.Tokens.{outside, scan_skip, scan_model, scan_byte, scan_open, scan_close}

module _ (unmarshal : Text → Option Text) where
  -- A nested document is passed over, at any depth.
  pub scan_nested :
      (d : ℕ) (e a : Bool) (k : Text) (n : Nested) (rest : Text)
      → scan unmarshal (outside (suc (suc d)) e a k) (print_nested n rest)
        ≡ scan unmarshal (outside (suc (suc d)) e a k) rest
  scan_nested d e a k nil rest = refl
  scan_nested d e a k (byte c p q r n) rest =
      scan_byte unmarshal d e a k _ c p q r ∙ scan_nested d e a k n rest
  scan_nested d e a k (text s n) rest =
      scan_skip unmarshal (suc d) e a k s _ (ground arith) (ground arith)
      ∙ scan_nested d e a k n rest
  scan_nested d e a k (group o c p q inner n) rest =
      scan_open unmarshal (suc d) e a k _ o p (ground arith)
      ∙ scan_nested (suc d) e a k inner _
      ∙ scan_close unmarshal (suc d) e a k _ c q
      ∙ scan_nested d e a k n rest

  pub scan-Word :
      (k cs rest : Text)
      → Word cs
      → scan unmarshal (outside 1 false false k) (cs ++ rest)
        ≡ scan unmarshal (outside 1 false false k) rest
  unfolding scan turn outside_turn
  scan-Word k [] rest w = refl
  scan-Word k (c ∷ cs) rest w = ground (arith, scan-Word k cs rest w.1)

  pub scan_word_start :
      (a : Bool) (k rest : Text) (c : ℕ)
      → IsWord c
      → is_blank c ≡ false
      → (a && text_eq k (codes "model")) ≡ false
      → scan unmarshal (outside 1 false a k) (c ∷ rest)
        ≡ scan unmarshal (outside 1 false false k) rest
  unfolding scan turn outside_turn
  scan_word_start a k rest c w b m = ground arith

  pub scan_open_value :
      (a : Bool) (k rest : Text) (o : ℕ)
      → is_opening o ≡ true
      → (a && text_eq k (codes "model")) ≡ false
      → scan unmarshal (outside 1 false a k) (o ∷ rest)
        ≡ scan unmarshal (outside 2 false false k) rest
  unfolding scan turn outside_turn
  scan_open_value a k rest o p m = ground arith

  -- Whether the machine still waits behind a value: it forgets to stop at a string.
  abbrev pub awaits_after : Bool → Value → Bool
  awaits_after a (string s) = a
  awaits_after a _ = false

  -- The value of a member that does not name the model is passed over.
  pub scan_value :
      (a : Bool) (k : Text) (v : Value) (rest : Text)
      → (a && text_eq k (codes "model")) ≡ false
      → scan unmarshal (outside 1 false a k) (print_value v rest)
        ≡ scan unmarshal (outside 1 false (awaits_after a v) k) rest
  scan_value a k (string s) rest m = scan_skip unmarshal 0 false a k s rest refl m
  scan_value a k (word c cs w b ws) rest m = scan_word_start a k _ c w b m ∙ scan-Word k cs rest ws
  scan_value a k (nested o c p q n) rest m =
      scan_open_value a k _ o p m
      ∙ scan_nested 0 false false k n _
      ∙ scan_close unmarshal 0 false false k rest c q

  pub scan_bad_value :
      (k rest : Text) (c : ℕ)
      → text_eq k (codes "model") ≡ true
      → (c == b'"') ≡ false
      → is_blank c ≡ false
      → is_closing c ≡ false
      → (c == b':') ≡ false
      → (c == b',') ≡ false
      → scan unmarshal (outside 1 false true k) (c ∷ rest) ≡ 0 ∷ codes "invalid_model"
  unfolding scan turn outside_turn
  scan_bad_value k rest c m p q r t u = ground arith

  pub scan_named :
      (k : Text) (v : Value) (rest : Text)
      → text_eq k (codes "model") ≡ true
      → scan unmarshal (outside 1 false true k) (print_value v rest) ≡ named_model unmarshal v
  scan_named k (string s) rest m = scan_model unmarshal k rest s m
  scan_named k (word c cs w b ws) rest m = scan_bad_value k _ c m w.0 b w.2 w.3 w.4
  scan_named k (nested o c p q n) rest m =
      scan_bad_value k _ o m (ground arith) (ground arith) (ground arith) (ground arith)
        (ground arith)

  pub scan_colon :
      (k rest : Text)
      → scan unmarshal (outside 1 false false k) (b':' ∷ rest)
        ≡ scan unmarshal (outside 1 false (not (is_empty k)) k) rest
  unfolding scan turn outside_turn
  scan_colon k rest = ground arith

  pub scan_comma :
      (a : Bool) (k rest : Text)
      → scan unmarshal (outside 1 false a k) (b',' ∷ rest)
        ≡ scan unmarshal (outside 1 true false []) rest
  unfolding scan turn outside_turn
  scan_comma a k rest = ground arith

  pub scan_end :
      (a : Bool) (k rest : Text) → scan unmarshal (outside 1 false a k) (b'}' ∷ rest) ≡ []
  unfolding scan turn outside_turn
  scan_end a k rest = ground arith
