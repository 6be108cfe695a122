-- ===== src/Body/Strings.antt =====
-- The scanner inside string literals.
use cpa_helper_s.Prelude.{
  ℕ, ◌≤◌, ◌<◌, ◌+◌, ◌≡◌, refl, true, false, [], ◌∷◌, ◌++◌, Option, ◌==◌, length, arith,
  length-append, append_assoc, append-nil, ◌∙◌,
}
use cpa_helper_s.Prelude.Text.{Text}
use cpa_helper_s.Body.{
  Capture, nothing, Scan, collect, close_string, turn, resume, scan, captures, end_string,
}
use cpa_helper_s.Body.Documents.{Content, end, plain, escape, print_content}

pub collect_all : Scan → Text → Scan
collect_all s [] = s
collect_all s (c ∷ cs) = collect_all (collect s c) cs

module _ (unmarshal : Text → Option Text) where
  scan_plain :
      (s : Scan) (c : ℕ) (rest : Text)
      → s.in_string ≡ true
      → s.escaped ≡ false
      → (c == b'"') ≡ false
      → (c == b'\\') ≡ false
      → scan unmarshal s (c ∷ rest) ≡ scan unmarshal (collect s c) rest
  unfolding scan turn
  scan_plain s c rest i e q b = ground arith

  scan_escape :
      (s : Scan) (c : ℕ) (rest : Text)
      → s.in_string ≡ true
      → s.escaped ≡ false
      → scan unmarshal s (b'\\' ∷ c ∷ rest) ≡ scan unmarshal (collect (collect s b'\\') c) rest
  unfolding scan turn
  scan_escape s c rest i e = ground arith

  scan_quote :
      (s : Scan) (rest : Text)
      → s.in_string ≡ true
      → s.escaped ≡ false
      → scan unmarshal s (b'"' ∷ rest)
        ≡ resume
            (λ t. scan unmarshal t rest)
            (close_string unmarshal s.capture_kind (collect s b'"'))
  unfolding scan turn
  scan_quote s rest i e = ground arith

  collect_keeps :
      (s : Scan) (c : ℕ)
      → ((collect s c).in_string ≡ s.in_string)
        × ((collect s c).escaped ≡ s.escaped)
        × ((collect s c).capture_kind ≡ s.capture_kind)
  unfolding collect
  collect_keeps s c = ground arith

  -- A literal is collected byte by byte up to its closing quote, where the capture is decided.
  pub scan_content :
      (s : Scan) (k : Capture) (c : Content) (rest : Text)
      → s.in_string ≡ true
      → s.escaped ≡ false
      → s.capture_kind ≡ k
      → scan unmarshal s (print_content c (b'"' ∷ rest))
        ≡ resume
            (λ t. scan unmarshal t rest)
            (close_string unmarshal k (collect_all s (print_content c (b'"' ∷ []))))
  unfolding collect_all
  scan_content s k end rest i e m = scan_quote s rest i e ∙ rw m
  scan_content s k (plain c q b cs) rest i e m =
      let f = collect_keeps s c in
      scan_plain s c _ i e q b ∙ scan_content (collect s c) k cs rest (f.0 ∙ i) (f.1 ∙ e) (f.2 ∙ m)
  scan_content s k (escape c cs) rest i e m =
      let f = collect_keeps s b'\\' in
      let g = collect_keeps (collect s b'\\') c in
      scan_escape s c _ i e
      ∙ scan_content (collect (collect s b'\\') c) k cs rest (g.0 ∙ f.0 ∙ i) (g.1 ∙ f.1 ∙ e)
          (g.2 ∙ f.2 ∙ m)

pub collect_nothing : (s : Scan) (t : Text) → s.capture_kind ≡ nothing → collect_all s t ≡ s
unfolding collect collect_all
collect_nothing s [] e = refl
collect_nothing s (c ∷ t) e = ground (arith, collect_nothing s t e)

pub collect_fits :
    (s : Scan) (t : Text)
    → captures s.capture_kind ≡ true
    → s.capture_overflow ≡ false
    → length s.raw_string + length t ≤ 4096
    → collect_all s t ≡ record s { raw_string = s.raw_string ++ t }
unfolding collect collect_all
collect_fits s [] k o h = rw append-nil
collect_fits s (c ∷ t) k o h = ground (
  arith,
  length-append s.raw_string (c ∷ []),
  append_assoc s.raw_string (c ∷ []) t,
  collect_fits (record s { raw_string = s.raw_string ++ c ∷ [] }) t,
)

-- Once over the limit, always over it.
collect_over_stays :
    (s : Scan) (t : Text) → s.capture_overflow ≡ true → (collect_all s t).capture_overflow ≡ true
unfolding collect collect_all
collect_over_stays s [] o = o
collect_over_stays s (c ∷ t) o = ground (arith, collect_over_stays s t o)

pub collect_over :
    (s : Scan) (t : Text)
    → captures s.capture_kind ≡ true
    → length s.raw_string ≤ 4096
    → 4096 < length s.raw_string + length t
    → (collect_all s t).capture_overflow ≡ true
unfolding collect collect_all
collect_over s [] k b h = absurd (omega arith)
collect_over s (c ∷ t) k b h = ground (
  arith,
  length-append s.raw_string (c ∷ []),
  collect_over (record s { raw_string = s.raw_string ++ c ∷ [] }) t,
  collect_over_stays (record s { capture_overflow = true }) t,
  collect_over_stays s t,
)

pub end_collect : (s : Scan) (t : Text) → end_string (collect_all s t) ≡ end_string s
unfolding collect collect_all
end_collect s [] = refl
end_collect s (c ∷ t) = ground (
  arith,
  end_collect (record s { raw_string = s.raw_string ++ c ∷ [] }) t,
  end_collect (record s { capture_overflow = true }) t,
  end_collect s t,
)
