-- ===== src/Usage/Redaction/Hidden.antt =====
-- backend/internal/app/usage.go: no field that names a secret keeps its value.
use cpa_helper_s.Prelude.{
  ℕ, ◌+◌, ◌-◌, ◌≡◌, ◌≤◌, ◌⊎◌, inl, inr, refl, Bool, true, false, ◌&&◌, ◌||◌, Option, none, some,
  ◌++◌, leb, if◌then◌else◌, map, arith, Bool-cases, length, take, length-append, length-take,
  length-drop,
}
use cpa_helper_s.Prelude.Text.{Text, codes, text_eq, is_empty, trim_space}
use cpa_helper_s.Security.{mask_secret, mask_normalized, unknown, last_bytes}
use cpa_helper_s.Usage.Redaction.{
  Json, null, boolean, number, string, array, object, Items, nil, cons, Fields, end, field,
  UsageRedactionOptions, secret_words, contains_any, should_redact_json_field, object_auth,
  is_api_key_auth, masked, redact_json, redact_items, redact_fields,
}

parts-bounded :
    (m n : ℕ) (s : Text) → length (take m s ++ codes "..." ++ last_bytes n s) ≤ m + 3 + n
parts-bounded m n s = omega (
  arith,
  length-append (take m s ++ codes "...") (last_bytes n s),
  length-append (take m s) (codes "..."),
  length-take m s,
  length-drop (length s - n) s,
)

-- A mask has at most 13 bytes.
mask_normalized-bounded : (s : Text) → length (mask_normalized s) ≤ 13
unfolding mask_normalized
mask_normalized-bounded s = elim (Bool-cases (is_empty s)) [
  | inl e ↦ rw e (omega arith)
  | inr e ↦ elim (Bool-cases (text_eq s unknown)) [
    | inl f ↦ rw (e, f) (omega arith)
    | inr f ↦ elim (Bool-cases (leb (length s) 4)) [
      | inl g ↦ rw (e, f, g) (omega arith)
      | inr g ↦ elim (Bool-cases (leb (length s) 8)) [
        | inl h ↦ rw (e, f, g, h) (omega (arith, parts-bounded 1 1 s))
        | inr h ↦ rw (e, f, g, h) (omega (arith, parts-bounded 6 4 s))
      ]
    ]
  ]
]

pub mask_secret-bounded : (s : Option Text) → length (mask_secret s) ≤ 13
unfolding mask_secret
mask_secret-bounded none = omega arith
mask_secret-bounded (some s) = mask_normalized-bounded (trim_space s)

module _ (lower : ℕ → ℕ) (redaction : UsageRedactionOptions) where
  -- The fields that are hidden under any label: those of the options, and those that name a secret.
  abbrev pub is_hidden_key : Text → Bool
  is_hidden_key key =
      let k = map lower key in
      redaction.mask_source && text_eq k (codes "source")
      || redaction.mask_auth_index
        && (text_eq k (codes "auth_index") || text_eq k (codes "authindex"))
      || contains_any k secret_words

  module _ (sprint : Json → Text) where
    -- What is shown for a value that is hidden: null for null, and else the mask of its text, which has
    -- at most 13 bytes.
    abbrev pub IsMaskOf : Json → Json → Type 0
    IsMaskOf null shown = shown ≡ null
    IsMaskOf v shown =
        (shown ≡ string (mask_secret (some (sprint v))))
        × (length (mask_secret (some (sprint v))) ≤ 13)

    -- A value and what is shown for it: the same fields in the same order, where a hidden field has a
    -- mask of its value, and any other the value redacted, or a mask if it is the source.
    abbrev mutual
      pub Hides : Json → Json → Type 0
      Hides (object fields) (object shown) = FieldsHide fields shown
      Hides (object fields) shown = ⊥
      Hides (array items) (array shown) = ItemsHide items shown
      Hides (array items) shown = ⊥
      Hides v shown = shown ≡ v

      pub ItemsHide : Items → Items → Type 0
      ItemsHide nil nil = Unit
      ItemsHide (cons v rest) (cons w shown) = Hides v w × ItemsHide rest shown
      ItemsHide items shown = ⊥

      pub FieldsHide : Fields → Fields → Type 0
      FieldsHide end end = Unit
      FieldsHide (field key v rest) (field name w shown) =
          let inside = Hides v w in
          (name ≡ key)
          × (if is_hidden_key key
              then IsMaskOf v w
              else inside
              ⊎ IsMaskOf v w × text_eq (map lower key) (codes "source") ≡ true)
          × FieldsHide rest shown
      FieldsHide fields shown = ⊥

    shown-Hides :
        (hide redact : Bool) (m w : Json) (v : Json) (source : Bool)
        → (hide ≡ true → redact ≡ true)
        → (redact ≡ true → hide ≡ false → source ≡ true)
        → IsMaskOf v m
        → Hides v w
        → let shown = if redact then m else w in
          if hide then IsMaskOf v shown else Hides v shown ⊎ IsMaskOf v shown × source ≡ true
    shown-Hides true true m w v source more only mask inside = mask
    shown-Hides true false m w v source more only mask inside = absurd (ground arith)
    shown-Hides false true m w v source more only mask inside = inr (mask, only refl refl)
    shown-Hides false false m w v source more only mask inside = inl inside

    masked-IsMaskOf : (v : Json) → IsMaskOf v (masked lower sprint v)
    masked-IsMaskOf null = refl
    masked-IsMaskOf (boolean b) = (refl, mask_secret-bounded (some (sprint (boolean b))))
    masked-IsMaskOf (number n) = (refl, mask_secret-bounded (some (sprint (number n))))
    masked-IsMaskOf (string s) = (refl, mask_secret-bounded (some (sprint (string s))))
    masked-IsMaskOf (array items) = (refl, mask_secret-bounded (some (sprint (array items))))
    masked-IsMaskOf (object fields) = (refl, mask_secret-bounded (some (sprint (object fields))))

    -- The label of a record can only hide more, and no more than the source.
    more_hidden :
        (options label source index word : Bool)
        → ((options && source || index || word) ≡ true
            → ((options || label) && source || index || word) ≡ true)
          × (((options || label) && source || index || word) ≡ true
              → (options && source || index || word) ≡ false
              → source ≡ true)
    more_hidden options label source index word = ground arith

    redacted_iff :
        (key : Text) (auth : Option Text)
        → (is_hidden_key key ≡ true
            → should_redact_json_field lower sprint key auth redaction ≡ true)
          × (should_redact_json_field lower sprint key auth redaction ≡ true
              → is_hidden_key key ≡ false
              → text_eq (map lower key) (codes "source") ≡ true)
    unfolding should_redact_json_field
    redacted_iff key auth =
        more_hidden redaction.mask_source (is_api_key_auth lower sprint auth)
          (text_eq (map lower key) (codes "source")) _ _

    mutual
      unfolding redact_json redact_items redact_fields

      value-Hides :
          (auth : Option Text) (v : Json) → Hides v (redact_json lower sprint redaction auth v)
      value-Hides auth null = refl
      value-Hides auth (boolean b) = refl
      value-Hides auth (number n) = refl
      value-Hides auth (string s) = refl
      value-Hides auth (array items) = items-hide auth items
      value-Hides auth (object fields) = fields-hide (object_auth lower sprint fields auth) fields

      items-hide :
          (auth : Option Text) (items : Items)
          → ItemsHide items (redact_items lower sprint redaction auth items)
      items-hide auth nil = tt
      items-hide auth (cons v rest) = (value-Hides auth v, items-hide auth rest)

      fields-hide :
          (auth : Option Text) (fields : Fields)
          → FieldsHide fields (redact_fields lower sprint redaction auth fields)
      fields-hide auth end = tt
      fields-hide auth (field key v rest) =
          let law = redacted_iff key auth in
          (
            refl,
            shown-Hides (is_hidden_key key)
                (should_redact_json_field lower sprint key auth redaction) (masked lower sprint v)
                (redact_json lower sprint redaction auth v) v
                (text_eq (map lower key) (codes "source")) law.0 law.1 (masked-IsMaskOf v)
                (value-Hides auth v),
            fields-hide auth rest,
          )

    -- The JSON text that a user is shown has the fields and items of the stored one. At every depth,
    -- each field whose name contains a word for a secret, and each that the options hide, has null in
    -- place of null and else the mask, of at most 13 bytes, of the text of its own value; a field
    -- named "source" may be masked so too; what stands in any other field is redacted in the same way,
    -- and other values are as they were.
    pub redact_json-Hides :
        (auth : Option Text) (v : Json) → Hides v (redact_json lower sprint redaction auth v)
    redact_json-Hides auth v = value-Hides auth v
