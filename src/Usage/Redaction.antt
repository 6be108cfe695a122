-- ===== src/Usage/Redaction.antt =====
-- backend/internal/app/usage.go: what is hidden in the source, the account and the JSON text of a
-- record. A JSON object is the list of its fields; `sprint` is `fmt.Sprint` of a value.
pub mod Hidden
use cpa_helper_s.Prelude.{
  ℕ, Bool, true, false, not, ◌&&◌, ◌||◌, Option, none, some, List, [], ◌∷◌, ◌==◌, if◌then◌else◌,
  map,
}
use cpa_helper_s.Prelude.Text.{Text, codes, text_eq, is_empty, trim_space, normal, contains_text}
use cpa_helper_s.Security.{mask_secret}

mutual
  pub data Json : Type 0 where
    null : Json
    boolean : Bool → Json
    number : Text → Json
    string : Text → Json
    array : Items → Json
    object : Fields → Json

  pub data Items : Type 0 where
    nil : Items
    cons : Json → Items → Items

  pub data Fields : Type 0 where
    end : Fields
    field : Text → Json → Fields → Fields

pub record UsageRedactionOptions : Type 0 where
  pub mask_source : Bool
  pub mask_auth_index : Bool

-- `strings.ReplaceAll(s, c, "")`.
abbrev pub without_byte : ℕ → Text → Text
without_byte c [] = []
without_byte c (d ∷ ds) = if c == d then without_byte c ds else d ∷ without_byte c ds

abbrev pub or_next : Option Text → Option Text → Option Text
or_next none b = b
or_next (some a) b = some a

abbrev pub field_of : Text → Fields → Option Json
field_of name end = none
field_of name (field key v rest) = if text_eq key name then some v else field_of name rest

abbrev pub unless_empty : Text → Option Text
unless_empty t = if is_empty t then none else some t

abbrev pub contains_any : Text → List Text → Bool
contains_any s [] = false
contains_any s (w ∷ ws) = contains_text s w || contains_any s ws

abbrev pub secret_words : List Text
secret_words =
    codes "api_key"
    ∷ codes "apikey"
    ∷ codes "authorization"
    ∷ codes "bearer"
    ∷ codes "cookie"
    ∷ codes "key"
    ∷ codes "password"
    ∷ codes "secret"
    ∷ codes "token"
    ∷ []

module _ (lower : ℕ → ℕ) (sprint : Json → Text) where
  abbrev pub api_key_label : Option Text → Bool
  api_key_label none = false
  api_key_label (some t) =
      text_eq (without_byte b'_' (without_byte b'-' (normal lower t))) (codes "apikey")

  unfoldable pub is_api_key_auth : Option Text → Bool
  is_api_key_auth auth = api_key_label auth

  unfoldable pub redacted_usage_source :
      Option Text → Option Text → UsageRedactionOptions → Option Text
  unfolding is_api_key_auth mask_secret
  redacted_usage_source none auth redaction = none
  redacted_usage_source (some source) auth redaction =
      if not redaction.mask_source && not (is_api_key_auth auth)
      then some source
      else some (mask_secret (some source))

  unfoldable pub redacted_auth_index : Option Text → UsageRedactionOptions → Option Text
  unfolding mask_secret
  redacted_auth_index none redaction = none
  redacted_auth_index (some index) redaction =
      if not redaction.mask_auth_index then some index else some (mask_secret (some index))

  abbrev pub string_of : Option Json → Option Text
  string_of none = none
  string_of (some null) = none
  string_of (some v) = unless_empty (trim_space (sprint v))

  unfoldable pub json_string_field : Fields → Text → Option Text
  json_string_field fields name = string_of (field_of name fields)

  unfoldable pub should_redact_json_field : Text → Option Text → UsageRedactionOptions → Bool
  unfolding is_api_key_auth
  should_redact_json_field key auth redaction =
      let k = map lower key in
      (redaction.mask_source || is_api_key_auth auth) && text_eq k (codes "source")
      || redaction.mask_auth_index
        && (text_eq k (codes "auth_index") || text_eq k (codes "authindex"))
      || contains_any k secret_words

  -- The label of an object, or else that of what it stands in.
  unfoldable pub object_auth : Fields → Option Text → Option Text
  unfolding json_string_field
  object_auth fields inherited = or_next (json_string_field fields (codes "auth_type")) (
      or_next (json_string_field fields (codes "authType"))
        (or_next (json_string_field fields (codes "auth")) inherited))

  abbrev pub masked : Json → Json
  masked null = null
  masked v = string (mask_secret (some (sprint v)))

  module _ (redaction : UsageRedactionOptions) where
    unfoldable mutual
      unfolding should_redact_json_field object_auth

      pub redact_json : Option Text → Json → Json
      redact_json inherited (object fields) =
          object (redact_fields (object_auth fields inherited) fields)
      redact_json inherited (array items) = array (redact_items inherited items)
      redact_json inherited v = v

      pub redact_items : Option Text → Items → Items
      redact_items inherited nil = nil
      redact_items inherited (cons v rest) =
          cons (redact_json inherited v) (redact_items inherited rest)

      pub redact_fields : Option Text → Fields → Fields
      redact_fields auth end = end
      redact_fields auth (field key v rest) =
          let hidden = masked v in
          let shown = redact_json auth v in
          field key (if should_redact_json_field key auth redaction then hidden else shown)
            (redact_fields auth rest)

    abbrev pub redacted_payload : Option Text → Text → Option Json → Json
    redacted_payload auth raw none = string (mask_secret (some raw))
    redacted_payload auth raw (some payload) = redact_json auth payload

    -- `unmarshal` is `json.Unmarshal`, none where the text is no JSON.
    unfoldable pub redacted_raw_json : (Text → Option Json) → Text → Option Text → Json
    unfolding redact_json mask_secret
    redacted_raw_json unmarshal raw auth = redacted_payload auth raw (unmarshal raw)
