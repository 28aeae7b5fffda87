-- ===== src/Audit/Redaction.antt =====
-- The redaction of internal/audit/writer.go. `strings.ToLower` is a parameter, `lower`.
use Prim.Native.String.{len, count, ◌++◌}
use codeallremote.Prelude.{
  ℕ, zero, suc, ◌-◌, String, Bool, false, List, [], ◌∷◌, ◌&&◌, ◌||◌, not, if◌then◌else◌, ◌==◌,
  string_eq, leb,
}
use codeallremote.Prelude.Text.{has_prefix, contains_text}

-- A Go value of type `any`, by the cases of the `switch`: a text, `[]byte`, `json.RawMessage`,
-- `map[string]any`, `[]any`, or a value of another type, which is known by its JSON text. A map or a slice
-- of another Go type, such as `map[string]string`, is of the last kind: `redactValue` returns it as it is.
mutual
  pub data Value : Type 0 where
    text bytes raw : String → Value
    object : Fields → Value
    list : Items → Value
    other : String → Value

  pub data Items : Type 0 where
    no_item : Items
    item : Value → Items → Items

  pub data Fields : Type 0 where
    no_field : Fields
    field : String → Value → Fields → Fields

abbrev pub redacted : String
redacted = "[REDACTED]"

-- `strings.ReplaceAll(s, old, new)` for a text `old` that is not empty; `skip` counts the characters of an
-- occurrence that are still to be passed over.
unfoldable pub replace_from : String → String → ℕ → String → String
replace_from old new skip String.[] = ""
replace_from old new (suc skip) (String.◌∷◌ c s) = replace_from old new skip s
replace_from old new zero (String.◌∷◌ c s) =
    let replaced = new ++ replace_from old new (count old - 1) s in
    let kept = String.◌∷◌ c (replace_from old new zero s) in
    if has_prefix (String.◌∷◌ c s) old then replaced else kept

abbrev pub replace_all : String → String → String → String
replace_all s old new = replace_from old new 0 s

-- `redactPatterns`
unfoldable pub redact_patterns : String → List String → String
redact_patterns value [] = value
redact_patterns value (p ∷ patterns) =
    redact_patterns (if not (p == "") && leb 4 (len p) then replace_all value p redacted else value)
      patterns

module _ (lower : String → String) where
  -- `isSensitiveKey`
  unfoldable pub is_sensitive_key : String → List String → Bool
  is_sensitive_key key [] = false
  is_sensitive_key key (sensitive ∷ keys) =
      contains_text (lower key) (lower sensitive) || is_sensitive_key key keys

module _ (lower : String → String) (keys patterns : List String) where
  -- `redactValue`: the value of a key, the elements of a list, and the entries of a map.
  unfoldable mutual
    pub redact_inner : Value → Value
    redact_inner (text s) = text (redact_patterns s patterns)
    redact_inner (bytes s) = text (redact_patterns s patterns)
    redact_inner (raw s) = text (redact_patterns s patterns)
    redact_inner (object fields) = object (redact_fields fields)
    redact_inner (list items) = list (redact_items items)
    redact_inner (other s) = other s

    pub redact_items : Items → Items
    redact_items no_item = no_item
    redact_items (item v items) =
        let rest = redact_items items in
        let inner = redact_inner v in
        item (if is_sensitive_key lower "" keys then text redacted else inner) rest

    pub redact_fields : Fields → Fields
    redact_fields no_field = no_field
    redact_fields (field k v fields) =
        let rest = redact_fields fields in
        let inner = redact_inner v in
        field k (if is_sensitive_key lower k keys then text redacted else inner) rest

  unfoldable pub redact_value : String → Value → Value
  redact_value key v = if is_sensitive_key lower key keys then text redacted else redact_inner v
