-- ===== src/Audit/Redacted.antt =====
-- What the redaction leaves of a context: a description of `redactValue` of internal/audit/writer.go by what
-- the written value has to do with the given one. Values that are neither text nor `[]byte`,
-- `json.RawMessage`, `map[string]any` or `[]any` are not looked into, so a map of another Go type is
-- written as it is, with the values of its sensitive keys.
use codeallremote.Prelude.{String, true, false, List, ◌≡◌, Bool-cases, inl, inr}
use codeallremote.Audit.Redaction.{
  Value, Items, Fields, text, bytes, raw, object, list, other, no_item, item, no_field, field,
  redacted, redact_patterns, is_sensitive_key, redact_inner, redact_items, redact_fields,
}

module _ (lower : String → String) (keys patterns : List String) where
  mutual
    -- The second value is the redaction of the first.
    pub data IsRedaction : Value → Value → Type 0 where
      of_text : (s : String) → IsRedaction (text s) (text (redact_patterns s patterns))
      of_bytes : (s : String) → IsRedaction (bytes s) (text (redact_patterns s patterns))
      of_raw : (s : String) → IsRedaction (raw s) (text (redact_patterns s patterns))
      of_object : {f g : Fields} → AreRedacted f g → IsRedaction (object f) (object g)
      of_list : {a b : Items} → HasRedacted a b → IsRedaction (list a) (list b)
      of_other : (s : String) → IsRedaction (other s) (other s)

    -- The elements of a list are looked up under the empty key.
    pub data HasRedacted : Items → Items → Type 0 where
      no_items : HasRedacted no_item no_item
      marked_item :
          {v : Value} {a b : Items}
          → is_sensitive_key lower "" keys ≡ true
          → HasRedacted a b
          → HasRedacted (item v a) (item (text redacted) b)
      redacted_item :
          {v w : Value} {a b : Items}
          → is_sensitive_key lower "" keys ≡ false
          → IsRedaction v w
          → HasRedacted a b
          → HasRedacted (item v a) (item w b)

    -- The keys stay in their order, the value of a sensitive one is the mark, and every other value is
    -- redacted.
    pub data AreRedacted : Fields → Fields → Type 0 where
      no_fields : AreRedacted no_field no_field
      marked_field :
          {k : String} {v : Value} {f g : Fields}
          → is_sensitive_key lower k keys ≡ true
          → AreRedacted f g
          → AreRedacted (field k v f) (field k (text redacted) g)
      redacted_field :
          {k : String} {v w : Value} {f g : Fields}
          → is_sensitive_key lower k keys ≡ false
          → IsRedaction v w
          → AreRedacted f g
          → AreRedacted (field k v f) (field k w g)

  mutual
    unfolding redact_inner

    redact_inner-IsRedaction : (v : Value) → IsRedaction v (redact_inner lower keys patterns v)
    redact_inner-IsRedaction (text s) = of_text s
    redact_inner-IsRedaction (bytes s) = of_bytes s
    redact_inner-IsRedaction (raw s) = of_raw s
    redact_inner-IsRedaction (object fields) = of_object (redact_fields-AreRedacted fields)
    redact_inner-IsRedaction (list items) = of_list (redact_items-HasRedacted items)
    redact_inner-IsRedaction (other s) = of_other s

    redact_items-HasRedacted :
        (items : Items) → HasRedacted items (redact_items lower keys patterns items)
    redact_items-HasRedacted no_item = no_items
    redact_items-HasRedacted (item v items) =
        let inner = redact_inner-IsRedaction v in
        let rest = redact_items-HasRedacted items in
        elim (Bool-cases (is_sensitive_key lower "" keys)) [
          | inl y ↦ rw y (marked_item y rest)
          | inr n ↦ rw n (redacted_item n inner rest)
        ]

    pub redact_fields-AreRedacted :
        (fields : Fields) → AreRedacted fields (redact_fields lower keys patterns fields)
    redact_fields-AreRedacted no_field = no_fields
    redact_fields-AreRedacted (field k v fields) =
        let inner = redact_inner-IsRedaction v in
        let rest = redact_fields-AreRedacted fields in
        elim (Bool-cases (is_sensitive_key lower k keys)) [
          | inl y ↦ rw y (marked_field y rest)
          | inr n ↦ rw n (redacted_field n inner rest)
        ]
