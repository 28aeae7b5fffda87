-- ===== src/Audit/Recorded.antt =====
-- What `Record` leaves in the log.
use codeallremote.Prelude.{
  subst, sym, ℕ, String, Bool, true, false, Option, none, some, List, ◌≡◌, refl, ◌⊎◌, inl, inr,
  Bool-cases, ◌==◌, string_eq,
}
use codeallremote.Prelude.Result.{Result, ok, err}
use codeallremote.Storage.Database.{
  Tables, Db, SqlError, run_unless, next_fault, or_error, statement,
}
use codeallremote.Audit.Redaction.{Fields}
use codeallremote.Audit.Redacted.{AreRedacted, redact_fields-AreRedacted}
use codeallremote.Audit.Writer.{
  Writer, Entry, AuditError, insert_entry, redact_some, redact_context, write_entry, record_entry,
}

-- The context that is written is the redaction of the given one.
abbrev pub IsSafe : (String → String) → Writer → Option Fields → Option Fields → Type 0
IsSafe lower w none none = Unit
IsSafe lower w (some f) (some g) = AreRedacted lower w.redact_keys w.redact_patterns f g
IsSafe lower w none (some g) = ⊥
IsSafe lower w (some f) none = ⊥

module _ (lower : String → String) (marshal : Option Fields → Option String) where
  -- Why an entry is refused: it has no actor or no action, its redacted context has no JSON text, or the
  -- driver fails.
  abbrev IsRefused : Entry → Writer → Bool → AuditError → Type 0
  IsRefused e w fault x =
      ((x ≡ AuditError.actor_required) × ((e.actor_id == "") ≡ true))
      ⊎ (((x ≡ AuditError.action_required) × ((e.action == "") ≡ true))
          ⊎ (((x ≡ AuditError.not_marshaled)
                × ((context : Option Fields) × IsSafe lower w e.context context
                    × (marshal context ≡ none)))
              ⊎ ((x ≡ AuditError.not_written SqlError.driver) × (fault ≡ true))))

  -- Either an error with its cause and the tables as they were, or one more entry, whose context is the text
  -- of the redaction of the given one.
  abbrev pub Recorded :
      ℕ → Entry → Writer → Bool → Tables → Result AuditError (Unit {0}) × Db → Type 0
  Recorded db_now e w fault t (res, db') =
      ((x : AuditError) × (res ≡ err x) × (db'.tables ≡ t) × IsRefused e w fault x)
      ⊎ ((context : Option Fields) × (written : String) × (res ≡ ok tt)
          × (marshal context ≡ some written)
          × IsSafe lower w e.context context
          × (db'.tables ≡ insert_entry db_now e written t))

  redact_some-IsSafe :
      (w : Writer) (context : Option Fields) → IsSafe lower w context (redact_some lower w context)
  redact_some-IsSafe w none = tt
  redact_some-IsSafe w (some fields) =
      redact_fields-AreRedacted lower w.redact_keys w.redact_patterns fields

  module _ (db_now : ℕ) (e : Entry) (w : Writer) (t : Tables) where
    inserted-Recorded :
        (fault : Bool) (fs : List Bool) (context : Option Fields) (written : String)
        → marshal context ≡ some written
        → IsSafe lower w e.context context
        → Recorded db_now e w fault t (
            let (res, db') =
              run_unless fault fs (λ t. ok (tt, insert_entry db_now e written t)) t in
            (or_error AuditError.not_written res, db'))
    inserted-Recorded true fs context written m h =
        inl (AuditError.not_written SqlError.driver, refl, refl, inr (inr (inr (refl, refl))))
    inserted-Recorded false fs context written m h = inr (context, written, refl, m, h, refl)

    write_entry-Recorded :
        (o : Option String) (fs : List Bool) (context : Option Fields)
        → marshal context ≡ o
        → IsSafe lower w e.context context
        → Recorded db_now e w
            (next_fault fs).0
            t
            (write_entry lower marshal db_now e o (record { tables = t; faults = fs }))
    unfolding statement
    write_entry-Recorded none fs context m h =
        inl (AuditError.not_marshaled, refl, refl, inr (inr (inl (refl, (context, h, m)))))
    write_entry-Recorded (some written) fs context m h =
        inserted-Recorded (next_fault fs).0 (next_fault fs).1 context written m h

-- `Record` returns an error and leaves the tables as they were only if the entry has no actor or no action, if
-- the redaction of its context has no JSON text, or if the driver fails; else it adds one entry to the log and
-- changes nothing else. The context of that entry is the JSON text of the redaction of the given one: it has
-- the same keys in the same order, the mark for the value of every key that contains one of the writer's
-- keys, both in lower case, the texts with the writer's patterns replaced, and the same in the maps of type
-- `map[string]any` and the lists of type `[]any` at any depth; values of other types are in it as they are.
pub record_entry-Recorded :
    (lower : String → String) (marshal : Option Fields → Option String) (db_now : ℕ) (e : Entry)
    (w : Writer) (db : Db)
    → Recorded lower marshal db_now e w
        (next_fault db.faults).0
        db.tables
        (record_entry lower marshal db_now e w db)
unfolding record_entry redact_context
record_entry-Recorded lower marshal db_now e w db = elim (Bool-cases (e.actor_id == "")) [
  | inl a ↦ rw a (inl (AuditError.actor_required, refl, refl, inl (refl, refl)))
  | inr a ↦ elim (Bool-cases (e.action == "")) [
    | inl b ↦ rw a (rw b (inl (AuditError.action_required, refl, refl, inr (inl (refl, refl)))))
    | inr b ↦
        let context = redact_some lower w e.context in
        let goes_on : record_entry lower marshal db_now e w db
            ≡ write_entry lower marshal db_now e (marshal context) db =
          rw a (rw b refl) in
        subst (Recorded lower marshal db_now e w (next_fault db.faults).0 db.tables) (sym goes_on) (
          write_entry-Recorded lower marshal db_now e w db.tables (marshal context) db.faults
            context refl (redact_some-IsSafe lower marshal w e.context))
  ]
]
