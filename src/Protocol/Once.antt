-- ===== src/Protocol/Once.antt =====
-- A command that is sent again, and the guards before a handler.
use codeallremote.Prelude.{
  String, Bool, true, false, Option, none, some, ◌≡◌, refl, ◌==◌, string_eq, Bool-cases, inl, inr,
  arith, ◌∙◌, ◌⊎◌, subst, sym,
}
use codeallremote.Prelude.Dict.{lookup}
use codeallremote.Protocol.Schemas.{Schema, SchemaError}
use codeallremote.Protocol.Dispatcher.{
  Command, Outcome, Dispatcher, OutcomeStore, Handler, dispatch, dispatch_stored, dispatch_new,
  dispatch_configured, validate_and_delegate, delegate, stored_in, is_refused, is_too_new,
  is_documented, both, accept, refusal,
}
use codeallremote.Protocol.Errors.{unsupported_command, new_error}

module _ {S I : Type 0} (store : OutcomeStore I) where
  dispatch_good :
      (cmd : Command) (d : Dispatcher S I) (s : S)
      → is_refused d.auth cmd ≡ false
      → is_too_new cmd.protocol_version ≡ false
      → dispatch store cmd d s
        ≡ dispatch_stored store cmd (stored_in store d.idempotent cmd.idempotency_key) d s
  unfolding dispatch
  dispatch_good cmd d s a v = rw a (rw v refl)

  -- A command whose outcome is stored is answered with it.
  dispatch_seen :
      (cmd : Command) (d : Dispatcher S I) (s : S) (i : I) (r : Outcome)
      → is_refused d.auth cmd ≡ false
      → is_too_new cmd.protocol_version ≡ false
      → (cmd.idempotency_key == "") ≡ false
      → d.idempotent ≡ some i
      → store.get cmd.idempotency_key i ≡ some r
      → dispatch store cmd d s ≡ ((d, s), r)
  unfolding dispatch
  dispatch_seen cmd d s i r a v k hi g = rw a (rw v (rw hi (rw k (rw g refl))))

  -- The outcome with which a result of `Dispatch` is answered again.
  abbrev Again : Command → (Dispatcher S I × S) × Outcome → Type 0
  Again cmd x = dispatch store cmd x.0.0 x.0.1 ≡ x

  module _ (law : (key : String) (r : Outcome) (i : I) → store.get key (store.add key r i) ≡ some r)
      (cmd : Command) (d : Dispatcher S I) (s : S) (i : I)
      (keyed : (cmd.idempotency_key == "") ≡ false) (hi : d.idempotent ≡ some i) where
    delegate-Again :
        (h : Handler S)
        → is_refused d.auth cmd ≡ false
        → is_too_new cmd.protocol_version ≡ false
        → Again cmd (delegate store cmd h d s)
    delegate-Again h a v =
        dispatch_seen cmd (delegate store cmd h d s).0.0 (h cmd s).0
          (store.add cmd.idempotency_key (accept (h cmd s).1) i) (accept (h cmd s).1) a v keyed
          (rw hi (rw keyed refl)) (law cmd.idempotency_key (accept (h cmd s).1) i)

    -- `Dispatch` of the same command with the unchanged dispatcher and state.
    checked-Again :
        (h : Handler S) (o : Option SchemaError)
        → is_refused d.auth cmd ≡ false
        → is_too_new cmd.protocol_version ≡ false
        → dispatch store cmd d s ≡ validate_and_delegate store cmd o h d s
        → Again cmd (validate_and_delegate store cmd o h d s)
    checked-Again h none a v same = delegate-Again h a v
    checked-Again h (some e) a v same = same

    configured-Again :
        (o : Option (Handler S × Schema))
        → is_refused d.auth cmd ≡ false
        → is_too_new cmd.protocol_version ≡ false
        → dispatch store cmd d s ≡ dispatch_configured store cmd o d s
        → Again cmd (dispatch_configured store cmd o d s)
    configured-Again none a v same = same
    configured-Again (some (h, sc)) a v same = checked-Again h (sc cmd.payload) a v same

    new-Again :
        (b : Bool)
        → is_documented cmd.kind ≡ b
        → is_refused d.auth cmd ≡ false
        → is_too_new cmd.protocol_version ≡ false
        → dispatch store cmd d s ≡ dispatch_new store cmd d s
        → Again cmd (dispatch_new store cmd d s)
    new-Again true doc a v same =
        let found = both (lookup cmd.kind d.handlers) (lookup cmd.kind d.schemas) in
        let same' : dispatch store cmd d s ≡ dispatch_configured store cmd found d s =
          same ∙ rw doc refl in
        rw doc (configured-Again found a v same')
    new-Again false doc a v same =
        let r = refusal (new_error unsupported_command "unknown command type") in
        let same' : dispatch store cmd d s ≡ ((d, s), r) = same ∙ rw doc refl in rw doc same'

    stored-Again :
        (o : Option Outcome)
        → is_refused d.auth cmd ≡ false
        → is_too_new cmd.protocol_version ≡ false
        → dispatch store cmd d s ≡ dispatch_stored store cmd o d s
        → Again cmd (dispatch_stored store cmd o d s)
    stored-Again (some r) a v same = same
    stored-Again none a v same = new-Again (is_documented cmd.kind) refl a v same

    refused-Again : is_refused d.auth cmd ≡ true → Again cmd (dispatch store cmd d s)
    unfolding dispatch
    refused-Again a = rw a (rw a refl)

    unstored-Again :
        is_refused d.auth cmd ≡ false
        → is_too_new cmd.protocol_version ≡ false
        → Again cmd (dispatch store cmd d s)
    unstored-Again a v =
        let same = dispatch_good cmd d s a v in
        subst (Again cmd) (sym same)
          (stored-Again (stored_in store d.idempotent cmd.idempotency_key) a v same)

    too_new-Again :
        is_refused d.auth cmd ≡ false
        → is_too_new cmd.protocol_version ≡ true
        → Again cmd (dispatch store cmd d s)
    unfolding dispatch
    too_new-Again a v = rw a (rw v (rw a refl))

    unrefused-Again : is_refused d.auth cmd ≡ false → Again cmd (dispatch store cmd d s)
    unrefused-Again a = elim (Bool-cases (is_too_new cmd.protocol_version)) [
      | inl v ↦ too_new-Again a v
      | inr v ↦ unstored-Again a v
    ]

    answered-Again : Again cmd (dispatch store cmd d s)
    answered-Again = elim (Bool-cases (is_refused d.auth cmd)) [
      | inl a ↦ refused-Again a
      | inr a ↦ unrefused-Again a
    ]

-- With an idempotency store that returns what was added, a command that has a key and is dispatched a
-- second time, directly after the first, gets the same result, and the second dispatch changes nothing.
pub dispatch_twice :
    {S I : Type 0} (store : OutcomeStore I)
    → ((key : String) (r : Outcome) (i : I) → store.get key (store.add key r i) ≡ some r)
    → (cmd : Command) (d : Dispatcher S I) (s : S) (i : I) → (cmd.idempotency_key == "") ≡ false
    → d.idempotent ≡ some i
    → let ((d', s'), r) = dispatch store cmd d s in dispatch store cmd d' s' ≡ ((d', s'), r)
dispatch_twice store law cmd d s i keyed hi = answered-Again store law cmd d s i keyed hi

-- A command that is refused by the authenticator, that asks for a protocol version above 1, or whose
-- type is not documented and whose key has no stored result, is not accepted and changes nothing.
dispatch_guarded :
    {S I : Type 0} (store : OutcomeStore I) (cmd : Command) (d : Dispatcher S I) (s : S)
    → (is_refused d.auth cmd ≡ true)
      ⊎ ((is_too_new cmd.protocol_version ≡ true)
          ⊎ ((is_documented cmd.kind ≡ false)
              × (stored_in store d.idempotent cmd.idempotency_key ≡ none)))
    → let (x, r) = dispatch store cmd d s in (x ≡ (d, s)) × (r.accepted ≡ false)
unfolding dispatch
dispatch_guarded store cmd d s (inl a) = rw a (refl, refl)
dispatch_guarded store cmd d s (inr (inl v)) = elim (Bool-cases (is_refused d.auth cmd)) [
  | inl a ↦ rw a (refl, refl)
  | inr a ↦ rw a (rw v (refl, refl))
]
dispatch_guarded store cmd d s (inr (inr (doc, n))) = ground arith
