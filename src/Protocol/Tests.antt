-- ===== src/Protocol/Tests.antt =====
-- The theorems of the protocol package at concrete inputs.
use codeallremote.Prelude.{String, false, none, some, List, [], ◌≡◌, refl, string_eq, ◌∷◌, str_refl}
use codeallremote.Prelude.Int.{pos}
use codeallremote.Prelude.Dict.{Dict, lookup, insert, lookup-insert}
use codeallremote.Prelude.Result.{ok}
use codeallremote.Protocol.Schemas.{Decoders, prompt_schema}
use codeallremote.Protocol.Dispatcher.{
  Command, Outcome, Dispatcher, OutcomeStore, new_dispatcher, register, dispatch, is_documented,
}
use codeallremote.Protocol.Once.{dispatch_twice}

-- An idempotency store without an expiry.
abbrev outcomes : OutcomeStore (Dict Outcome)
outcomes = record { get = lookup; add = insert }

abbrev decoders : Decoders
decoders = record {
  prompt = λ t. ok (record { text = t });
  start = λ t. ok (record { workspace_id = t; adapter_id = t; title = t });
  interrupt = λ t. ok (record {});
  decision = λ t. ok (record { decision = t; reason = "" });
}

abbrev prompt : Command
prompt = record {
  command_id = "c1";
  kind = "session.prompt";
  session_id = "s1";
  idempotency_key = "k1";
  payload = "hello";
  protocol_version = pos 1;
}

-- The state of the application is the list of the prompts that it received.
abbrev dispatcher : Dispatcher (List String) (Dict Outcome)
dispatcher =
    register "session.prompt" (prompt_schema decoders)
      (λ cmd sent. (
        cmd.payload ∷ sent,
        record { accepted = false; message = "sent"; error = none; event_types = [] },
      ))
      (new_dispatcher none (some []))

dispatch_once : (dispatch outcomes prompt dispatcher []).0.1 ≡ "hello" ∷ []
unfolding dispatch register new_dispatcher lookup insert prompt_schema is_documented
dispatch_once = refl

insert_found :
    (key : String) (r : Outcome) (i : Dict Outcome) → lookup key (insert key r i) ≡ some r
insert_found key r i = rw (lookup-insert key key r i) (rw (str_refl key) refl)

dispatch_twice_example :
    let ((d', s'), r) = dispatch outcomes prompt dispatcher [] in
    dispatch outcomes prompt d' s' ≡ ((d', s'), r)
unfolding register new_dispatcher
dispatch_twice_example = dispatch_twice outcomes insert_found prompt dispatcher [] [] refl refl

abbrev newer_prompt : Command
newer_prompt = record prompt { protocol_version = pos 2 }
