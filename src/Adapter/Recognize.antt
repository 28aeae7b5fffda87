-- ===== src/Adapter/Recognize.antt =====
-- What `OutputParser` of internal/adapter/claude_parser.go reads from plain text.
use codeallremote.Prelude.{
  ℕ, String, Bool, Option, none, some, List, [], ◌∷◌, ◌++◌, ◌||◌, not, if◌then◌else◌, map,
}
use codeallremote.Domain.RunState
use codeallremote.Adapter.Parser.{Text, Outside, ascii, has_part}

-- `ApprovalRequestPayload` of a text, with the phrase that was found; `expires_in` is in nanoseconds.
pub record ApprovalRequest : Type 0 where
  pub category : String
  pub action_kind : String
  pub human_readable_context : Text
  pub trigger_phrase : String
  pub expires_in : ℕ

abbrev pub approval_phrases : List String
approval_phrases =
    "do you want to" ∷ "would you like to" ∷ "should i" ∷ "shall i" ∷ "permission to"
    ∷ "approval to" ∷ "may i" ∷ []

abbrev pub request_of : Text → String → ApprovalRequest
request_of text phrase = record {
  category = "command_execution";
  action_kind = "execute";
  human_readable_context = text;
  trigger_phrase = phrase;
  expires_in = 300_000_000_000;
}

unfoldable pub first_phrase : Text → Text → List String → Option ApprovalRequest
unfolding has_part ascii
first_phrase text lower [] = none
first_phrase text lower (phrase ∷ phrases) =
    let rest = first_phrase text lower phrases in
    if has_part (ascii phrase) lower then some (request_of text phrase) else rest

-- `StatusChangePayload`
pub record StatusChange : Type 0 where
  pub old_state : String
  pub new_state : String
  pub reason : Text

abbrev pub status_change : String → String → Text → StatusChange
status_change old_state new_state reason = record {
  old_state = old_state;
  new_state = new_state;
  reason = reason;
}

-- `ChangedFilePayload`, without the fields that stay empty.
pub record ChangedFile : Type 0 where
  pub path : Text
  pub operation : String

module _ (outside : Outside) where
  -- `RecognizeApproval`
  unfoldable pub recognize_approval : Text → Option ApprovalRequest
  recognize_approval raw =
      let text = outside.trim_space raw in
      first_phrase text (outside.to_lower text) approval_phrases

  -- `RecognizeStatusChange`
  unfoldable pub recognize_status_change : Text → Option StatusChange
  unfolding has_part ascii
  recognize_status_change raw =
      let text = outside.trim_space raw in
      let lower = outside.to_lower text in
      if has_part (ascii "starting") lower || has_part (ascii "beginning") lower
      then some (status_change "pending" RunState.starting [])
      else if has_part (ascii "ready") lower || has_part (ascii "running") lower
      then some (status_change RunState.starting RunState.active [])
      else if has_part (ascii "finished") lower
          || has_part (ascii "completed") lower
          || has_part (ascii "done") lower
      then some (status_change RunState.active RunState.completed [])
      else if has_part (ascii "failed") lower || has_part (ascii "error") lower
      then some (status_change RunState.active RunState.failed text)
      else none

  -- `ExtractChangedFiles`, from the groups that its three patterns find in the output.
  abbrev pub changed_file : String → Text → ChangedFile
  changed_file operation path = record { path = outside.trim_space path; operation = operation }

  unfoldable pub extract_changed_files : List Text → List Text → List Text → List ChangedFile
  extract_changed_files modified created deleted =
      map (changed_file "modify") modified
      ++ map (changed_file "create") created
      ++ map (changed_file "delete") deleted

-- `ShouldEmitRaw`
unfoldable pub should_emit_raw : Bool → Bool
should_emit_raw compatibility_degraded = not compatibility_degraded
