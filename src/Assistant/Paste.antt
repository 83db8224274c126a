-- ===== src/Assistant/Paste.antt =====
-- paste_core.py: from a pasted text to at most one call of a provider, and the result of it.
pub mod Input
pub mod Endpoint
pub mod Limits
pub mod Gates
pub mod Sending
use alertmind.Prelude.{
  ℕ, ◌⊎◌, inl, inr, Bool, true, false, not, ◌&&◌, List, [], ◌∷◌, ◌++◌, Option, none, some, take,
  if◌then◌else◌,
}
use alertmind.Text.{Text, text, text_eq}
use alertmind.Platform.{Platform, Bytes}
use alertmind.Json.{Json, str, obj, Items, nil, cons, Fields, end, truthy}
use alertmind.Result.{Result, ok, err}
use alertmind.Dumps.{dump, unicode_style}
use alertmind.Assistant.Redact.{Row, redact_fields, rows_of}
use alertmind.Assistant.Views.{apply_view}
use alertmind.Assistant.Injection.{Hit, scan_alert, contains_boundary}
use alertmind.Assistant.Prompts.{get_system_prompt, build_user_prompt}
use alertmind.Assistant.Schema.{SchemaError, validate_output}
use alertmind.Assistant.Answer.{Reply, answered, raised, parse_response}
use alertmind.Assistant.Paste.Input.{InputError, ParseMode, parse_input, check_limits}
use alertmind.Assistant.Paste.Endpoint.{
  Surroundings, provider_endpoint, display_endpoint, requires_egress_consent,
}

pub data CallStatus : Type 0 where
  not_called blocked_boundary blocked_consent called error : CallStatus

pub data BoundaryStatus : Type 0 where
  clear blocked : BoundaryStatus

-- A line of `schema_errors`: of the validator, of a call that raised, or of a validator that did.
pub data ErrorLine : Type 0 where
  schema : SchemaError → ErrorLine
  exception : Text → ErrorLine

pub record Config : Type 0 where
  pub provider : Text
  pub model_requested : Text
  pub view : Text
  pub prompt_name : Text
  pub system_prompt_hash : Text
  pub endpoint : Text
  pub egress_consent_required : Bool

pub record PasteResult : Type 0 where
  pub result_id : Text
  pub created_at : Text
  pub input_hash : Text
  pub parse_mode : ParseMode
  pub config : Config
  pub redacted_alert : Fields
  pub model_bound_alert : Fields
  pub redaction_trace : List Row
  pub injection_hits : List Hit
  pub boundary_status : BoundaryStatus
  pub redacted_user_message : Text
  pub parsed_output : Json
  pub schema_errors : List ErrorLine
  pub call_meta : Json
  pub call_status : CallStatus
  pub schema_valid : Option Bool
  pub audit_saved : Bool

-- The arguments of `run_paste_pipeline`.
pub record Request : Type 0 where
  pub raw_text : Text
  pub provider : Text
  pub model : Text
  pub view : Text
  pub prompt_name : Text
  pub consent : Bool
  pub allow_call : Bool

-- What goes out: provider, system prompt, user message and model of a call.
pub record Sent : Type 0 where
  pub provider : Text
  pub system : Text
  pub user : Text
  pub model : Text

abbrev schema_lines : List SchemaError → List ErrorLine
schema_lines [] = []
schema_lines (e ∷ es) = schema e ∷ schema_lines es

-- `meta or {}`
abbrev or_empty : Json → Json
or_empty meta = if truthy meta then meta else obj end

-- `getattr(e, "meta", None)`, if it is a dict
abbrev with_meta : PasteResult → Option Json → PasteResult
with_meta r (some (obj meta)) = record r { call_meta = obj meta }
with_meta r _ = r

-- `[] if ok else errors`
abbrev with_verdict : PasteResult → Result (Bool × List SchemaError × Json) → PasteResult
with_verdict r (ok (valid, errors, parsed)) = record r {
  parsed_output = parsed;
  schema_errors = (if valid then [] else schema_lines errors);
  schema_valid = some valid;
}
with_verdict r (err code) = record r {
  call_status = error;
  schema_errors = exception (text code) ∷ [];
}

module _ ⦃p : Platform⦄ where
  -- The `try` around the call.
  unfoldable pub take_reply : PasteResult → Reply → PasteResult
  take_reply r (answered raw meta) =
      with_verdict (record r { call_meta = or_empty meta; call_status = called })
        (validate_output (parse_response raw))
  take_reply r (raised line meta) =
      with_meta (record r { call_status = error; schema_errors = exception line ∷ [] }) meta

  -- `short_sha` of a text, by its UTF-8 bytes
  module _ (io : Surroundings) (utf8 : Text → Bytes) (key : Bytes) where
    unfoldable pub short_sha : Text → Text
    short_sha s = take 16 (p.sha256 (utf8 s))

    -- The result before the first decision. `now` and `later` are the two readings of the clock.
    unfoldable pub prepare : Request → Text → Text → Fields → ParseMode → PasteResult
    prepare q now later alert mode =
        let endpoint = provider_endpoint io q.provider in
        let (redacted, trace) = redact_fields key alert [] (some []) in
        let model_bound = apply_view redacted q.view in
        record {
          result_id = text "adhoc-" ++ short_sha (q.raw_text ++ now);
          created_at = later;
          input_hash = short_sha q.raw_text;
          parse_mode = mode;
          config = record {
            provider = q.provider;
            model_requested = q.model;
            view = q.view;
            prompt_name = q.prompt_name;
            system_prompt_hash = short_sha (get_system_prompt q.prompt_name);
            endpoint = display_endpoint io endpoint;
            egress_consent_required = requires_egress_consent io q.provider endpoint;
          };
          redacted_alert = redacted;
          model_bound_alert = model_bound;
          redaction_trace = rows_of key trace;
          injection_hits = scan_alert (obj model_bound);
          boundary_status = clear;
          redacted_user_message = build_user_prompt (obj model_bound);
          parsed_output = obj end;
          schema_errors = [];
          call_meta = obj end;
          call_status = not_called;
          schema_valid = none;
          audit_saved = false;
        }

    module _ (call : Sent → Reply) where
      abbrev request_of : Request → PasteResult → Sent
      request_of q r = record {
        provider = q.provider;
        system = get_system_prompt q.prompt_name;
        user = r.redacted_user_message;
        model = q.model;
      }

      -- The three gates in front of the call.
      unfoldable pub decide : Request → PasteResult → PasteResult × List Sent
      decide q r =
          if contains_boundary (obj r.model_bound_alert)
          then (record r { boundary_status = blocked; call_status = blocked_boundary }, [])
          else (if requires_egress_consent io q.provider (provider_endpoint io q.provider)
                && not q.consent
              then (record r { call_status = blocked_consent }, [])
              else (if not q.allow_call
                  then (record r { call_status = not_called }, [])
                  else (take_reply r (call (request_of q r)), request_of q r ∷ [])))

      abbrev within_limits :
          Request
          → Text
          → Text
          → Fields
          → ParseMode
          → Option InputError
          → InputError ⊎ (PasteResult × List Sent)
      within_limits q now later alert mode (some e) = inl e
      within_limits q now later alert mode none = inr (decide q (prepare q now later alert mode))

      abbrev from_input :
          Request
          → Text
          → Text
          → InputError ⊎ (Fields × ParseMode)
          → InputError ⊎ (PasteResult × List Sent)
      from_input q now later (inl e) = inl e
      from_input q now later (inr (alert, mode)) =
          within_limits q now later alert mode (check_limits alert)

      unfoldable pub run_paste_pipeline :
          Request → Text → Text → InputError ⊎ (PasteResult × List Sent)
      run_paste_pipeline q now later = from_input q now later (parse_input q.raw_text)
