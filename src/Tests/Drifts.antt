-- ===== src/Tests/Drifts.antt =====
-- drivers/rest/drift.py at concrete events.
use r64_db_engine.Base.{
  String, ◌≡◌, refl, true, false, Option, some, [], ◌∷◌, string_eq, nat_eq, contains_text,
  starts_with,
}
use r64_db_engine.Base.Dict.{lookup, insert}
use r64_db_engine.Base.Json.{Json, Fields, get}
use r64_db_engine.Config.Env.{sorted_set, insert_sorted}
use r64_db_engine.Rest.Texts.{strip, split_on, ends_with}
use r64_db_engine.Scrub.{Scrubber, scrub, replace_secrets, replace_form, replace, redact_keys}
use r64_db_engine.Rest.Drift.{
  DriftEvent, DriftCalls, appended, emit_drift, read_events, read_lines, all_events, rsplit_first,
}
use r64_db_engine.Rest.Drift.Emitted.{IsRecorded, emit_drift-scrubbed}

abbrev shown : Option Json → String
shown (some (Json.text s)) = s
shown _ = ""

-- A serialization that shows the detail alone.
abbrev dumps : Fields → String
dumps fs = shown (get "detail" fs)

abbrev scrubber : Scrubber
scrubber = record { secrets = "hunter22" ∷ []; auth_keys = [] }

abbrev echoed : String → DriftEvent
echoed source = record {
  source = source;
  recipe = "list";
  url = "https://api.example.com/a";
  page = 1;
  reason = "schema";
  detail = "token hunter22 refused";
  json_path = [];
  schema_path = [];
}

abbrev working : DriftCalls
working = record { mkdir_fails = false; appending = appended; has_ntfy = true }

recorded_line :
    (emit_drift dumps
      (λ s. s)
      (λ s. s)
      working
      "20260101"
      "now"
      (some scrubber)
      (echoed "a")
      []).files
    ≡ ("a-20260101.jsonl", "token «redacted» refused\n") ∷ []
unfolding emit_drift get scrub replace_secrets replace_form replace redact_keys starts_with insert
    lookup string_eq nat_eq
recorded_line = refl

-- The one event of the source `a-b` is read for `a` too, so that both sources together have it twice.
read_twice :
    all_events
      (λ line. some (Json.text line))
      (("a-b-20260101.jsonl", "one\n") ∷ ("a-20260101.jsonl", "two\n") ∷ [])
    ≡ Json.text "two" ∷ Json.text "one" ∷ Json.text "one" ∷ []
unfolding all_events rsplit_first read_events read_lines sorted_set insert_sorted lookup string_eq
    nat_eq starts_with ends_with strip split_on
read_twice = refl

emit_drift-scrubbed_example :
    (line : String) × (contains_text "hunter22" line ≡ false)
    × IsRecorded "hunter22" "a-20260101.jsonl" line [] (
        emit_drift dumps (λ s. s) (λ s. s) working "20260101" "now" (some scrubber) (echoed "a") [])
unfolding string_eq nat_eq contains_text starts_with
emit_drift-scrubbed_example =
    emit_drift-scrubbed dumps (λ s. s) (λ s. s) "hunter22"
      (record { nonempty = refl; unmarked = refl; apart = refl }) scrubber refl working "20260101"
      "now" (echoed "a") []
