-- ===== src/Rest/Drift.antt =====
-- drivers/rest/drift.py: the repair events. `json.dumps(…, sort_keys=True)` and `json.loads` are parameters, the
-- files of the directory are a dictionary of texts, the clock readings are arguments. The source of an event has
-- no special character of `glob`.
pub mod Emitted
pub mod Shared
use Prim.Native.Char.{Char, code}
use r64_db_engine.Base.{
  ◌==◌, ℕ, zero, suc, String, ◌<>◌, Bool, true, false, ◌&&◌, Option, none, some, List, [], ◌∷◌,
  ◌++◌, if◌then◌else◌, nat_eq, string_eq, is_empty, is_space, starts_with, filter,
}
use r64_db_engine.Base.Dict.{Dict, keys, lookup, insert}
use r64_db_engine.Base.Decimal.{pos}
use r64_db_engine.Base.Json.{Json, text, num, arr, obj, nil, cons, Items, Fields, end, field}
use r64_db_engine.Rest.Texts.{strip, split_on, ends_with}
use r64_db_engine.Config.Env.{sorted_set}
use r64_db_engine.Scrub.{Scrubber, scrub}

-- The paths are the texts of their parts, `str(p)`.
pub record DriftEvent : Type 0 where
  pub source : String
  pub recipe : String
  pub url : String
  pub page : ℕ
  pub reason : String
  pub detail : String
  pub json_path : List String
  pub schema_path : List String

abbrev texts : List String → Items
texts [] = nil
texts (s ∷ ss) = cons (text s) (texts ss)

-- `DriftEvent.as_dict`
abbrev pub as_dict : String → DriftEvent → Fields
as_dict observed_utc event = field "source" (text event.source) (
    field "recipe" (text event.recipe) (
      field "url" (text event.url) (
        field "page" (num (pos event.page)) (
          field "reason" (text event.reason) (
            field "detail" (text event.detail) (
              field "json_path" (arr (texts event.json_path)) (
                field "schema_path" (arr (texts event.schema_path))
                  (field "observed_utc" (text observed_utc) end))))))))

-- `drift_dir`, of the environment variable
abbrev pub drift_dir : String → Option String → String
drift_dir default_drift_dir none = default_drift_dir
drift_dir default_drift_dir (some override) =
    if is_empty override then default_drift_dir else override

-- `f"{event.source}-{stamp}.jsonl"`
abbrev pub event_file : String → String → String
event_file source stamp = source <> ("-" <> (stamp <> ".jsonl"))

-- `s[:n]`
abbrev pub prefix : ℕ → String → String
prefix zero s = ""
prefix (suc n) String.[] = ""
prefix (suc n) (String.◌∷◌ c s) = String.◌∷◌ c (prefix n s)

-- What appending to a file does: it is opened and written, cannot be opened, or is written in part.
pub data Appending : Type 0 where
  appended : Appending
  not_opened : Appending
  cut_short : ℕ → Appending

-- What the operating system does in one `emit_drift`, and whether the notifier is there.
pub record DriftCalls : Type 0 where
  pub mkdir_fails : Bool
  pub appending : Appending
  pub has_ntfy : Bool

-- The text of a file that may not be there yet.
abbrev pub file_text : Option String → String
file_text none = ""
file_text (some t) = t

abbrev pub append_file : Appending → String → String → Dict String String → Dict String String
append_file appended name line files = insert name (file_text (lookup name files) <> line) files
append_file not_opened name line files = files
append_file (cut_short n) name line files =
    insert name (file_text (lookup name files) <> prefix n line) files

-- The title and the body of the alert.
abbrev pub notify : Bool → (String → String) → DriftEvent → Option (String × String)
notify false scrub event = none
notify true scrub event = some (
  scrub ("r64 recipe drift: " <> (event.source <> ("/" <> event.recipe))),
  scrub (
      event.reason
      <> (" — " <> (prefix 400 event.detail <> ". Re-research and re-admit; do not retry."))),
)

-- What `emit_drift` returns, the files, and the alert that it sent.
pub record Outcome : Type 0 where
  pub path : Option String
  pub files : Dict String String
  pub alert : Option (String × String)

module _ (dumps : Fields → String) (quote quote_plus : String → String) where
  abbrev pub scrub_of : Option Scrubber → String → String
  scrub_of none line = line
  scrub_of (some scrubber) line = scrub quote quote_plus scrubber line

  unfoldable pub emit_drift :
      DriftCalls → String → String → Option Scrubber → DriftEvent → Dict String String → Outcome
  emit_drift calls stamp observed_utc scrubber event files =
      let name = event_file event.source stamp in
      let line = scrub_of scrubber (dumps (as_dict observed_utc event)) in
      let alert = notify calls.has_ntfy (scrub_of scrubber) event in
      if calls.mkdir_fails then record { path = none; files = files; alert = alert } else record {
        path = some name;
        files = append_file calls.appending name (line <> "\n") files;
        alert = alert;
      }

-- `glob(f"{source}-*.jsonl")`, on one name
abbrev pub is_event_file : String → String → Bool
is_event_file source name = starts_with name (source <> "-") && ends_with name ".jsonl"

-- The text before the last separator, if there is one.
abbrev before_here : Bool → Char → Option String → Option String
before_here is_separator c (some before) = some (String.◌∷◌ c before)
before_here true c none = some ""
before_here false c none = none

unfoldable pub rsplit_first : ℕ → String → Option String
rsplit_first separator String.[] = none
rsplit_first separator (String.◌∷◌ c s) =
    before_here (code c == separator) c (rsplit_first separator s)

abbrev or_whole : String → Option String → String
or_whole name none = name
or_whole name (some before) = before

-- `p.name.rsplit("-", 1)[0]`, of the names that end in `.jsonl`
abbrev pub sources_of : List String → List String
sources_of [] = []
sources_of (name ∷ names) =
    let others = sources_of names in
    if ends_with name ".jsonl" then or_whole name (rsplit_first b'-' name) ∷ others else others

module _ (loads : String → Option Json) where
  abbrev onto : Option Json → List Json → List Json
  onto none events = events
  onto (some event) events = event ∷ events

  -- The lines that are left; an empty one and one that cannot be parsed are skipped.
  unfoldable pub read_lines : List String → List Json
  read_lines [] = []
  read_lines (line ∷ lines) =
      let stripped = strip is_space line in
      let rest = read_lines lines in if is_empty stripped then rest else onto (loads stripped) rest

  abbrev pub read_files : Dict String String → List String → List Json
  read_files files [] = []
  read_files files (name ∷ names) =
      read_lines (split_on b'\n' (file_text (lookup name files))) ++ read_files files names

  unfoldable pub read_events : String → Dict String String → List Json
  read_events source files =
      read_files files (filter (is_event_file source) (sorted_set (keys files)))

  abbrev of_sources : Dict String String → List String → List Json
  of_sources files [] = []
  of_sources files (source ∷ sources) = read_events source files ++ of_sources files sources

  unfoldable pub all_events : Dict String String → List Json
  all_events files = of_sources files (sorted_set (sources_of (keys files)))
