-- ===== src/Rest/Drift/Emitted.antt =====
-- drivers/rest/drift.py: what an emitted event leaves in the file and in the alert.
use r64_db_engine.Base.{
  ℕ, String, ◌<>◌, ◌≡◌, ◌⊎◌, refl, ◌∙◌, inl, inr, Bool, true, false, Option, none, some, ◌==◌,
  string_eq, contains_text, contains, ==-refl, Bool-cases,
}
use r64_db_engine.Base.Dict.{Dict, lookup, insert, lookup-insert}
use r64_db_engine.Base.Json.{Fields}
use r64_db_engine.Scrub.{Scrubber, scrub}
use r64_db_engine.Scrub.Cuts.{IsClean}
use r64_db_engine.Scrub.Redacted.{contains-scrub}
use r64_db_engine.Rest.Drift.{
  DriftEvent, as_dict, event_file, prefix, DriftCalls, Appending, appended, not_opened, cut_short,
  file_text, append_file, notify, Outcome, emit_drift,
}

-- A text that holds no secret, in an alert that may not have been sent.
abbrev pub IsSilent : String → Option (String × String) → Type 0
IsSilent secret none = Unit
IsSilent secret (some (title, body)) =
    (contains_text secret title ≡ false) × (contains_text secret body ≡ false)

-- What was added to the file: nothing, or the line or a part of it.
abbrev pub IsAppended : String → Option String → Option String → Type 0
IsAppended line before after =
    (after ≡ before)
    ⊎ ((after ≡ some (file_text before <> (line <> "\n")))
        ⊎ ((n : ℕ) × (after ≡ some (file_text before <> prefix n (line <> "\n")))))

lookup-inserted :
    (name new : String) (files : Dict String String)
    → lookup name (insert name new files) ≡ some new
lookup-inserted name new files = lookup-insert name name new files ∙ rw (==-refl name) refl

append-IsAppended :
    (a : Appending) (name line : String) (files : Dict String String)
    → IsAppended line (lookup name files) (lookup name (append_file a name (line <> "\n") files))
append-IsAppended appended name line files = inr (inl (lookup-inserted name _ files))
append-IsAppended not_opened name line files = inl refl
append-IsAppended (cut_short n) name line files = inr (inr (n, lookup-inserted name _ files))

append-others :
    (a : Appending) (name line other : String) (files : Dict String String)
    → (other == name) ≡ false
    → lookup other (append_file a name line files) ≡ lookup other files
append-others appended name line other files h = lookup-insert other name _ files ∙ rw h refl
append-others not_opened name line other files h = refl
append-others (cut_short n) name line other files h = lookup-insert other name _ files ∙ rw h refl

-- Only the file `name` changed, by the line, and the alert is silent.
abbrev pub IsRecorded : String → String → String → Dict String String → Outcome → Type 0
IsRecorded secret name line files out =
    IsAppended line (lookup name files) (lookup name out.files)
    × ((other : String) → (other == name) ≡ false → lookup other out.files ≡ lookup other files)
    × IsSilent secret out.alert

module _ (dumps : Fields → String) (quote quote_plus : String → String) (secret : String)
    (clean : IsClean secret) (s : Scrubber) (registered : contains s.secrets secret ≡ true) where
  silent :
      (has_ntfy : Bool) (event : DriftEvent)
      → IsSilent secret (notify has_ntfy (scrub quote quote_plus s) event)
  silent false event = tt
  silent true event = (
    contains-scrub secret clean quote quote_plus s _ registered,
    contains-scrub secret clean quote quote_plus s _ registered,
  )

  recorded :
      (calls : DriftCalls) (stamp observed_utc : String) (event : DriftEvent)
      (files : Dict String String)
      → IsRecorded secret
          (event_file event.source stamp)
          (scrub quote quote_plus s (dumps (as_dict observed_utc event)))
          files
          (emit_drift dumps quote quote_plus calls stamp observed_utc (some s) event files)
  unfolding emit_drift
  recorded calls stamp observed_utc event files = elim (Bool-cases calls.mkdir_fails) [
    | inl e ↦ rw e (inl refl, (λ other h. refl), silent calls.has_ntfy event)
    | inr e ↦ rw e (
      append-IsAppended calls.appending (event_file event.source stamp) _ files,
      (λ other h. append-others calls.appending (event_file event.source stamp) _ other files h),
      silent calls.has_ntfy event,
    )
  ]

  -- Whatever the calls do, an event that is emitted with a scrubber adds to the file of its source and day
  -- nothing, or one line or a part of it; that line holds no registered secret (one that satisfies the
  -- conditions of the scrubber's theorem), nor does the alert, and no other file changes.
  pub emit_drift-scrubbed :
      (calls : DriftCalls) (stamp observed_utc : String) (event : DriftEvent)
      (files : Dict String String)
      → (line : String) × (contains_text secret line ≡ false)
        × IsRecorded secret
            (event_file event.source stamp)
            line
            files
            (emit_drift dumps quote quote_plus calls stamp observed_utc (some s) event files)
  emit_drift-scrubbed calls stamp observed_utc event files = (
    scrub quote quote_plus s (dumps (as_dict observed_utc event)),
    contains-scrub secret clean quote quote_plus s _ registered,
    recorded calls stamp observed_utc event files,
  )
