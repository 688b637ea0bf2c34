-- ===== src/Rest/Drift/Shared.antt =====
-- drivers/rest/drift.py: files that are read for two sources.
use Prim.Native.String.append
use r64_db_engine.Base.{
  String, ◌<>◌, ◌≡◌, refl, sym, true, string_eq, ==-refl, starts_with, starts_with-append,
  append_text_assoc, or_right,
}
use r64_db_engine.Rest.Texts.{ends_with}
use r64_db_engine.Rest.Drift.{event_file, is_event_file}

ends_with_self : (t : String) → ends_with t t ≡ true
unfolding ends_with
ends_with_self String.[] = ==-refl {A = String} ""
ends_with_self (String.◌∷◌ c t) = rw (==-refl {A = String} (String.◌∷◌ c t)) refl

ends_with-append : (s t : String) → ends_with (s <> t) t ≡ true
unfolding ends_with
ends_with-append String.[] t = rw (append.nil t) (ends_with_self t)
ends_with-append (String.◌∷◌ c s) t =
    rw (append.cons c s t, ends_with, ends_with-append s t) (or_right _ true refl)

-- The files of a source `a-b` are also read as the files of the source `a`.
is_event_file-shared :
    (a b stamp : String) → is_event_file a (event_file (a <> ("-" <> b)) stamp) ≡ true
is_event_file-shared a b stamp = rw (begins, ends) refl
  where
    begins : starts_with (event_file (a <> ("-" <> b)) stamp) (a <> "-") ≡ true
    begins =
        rw
          (
            append_text_assoc a ("-" <> b) ("-" <> (stamp <> ".jsonl")),
            append_text_assoc "-" b ("-" <> (stamp <> ".jsonl")),
            sym (append_text_assoc a "-" (b <> ("-" <> (stamp <> ".jsonl")))),
          )
          (starts_with-append (a <> "-") (b <> ("-" <> (stamp <> ".jsonl"))))

    ends : ends_with (event_file (a <> ("-" <> b)) stamp) ".jsonl" ≡ true
    ends =
        rw
          (
            sym (append_text_assoc "-" stamp ".jsonl"),
            sym (append_text_assoc (a <> ("-" <> b)) ("-" <> stamp) ".jsonl"),
          )
          (ends_with-append ((a <> ("-" <> b)) <> ("-" <> stamp)) ".jsonl")
