-- ===== src/Tests/Scrubs.antt =====
-- The scrubber on a message that repeats a secret and an auth parameter.
use r64_db_engine.Base.{◌≡◌, refl, false, [], ◌∷◌, string_eq, nat_eq, contains_text, starts_with}
use r64_db_engine.Scrub.{
  Scrubber, register_secret, register_auth_key, replace, replace_form, redact_key, replace_secrets,
  redact_keys, scrub,
}
use r64_db_engine.Scrub.Redacted.{contains-scrub}

abbrev empty : Scrubber
empty = record { secrets = []; auth_keys = [] }

abbrev scrubber : Scrubber
scrubber = record { secrets = "hunter22" ∷ []; auth_keys = "key" ∷ [] }

registered :
    register_secret (register_auth_key (register_secret empty "short") "key") "hunter22" ≡ scrubber
unfolding register_secret register_auth_key string_eq
registered = refl

scrubbed :
    scrub (λ s. s) (λ s. s) scrubber "GET /a?key=abc&b=1 hunter22!"
    ≡ "GET /a?key=«redacted»&b=1 «redacted»!"
unfolding scrub replace_secrets replace_form replace redact_keys redact_key starts_with string_eq
    nat_eq
scrubbed = refl

contains-scrub_example :
    contains_text "hunter22" (scrub (λ s. s) (λ s. s) scrubber "GET /a?key=abc&b=1 hunter22!")
    ≡ false
unfolding string_eq nat_eq contains_text starts_with
contains-scrub_example =
    contains-scrub "hunter22" (record { nonempty = refl; unmarked = refl; apart = refl }) (λ s. s)
      (λ s. s) scrubber "GET /a?key=abc&b=1 hunter22!" refl
