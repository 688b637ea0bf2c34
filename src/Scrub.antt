-- ===== src/Scrub.antt =====
-- core/scrub.py: the redaction of registered secrets and of the values of auth parameters. A set is a
-- list in the order in which Python iterates it; `quote` and `quote_plus` of urllib are parameters.
pub mod Cuts
pub mod Redacted
use Prim.Native.Char.{code}
use r64_db_engine.Base.{
  ℕ, zero, suc, ◌+◌, ◌-◌, ◌≤◌, String, ◌<>◌, Bool, true, false, ◌&&◌, ◌||◌, ◌==◌, List, [], ◌∷◌,
  if◌then◌else◌, nat_eq, string_eq, starts_with, is_empty, is_space, contains, leb,
}

pub record Scrubber : Type 0 where
  pub secrets : List String
  pub auth_keys : List String

-- `REDACTED`
abbrev pub redacted : String
redacted = "«redacted»"

abbrev pub min_scrubbable_length : ℕ
min_scrubbable_length = 8

-- `len(s)`
abbrev pub len : String → ℕ
len String.[] = 0
len (String.◌∷◌ c s) = suc (len s)

-- `set.add`
abbrev add : String → List String → List String
add value values = if contains values value then values else value ∷ values

unfoldable pub register_secret : Scrubber → String → Scrubber
register_secret s value =
    if leb min_scrubbable_length (len value) then record s { secrets = add value s.secrets } else s

unfoldable pub register_auth_key : Scrubber → String → Scrubber
register_auth_key s key = if is_empty key then s else record s { auth_keys = add key s.auth_keys }

-- `out.replace(form, REDACTED)` of a form that is not empty; the first argument counts the characters
-- of an occurrence that are still to be left out.
unfoldable pub replace : ℕ → String → String → String
replace skip form String.[] = ""
replace (suc skip) form (String.◌∷◌ c s) = replace skip form s
replace zero form (String.◌∷◌ c s) =
    let behind = replace (len form - 1) form s in
    let next = replace zero form s in
    if starts_with (String.◌∷◌ c s) form then redacted <> behind else String.◌∷◌ c next

-- `if form: out = out.replace(form, REDACTED)`
unfoldable pub replace_form : String → String → String
replace_form form out = if is_empty form then out else replace zero form out

-- What `[^&\s"')\]]` does not match.
abbrev pub ends_value : ℕ → Bool
ends_value c = (c == b'&' || c == b'"') || ((c == b'\'' || c == b')') || (c == b']' || is_space c))

-- Where `re.sub` is in the text: between matches, `n` characters before a value, or in a value.
pub data Place : Type 0 where
  between : Place
  before_value : ℕ → Place
  in_value : Place

-- `[?&]KEY=`
abbrev pub opens : String → ℕ → String → Bool
opens key c s = (c == b'?' || c == b'&') && starts_with s (key <> "=")

-- `re.sub(rf"([?&]{key}=)[^&\s\"'\)\]]*", rf"\1{REDACTED}", out)`
unfoldable pub redact_key : String → Place → String → String
redact_key key (before_value zero) String.[] = redacted <> ""
redact_key key _ String.[] = ""
redact_key key between (String.◌∷◌ c s) =
    let matched = redact_key key (before_value (len key + 1)) s in
    let copied = redact_key key between s in
    String.◌∷◌ c (if opens key (code c) s then matched else copied)
redact_key key (before_value (suc n)) (String.◌∷◌ c s) =
    String.◌∷◌ c (redact_key key (before_value n) s)
redact_key key (before_value zero) (String.◌∷◌ c s) =
    let matched = redact_key key (before_value (len key + 1)) s in
    let copied = redact_key key between s in
    let eaten = redact_key key in_value s in
    redacted
    <> (if ends_value (code c)
        then String.◌∷◌ c (if opens key (code c) s then matched else copied)
        else eaten)
redact_key key in_value (String.◌∷◌ c s) =
    let matched = redact_key key (before_value (len key + 1)) s in
    let copied = redact_key key between s in
    let eaten = redact_key key in_value s in
    if ends_value (code c)
    then String.◌∷◌ c (if opens key (code c) s then matched else copied)
    else eaten

module _ (quote quote_plus : String → String) where
  -- The three forms of a secret.
  unfoldable pub replace_secrets : List String → String → String
  replace_secrets [] out = out
  replace_secrets (secret ∷ secrets) out =
      replace_secrets secrets
        (replace_form (quote_plus secret) (replace_form (quote secret) (replace_form secret out)))

  unfoldable pub redact_keys : List String → String → String
  redact_keys [] out = out
  redact_keys (key ∷ keys) out = redact_keys keys (redact_key key between out)

  unfoldable pub scrub : Scrubber → String → String
  scrub s text = redact_keys s.auth_keys (replace_secrets s.secrets text)
