-- ===== src/Daemon/Snapshot/Health.antt =====
-- core/health.py: the status code that `HealthServer._handle` answers a request with. A request is
-- its first line as `readline` gave it; reading the headers has no effect on the answer.
use Prim.Native.Char.{code}
use r64_db_engine.Base.{
  ℕ, ◌-◌, String, Bool, false, not, ◌&&◌, Option, none, some, leb, if◌then◌else◌, ◌==◌, nat_eq,
  string_eq, starts_with, is_empty,
}
use r64_db_engine.Base.Results
use r64_db_engine.Base.Results.{Result, err}
use r64_db_engine.Daemon.Snapshot.{Overall, ok, degraded, error, StatusSnapshot}

-- The text up to the first space, and what stands behind it.
cut_space : String → Option (String × String)
cut_space String.[] = none
cut_space (String.◌∷◌ c s) =
    let rest = cut_space s in
    if code c == b' '
    then some (String.[], s)
    else (elim rest [ none ↦ none | some (a, b) ↦ some (String.◌∷◌ c a, b) ])

-- `method, path, _ = line.split(" ", 2)`; `none` is the `ValueError`.
unfoldable pub split_request : String → Option (String × String)
unfolding cut_space
split_request line = elim (cut_space line) [
  | none ↦ none
  | some (method, rest) ↦ elim (cut_space rest) [
    | none ↦ none
    | some (path, _) ↦ some (method, path)
  ]
]

abbrev to_upper : ℕ → ℕ
to_upper c = if leb b'a' c && leb c b'z' then c - 32 else c

-- `method.upper() == "GET"`, on ASCII
abbrev pub is_get : String → Bool
is_get (String.◌∷◌ a (String.◌∷◌ b (String.◌∷◌ c String.[]))) =
    to_upper (code a) == b'G' && to_upper (code b) == b'E' && to_upper (code c) == b'T'
is_get _ = false

-- `200 if snap.get("status") in ("ok", "degraded") else 503`
abbrev pub health_code : Overall → ℕ
health_code ok = 200
health_code degraded = 200
health_code error = 503

-- The answer to a health check: an exception of the snapshot is answered by 500.
abbrev pub health_answer {ℓ} : {E : Type ℓ} → Result E StatusSnapshot → ℕ
health_answer (Results.ok snapshot) = health_code snapshot.status
health_answer (err e) = 500

answer {ℓ} : {E : Type ℓ} → Option (String × String) → Result E StatusSnapshot → ℕ
answer none snapshot = 400
answer (some (method, path)) snapshot =
    if not (is_get method)
    then 405
    else if starts_with path "/health"
    then health_answer snapshot
    else 404

-- `none`: the connection is closed with no answer.
unfoldable pub handle {ℓ} : {E : Type ℓ} → String → Result E StatusSnapshot → Option ℕ
unfolding answer
handle line snapshot = if is_empty line then none else some (answer (split_request line) snapshot)
