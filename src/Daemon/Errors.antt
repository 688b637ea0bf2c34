-- ===== src/Daemon/Errors.antt =====
-- core/daemon.py: `_is_permanent` and `_is_disconnection`.
use r64_db_engine.Base.{
  String, Bool, false, Option, none, some, List, [], ◌∷◌, contains, string_eq, is_empty,
  starts_with, if◌then◌else◌,
}
use r64_db_engine.Daemon.{DriverError}

-- `sqlstate or (diag.sqlstate if diag else None)`
abbrev pub sqlstate_code : DriverError → Option String
sqlstate_code e = elim e.sqlstate [
  | none ↦ e.diag_sqlstate
  | some s ↦ if is_empty s then e.diag_sqlstate else some s
]

abbrev pub permanent_codes : List String
permanent_codes = "28000" ∷ "28P01" ∷ "42501" ∷ "42P01" ∷ "42601" ∷ []

unfoldable pub is_permanent : DriverError → Bool
is_permanent e = elim (sqlstate_code e) [ none ↦ false | some c ↦ contains permanent_codes c ]

unfoldable pub is_disconnection : DriverError → Bool
is_disconnection e = elim (sqlstate_code e) [ none ↦ false | some c ↦ starts_with c "08" ]
