-- ===== src/Profiles/Supabase/Guarded.antt =====
-- profiles/supabase.py over drivers/postgres/driver.py: what a block that the profile has passed
-- makes of the driver's connections.
use r64_db_engine.Base.{
  String, ◌≡◌, refl, sym, ap, ◌∙◌, Bool, true, false, not, ◌&&◌, Option, none, some, List, ◌∷◌,
  ◌==◌, if◌then◌else◌, string_eq, nat_eq, contains, Bool-cases, inl, inr,
}
use r64_db_engine.Base.Results.{
  Result, ok, err, guard, >>=-eq-ok, >>-eq-ok, guard-eq-ok, ok-injective,
}
use r64_db_engine.Base.Decimal.{pos}
use r64_db_engine.Base.Json.{Json, Fields, get, set_field, truthy, get-set_field}
use r64_db_engine.Drivers.Postgres.{PgError, to_int}
use r64_db_engine.Drivers.Postgres.Connect.{
  or_else, get_or, Connection, need_database, connect, conninfo,
}
use r64_db_engine.Drivers.Postgres.Conninfo.{ArePlain, values, read_setting, read_setting-conninfo}
use r64_db_engine.Profiles.Supabase.{
  transaction_pooler, is_loopback, is_pooled, unencrypted, is_transaction_port, to_port,
  profile_host, transport, never_prepare, apply,
}

abbrev pub is_null : Json → Bool
is_null Json.null = true
is_null _ = false

-- The sslmodes under which a connection may be in plaintext.
abbrev pub plain_modes : List String
plain_modes = "disable" ∷ unencrypted

module _ (py_str : Json → String) (texts : (s : String) → py_str (Json.text s) ≡ s) where
  kept_mode :
      (o : Option Json)
      → contains unencrypted (py_str (or_else o (Json.text "prefer"))) ≡ false
      → py_str (get_or o (Json.text "prefer")) ≡ py_str (or_else o (Json.text "prefer"))
  unfolding string_eq
  kept_mode none h = refl
  kept_mode (some v) h = elim (Bool-cases (truthy v)) [
    | inl e ↦ rw e
    | inr e ↦ let bad = rw (e, texts "prefer") at h in cc
  ]

  transport_encrypts :
      (o out : Fields)
      → transport (py_str (or_else (get "sslmode" o) (Json.text "prefer"))) o ≡ ok out
      → contains plain_modes (py_str (get_or (get "sslmode" out) (Json.text "prefer"))) ≡ false
  unfolding transport string_eq
  transport_encrypts o out h =
      let mode = py_str (or_else (get "sslmode" o) (Json.text "prefer")) in
      elim (Bool-cases (mode == "disable")) [
        | inl e ↦ let bad = rw (e, transport) at h in cc
        | inr e ↦ elim (Bool-cases (contains unencrypted mode)) [
          | inl f ↦
              let same =
                ok-injective (set_field "sslmode" (Json.text "require") o) out (rw (e, f) at h) in
              let required = get-set_field "sslmode" "sslmode" (Json.text "require") o in
              rw (← same, required, texts "require")
          | inr f ↦
              let same = ok-injective o out (rw (e, f) at h) in
              rw (← same, kept_mode (get "sslmode" o) f, e, f)
        ]
      ]

  transport_keeps :
      (mode j : String) (o out : Fields)
      → (j == "sslmode") ≡ false
      → transport mode o ≡ ok out
      → get j out ≡ get j o
  unfolding transport
  transport_keeps mode j o out ne h = elim (Bool-cases (mode == "disable")) [
    | inl e ↦ let bad = rw (e, transport) at h in cc
    | inr e ↦ elim (Bool-cases (contains unencrypted mode)) [
      | inl f ↦
          let same =
            ok-injective (set_field "sslmode" (Json.text "require") o) out (rw (e, f) at h) in
          rw (← same) (get-set_field j "sslmode" (Json.text "require") o ∙ rw ne)
      | inr f ↦ rw (← ok-injective o out (rw (e, f) at h))
    ]
  ]

  never_prepare_keeps :
      (b : Bool) (j : String) (o : Fields)
      → (j == "prepare_threshold") ≡ false
      → get j (never_prepare b o) ≡ get j o
  unfolding never_prepare
  never_prepare_keeps true j o ne = get-set_field j "prepare_threshold" Json.null o ∙ rw ne
  never_prepare_keeps false j o ne = refl

  finish_keeps :
      (loopback : Bool) (mode j : String) (o out : Fields)
      → (j == "sslmode") ≡ false
      → (if loopback then ok o else transport mode o) ≡ ok out
      → get j out ≡ get j o
  finish_keeps true mode j o out ne h = rw (← ok-injective o out h)
  finish_keeps false mode j o out ne h = transport_keeps mode j o out ne h

  finish_encrypts :
      (loopback : Bool) (o out : Fields)
      → (if loopback
          then ok o
          else transport (py_str (or_else (get "sslmode" o) (Json.text "prefer"))) o)
        ≡ ok out
      → (not loopback
          && contains plain_modes (py_str (get_or (get "sslmode" out) (Json.text "prefer"))))
        ≡ false
  finish_encrypts true o out h = refl
  finish_encrypts false o out h = transport_encrypts o out h

  never_prepared :
      (b : Bool) (o : Fields)
      → (b
          && not
              (is_null (get_or (get "prepare_threshold" (never_prepare b o)) (Json.num (pos 5)))))
        ≡ false
  unfolding never_prepare string_eq
  never_prepared true o = rw (get-set_field "prepare_threshold" "prepare_threshold" Json.null o)
  never_prepared false o = refl

connected :
    (out : Fields) (c : Connection)
    → connect out ≡ ok c
    → (to_int (or_else (get "port" out) (Json.num (pos 5432))) ≡ ok c.port)
      × (c.sslmode ≡ get_or (get "sslmode" out) (Json.text "prefer"))
      × (c.prepare_threshold ≡ get_or (get "prepare_threshold" out) (Json.num (pos 5)))
unfolding connect
connected out c h =
    let (port, e1, h1) = >>=-eq-ok (to_int (or_else (get "port" out) (Json.num (pos 5432)))) _ h in
    let (database, e2, h2) = >>=-eq-ok (need_database (get "database" out)) _ h1 in
    let (timeout, e3, h3) =
      >>=-eq-ok (to_int (or_else (get "connect_timeout" out) (Json.num (pos 10)))) _ h2 in
    let (statement, e4, h4) =
      >>=-eq-ok (to_int (or_else (get "statement_timeout" out) (Json.num (pos 300)))) _ h3 in
    let same = sym (ok-injective _ c h4) in
    (
      e1 ∙ ap (λ (x : Connection). ok x.port) (sym same),
      ap (λ (x : Connection). x.sslmode) same,
      ap (λ (x : Connection). x.prepare_threshold) same,
    )

to_port-ok : (r : Result PgError Json) {port : Json} → to_port r ≡ ok port → r ≡ ok port
to_port-ok (ok p) h = cc
to_port-ok (err e) h = cc

eq_of_not : (b : Bool) → not b ≡ true → b ≡ false
eq_of_not true h = cc
eq_of_not false h = refl

module _ (py_str : Json → String) (texts : (s : String) → py_str (Json.text s) ≡ s)
    (address_loopback : String → Option Bool) where
  -- Suppose that the Supabase profile passes a block, that the Postgres driver connects with what it
  -- made of it, and that the values in the connection string are plain (not empty, without blanks,
  -- quotes and backslashes). Then the port is not the transaction pooler's; if the host is a pooler's,
  -- no statement is ever prepared; and libpq reads an sslmode in the connection string that is, if the
  -- host is not loopback, none of those under which the connection may be in plaintext.
  pub connect-apply :
      (config out : Fields) (c : Connection)
      → apply address_loopback py_str config ≡ ok out
      → connect out ≡ ok c
      → ArePlain py_str (values c)
      → let host = profile_host py_str config in
        (is_transaction_port c.port ≡ false)
        × ((is_pooled host && not (is_null c.prepare_threshold)) ≡ false)
        × ((mode : String) × (read_setting "sslmode" (conninfo py_str c) ≡ some mode)
            × ((not (is_loopback address_loopback host) && contains plain_modes mode) ≡ false))
  unfolding apply string_eq
  connect-apply config out c h k plain =
      let host = profile_host py_str config in
      let o = never_prepare (is_pooled host) config in
      let mode = py_str (or_else (get "sslmode" o) (Json.text "prefer")) in
      let (port, e1, h1) =
        >>=-eq-ok (to_port (to_int (or_else (get "port" config) (Json.num (pos 5432))))) _ h in
      let (g, done) = >>-eq-ok (guard (not (is_transaction_port port)) transaction_pooler) _ h1 in
      let (cport, cmode, cprep) = connected out c k in
      let loopback = is_loopback address_loopback host in
      let keeps = λ (j : String) (n : (j == "sslmode") ≡ false).
        finish_keeps py_str texts loopback mode j o out n done in
      let same_port =
        keeps "port" refl ∙ never_prepare_keeps py_str texts (is_pooled host) "port" config refl in
      let ports = ok-injective port c.port (
        sym (to_port-ok _ e1)
        ∙ ap (λ (x : Option Json). to_int (or_else x (Json.num (pos 5432)))) (sym same_port)
        ∙ cport) in
      (
        rw (← ports) (eq_of_not (is_transaction_port port) (guard-eq-ok _ transaction_pooler g)),
        rw (cprep, keeps "prepare_threshold" refl)
            (never_prepared py_str texts (is_pooled host) config),
        (
          py_str c.sslmode,
          read_setting-conninfo py_str c plain,
          rw cmode (finish_encrypts py_str texts loopback o out done),
        ),
      )
