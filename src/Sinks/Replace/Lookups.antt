-- ===== src/Sinks/Replace/Lookups.antt =====
-- core/ramdb_writer.py and sinks/arrow_ipc.py: the names of the directory, and what its calls leave.
use Prim.Native.String.append
use r64_db_engine.Base.{
  String, ◌<>◌, ◌≡◌, ◌≢◌, ◌⊎◌, inl, inr, Bool, true, false, some, string_eq, nat_eq, arith,
  starts_with_code, contains_text, contains_text-append, append_text_assoc, Option-cases,
}
use r64_db_engine.Base.Dict
use r64_db_engine.Base.Dict.{Dict, lookup-insert, lookup-erase}
use r64_db_engine.Sinks.Replace.{temp_path, is_orphan, safe_unlink, rename}

pub String-cases : (a b : String) → (a ≡ b) ⊎ (a ≢ b)
String-cases a b = elim (string_eq.dec a b) [ yes p ↦ inl p | no n ↦ inr n ]

starts_with_dot : (s : String) → starts_with_code ("." <> s) b'.' ≡ true
unfolding nat_eq
starts_with_dot s = rw (append.cons "." "" s)

contains_text_dot :
    (needle a b : String) → contains_text needle ("." <> (a <> (needle <> b))) ≡ true
contains_text_dot needle a b =
    rw (← append_text_assoc "." a (needle <> b)) (contains_text-append ("." <> a) needle b)

pub temp_path-orphan : (ext target hex : String) → is_orphan ext (temp_path ext target hex) ≡ true
unfolding is_orphan temp_path
temp_path-orphan ext target hex = rw (
  starts_with_dot (target <> ((ext <> ".tmp.") <> hex)),
  contains_text_dot (ext <> ".tmp.") target hex,
)

pub ne_of_orphan : (ext a b : String) → is_orphan ext a ≡ true → is_orphan ext b ≡ false → b ≢ a
ne_of_orphan ext a b h k e = cc

module _ {Bytes : Type 0} (tmp : String) where
  pub lookup-unlink :
      (stuck : String → Bool) (name : String) (d : Dict String Bytes)
      → name ≢ tmp
      → Dict.lookup name (safe_unlink stuck tmp d) ≡ Dict.lookup name d
  unfolding safe_unlink
  lookup-unlink stuck name d ne = ground (arith, lookup-erase name tmp d)

  pub lookup-rename_other :
      (final name : String) (d : Dict String Bytes)
      → name ≢ tmp
      → name ≢ final
      → Dict.lookup name (rename tmp final d) ≡ Dict.lookup name d
  unfolding rename
  lookup-rename_other final name d ne1 ne2 = elim (Option-cases (Dict.lookup tmp d)) [
    | inl e ↦ rw (e, rename)
    | inr (b, e) ↦
        rw (e, rename)
          (ground (arith, lookup-insert name final b (Dict.erase tmp d), lookup-erase name tmp d))
  ]

  pub lookup-rename_final :
      (final : String) (content : Bytes) (d : Dict String Bytes)
      → Dict.lookup tmp d ≡ some content
      → Dict.lookup final (rename tmp final d) ≡ some content
  unfolding rename
  lookup-rename_final final content d h =
      rw (h, rename) (ground (arith, lookup-insert final final content (Dict.erase tmp d)))
