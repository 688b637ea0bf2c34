-- ===== src/Registry.antt =====
-- drivers/__init__.py: the registry of drivers. What importing a module yields is the parameter `Modules`; the
-- overlay of classes that were registered at run time is the state.
pub mod Resolved
use r64_db_engine.Base.{
  is_some, ℕ, String, Bool, true, false, ◌||◌, Option, none, some, List, [], ◌∷◌, ◌++◌, length,
  string_eq,
}
use r64_db_engine.Base.Results.{Result, ok, err, ◌>>=◌}
use r64_db_engine.Base.Dict.{Dict, keys, lookup, insert, erase}
use r64_db_engine.Config.Env.{sorted_set}

-- `_Entry`
pub record Entry : Type 0 where
  pub driver_module : String
  pub driver_class : String
  pub descriptor_module : String
  pub descriptor_attr : String

-- `_MANIFEST`
abbrev pub manifest : Dict String Entry
manifest =
    (
      "clickhouse",
      record {
        driver_module = "r64_db_engine.drivers.clickhouse.driver";
        driver_class = "ClickHouseDriver";
        descriptor_module = "r64_db_engine.drivers.clickhouse.descriptor";
        descriptor_attr = "CLICKHOUSE";
      },
    )
    ∷ (
      "postgres",
      record {
        driver_module = "r64_db_engine.drivers.postgres.driver";
        driver_class = "PostgresDriver";
        descriptor_module = "r64_db_engine.drivers.postgres.descriptor";
        descriptor_attr = "POSTGRES";
      },
    )
    ∷ (
      "rest",
      record {
        driver_module = "r64_db_engine.drivers.rest.driver";
        driver_class = "RestDriver";
        descriptor_module = "r64_db_engine.drivers.rest.descriptor";
        descriptor_attr = "REST";
      },
    )
    ∷ []

-- What the registry raises: `KeyError`, the `KeyError` of a shipped driver, the `ValueError` of an unknown dialect
-- with the available names; and what an import raises.
pub data RegistryError : Type 0 where
  key_error : String → RegistryError
  shipped : String → RegistryError
  unknown_dialect : String → List String → RegistryError
  import_error : String → RegistryError

-- `getattr(import_module(…), …)` of an entry, and `descriptor()` of a class.
pub record Modules : Type 1 where
  pub Driver : Type 0
  pub Metadata : Type 0
  pub driver_of : Entry → Result RegistryError Driver
  pub descriptor_of : Entry → Result RegistryError Metadata
  pub declared : Driver → Metadata

module _ (modules : Modules) where
  -- `_OVERLAY`
  abbrev pub Overlay : Type 0
  Overlay = Dict String modules.Driver

  abbrev imported : String → Option Entry → Result RegistryError modules.Driver
  imported dialect none = err (key_error dialect)
  imported dialect (some entry) = modules.driver_of entry

  abbrev overlaid : String → Option modules.Driver → Result RegistryError modules.Driver
  overlaid dialect (some driver) = ok driver
  overlaid dialect none = imported dialect (lookup dialect manifest)

  -- `__getitem__`
  abbrev pub get_item : Overlay → String → Result RegistryError modules.Driver
  get_item overlay dialect = overlaid dialect (lookup dialect overlay)

  -- `__setitem__`
  abbrev pub set_item : Overlay → String → modules.Driver → Overlay
  set_item overlay dialect driver = insert dialect driver overlay

  abbrev not_overlaid : String → Option Entry → RegistryError
  not_overlaid dialect (some entry) = shipped dialect
  not_overlaid dialect none = key_error dialect

  abbrev del_overlaid : Overlay → String → Option modules.Driver → Result RegistryError Overlay
  del_overlaid overlay dialect (some driver) = ok (erase dialect overlay)
  del_overlaid overlay dialect none = err (not_overlaid dialect (lookup dialect manifest))

  -- `__delitem__`
  abbrev pub del_item : Overlay → String → Result RegistryError Overlay
  del_item overlay dialect = del_overlaid overlay dialect (lookup dialect overlay)

  -- `__contains__`
  abbrev pub has_dialect : Overlay → String → Bool
  has_dialect overlay key = is_some (lookup key overlay) || is_some (lookup key manifest)

  -- `__iter__`
  unfoldable pub iter : Overlay → List String
  iter overlay = sorted_set (keys manifest ++ keys overlay)

  -- `__len__`
  abbrev pub len : Overlay → ℕ
  len overlay = length (sorted_set (keys manifest ++ keys overlay))

  -- `except KeyError`, which an import can raise too
  abbrev pub unless_known :
      Overlay → String → Result RegistryError modules.Driver → Result RegistryError modules.Driver
  unless_known overlay dialect (err (key_error key)) = err (unknown_dialect dialect (iter overlay))
  unless_known overlay dialect found = found

  unfoldable pub resolve : Overlay → String → Result RegistryError modules.Driver
  resolve overlay dialect = unless_known overlay dialect (get_item overlay dialect)

  abbrev manifest_descriptor :
      Overlay → String → Option Entry → Result RegistryError modules.Metadata
  manifest_descriptor overlay dialect none = err (unknown_dialect dialect (iter overlay))
  manifest_descriptor overlay dialect (some entry) = modules.descriptor_of entry

  abbrev overlay_descriptor :
      Overlay → String → Option modules.Driver → Result RegistryError modules.Metadata
  overlay_descriptor overlay dialect (some driver) = ok (modules.declared driver)
  overlay_descriptor overlay dialect none =
      manifest_descriptor overlay dialect (lookup dialect manifest)

  abbrev pub descriptor : Overlay → String → Result RegistryError modules.Metadata
  descriptor overlay dialect = overlay_descriptor overlay dialect (lookup dialect overlay)

  -- The dictionary of `descriptors`, over the dialects that are left.
  unfoldable pub descriptors_of :
      Overlay → List String → Result RegistryError (Dict String modules.Metadata)
  descriptors_of overlay [] = ok []
  descriptors_of overlay (dialect ∷ dialects) =
      let rest = descriptors_of overlay dialects in
      descriptor overlay dialect >>= λ one. rest >>= λ others. ok ((dialect, one) ∷ others)

  -- `descriptors`
  unfoldable pub descriptors : Overlay → Result RegistryError (Dict String modules.Metadata)
  descriptors overlay = descriptors_of overlay (iter overlay)
