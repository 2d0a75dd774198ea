-- ===== src/CsvParse/Types.antt =====
-- `ALLOWED_TYPES`, `_PG_TYPE_MAP` and `pg_type_to_allowed_type`.
use postgre_data_migration_a.Prelude.{
  Option, none, some, List, [], ◌∷◌, Text, codes, same, if◌then◌else◌,
}
use postgre_data_migration_a.Python.{Runtime, strip}

pub data ColType : Type 0 where
  int8 numeric date timestamptz boolean text : ColType

abbrev pub allowed_types : List (Text × ColType)
allowed_types =
    (codes "int8", int8)
    ∷ (codes "numeric", numeric)
    ∷ (codes "date", date)
    ∷ (codes "timestamptz", timestamptz)
    ∷ (codes "boolean", boolean)
    ∷ (codes "text", text)
    ∷ []

abbrev pub pg_type_map : List (Text × ColType)
pg_type_map =
    (codes "bigint", int8)
    ∷ (codes "integer", int8)
    ∷ (codes "smallint", int8)
    ∷ (codes "int8", int8)
    ∷ (codes "int4", int8)
    ∷ (codes "int2", int8)
    ∷ (codes "numeric", numeric)
    ∷ (codes "decimal", numeric)
    ∷ (codes "real", numeric)
    ∷ (codes "double precision", numeric)
    ∷ (codes "float4", numeric)
    ∷ (codes "float8", numeric)
    ∷ (codes "date", date)
    ∷ (codes "timestamp with time zone", timestamptz)
    ∷ (codes "timestamp without time zone", timestamptz)
    ∷ (codes "timestamptz", timestamptz)
    ∷ (codes "timestamp", timestamptz)
    ∷ (codes "boolean", boolean)
    ∷ (codes "bool", boolean)
    ∷ (codes "text", text)
    ∷ (codes "character varying", text)
    ∷ (codes "varchar", text)
    ∷ (codes "character", text)
    ∷ (codes "char", text)
    ∷ (codes "citext", text)
    ∷ []

unfoldable pub find_type : Text → List (Text × ColType) → Option ColType
find_type t [] = none
find_type t ((name, c) ∷ l) = if same t name then some c else find_type t l

-- The type that a text of a request names, if it is in `ALLOWED_TYPES`.
unfoldable pub allowed_type : Text → Option ColType
unfolding find_type
allowed_type t = find_type t allowed_types

unfoldable pub pg_type_to_allowed_type : Runtime → Text → Option ColType
unfolding find_type
pg_type_to_allowed_type rt t = find_type (rt.lower (strip t)) pg_type_map
