-- ===== src/Config.antt =====
-- internal/config: the settings that a file and the command line give, as nested tables
-- (`map[string]any`), before they are decoded.
pub mod Merge
pub mod Paths
pub mod Settings
pub mod Keys
pub mod Load
pub mod Inherit
pub mod Loaded
pub mod CacheVolumes
pub mod Mounts
pub mod DiskGuard
pub mod Validate
pub mod Startup
pub mod Accepted
pub mod Collection
pub mod Examples
mod Runs
use mathlib.Core.Option
use mathlib.Core.Option.{none-ne-some}
use runscaler.Base.{◌≡◌, ap, String, str_eq, Bool, Option, none, some, List, [], ◌∷◌, if◌then◌else◌}
use runscaler.Base.Int.{ℤ}

-- A setting: `number` for an integer or a duration, `float` in units of the least positive float, `array`
-- for `[]any`, `tables` for `[]map[string]any`, `texts` for `[]string`, and `other` for the rest.
mutual
  pub data Value : Type 0 where
    nil : Value
    text : String → Value
    flag : Bool → Value
    number : ℤ → Value
    float : ℤ → Value
    array : Values → Value
    tables : Tables → Value
    texts : List String → Value
    table : Table → Value
    other : String → Value

  pub data Values : Type 0 where
    no_values : Values
    value : Value → Values → Values

  pub data Tables : Type 0 where
    no_tables : Tables
    entry : Table → Tables → Tables

  pub data Table : Type 0 where
    end : Table
    field : String → Value → Table → Table

-- `m[key]`, `m[key] = v` and `delete(m, key)`.
unfoldable pub get : String → Table → Option Value
get k end = none
get k (field j v t) = if str_eq j k then some v else get k t

unfoldable pub set : String → Value → Table → Table
set k v end = field k v end
set k v (field j w t) = if str_eq j k then field j v t else field j w (set k v t)

unfoldable pub remove : String → Table → Table
remove k end = end
remove k (field j v t) = if str_eq j k then t else field j v (remove k t)

unfoldable pub remove_all : List String → Table → Table
unfolding remove
remove_all [] t = t
remove_all (k ∷ ks) t = remove_all ks (remove k t)

-- `v.(map[string]any)`, and a missing key is not a table either.
unfoldable pub as_table : Option Value → Option Table
as_table (some (table t)) = some t
as_table _ = none

-- No key stands twice, here and in the tables within.
abbrev mutual
  pub IsKeyed : Value → Type 0
  IsKeyed (table t) = AllKeyed t
  IsKeyed _ = Unit

  pub AllKeyed : Table → Type 0
  AllKeyed end = Unit
  AllKeyed (field k v t) = (get k t ≡ none) × IsKeyed v × AllKeyed t
