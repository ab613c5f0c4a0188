-- ===== src/Database/Params.antt =====
-- DBParams (trademgen/DBParams.hpp): the parameters of the connection to a database.
use Prim.Native.String.{String, ◌++◌ as str_append}
use text.Mathlib.Text.{◌==◌ as str_eq}
use text.Mathlib.TextEquality.{eq_iff}
use trademgen.Prelude.{◌≡◌, ◌≢◌, Bool, true, false, not, ◌||◌, arith}

pub record DbParams : Type 0 where
  pub user : String
  pub passwd : String
  pub host : String
  pub port : String
  pub dbname : String

-- None of the parameters is empty.
unfoldable pub check_params : DbParams → Bool
check_params d = not (
    str_eq d.user ""
    || (str_eq d.passwd "" || (str_eq d.host "" || (str_eq d.port "" || str_eq d.dbname ""))))

-- `toString`, and `toShortString` likewise: the password is left out.
unfoldable pub params_text : DbParams → String
params_text d = str_append d.dbname (
    str_append "." (str_append d.user (str_append "@" (str_append d.host (str_append ":" d.port)))))

str_eq-empty : (s : String) → str_eq s "" ≡ false → s ≢ ""
str_eq-empty s h e = let t : str_eq s "" ≡ true = (eq_iff s "").1 e in cc

-- Checked parameters are not empty.
check_params-full :
    (d : DbParams)
    → check_params d ≡ true
    → (d.user ≢ "") × (d.passwd ≢ "") × (d.host ≢ "") × (d.port ≢ "") × (d.dbname ≢ "")
unfolding check_params
check_params-full d h = (
  str_eq-empty d.user (ground arith),
  str_eq-empty d.passwd (ground arith),
  str_eq-empty d.host (ground arith),
  str_eq-empty d.port (ground arith),
  str_eq-empty d.dbname (ground arith),
)
