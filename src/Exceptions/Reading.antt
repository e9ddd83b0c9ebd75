-- ===== src/Exceptions/Reading.antt =====
-- The class and the detail of an exception can be read off its text.
use s4_lib_lite.Prelude.{◌≡◌, refl, [], ◌∷◌, Bytes, List, Option, none, some, ◌==◌, if◌then◌else◌}
use s4_lib_lite.Exceptions.Classes.{
  ErrorClass, title, raise, field_convert_error, config_error, code_name_convert_error, info_error,
  timer_error, thread_data_if_error, strategy_error, order_error, qt_data_if_error, sqlite_db_error,
  money_pool_error, eva_error, cyc_error, app_error, lclx_ol_error, otf_error, snap_error,
  banrank_error, py_trader_error, stg_error, type_error, console_error, network_error,
}

-- What follows the first text in the second.
abbrev strip : Bytes → Bytes → Option Bytes
strip [] s = some s
strip (c ∷ p) [] = none
strip (c ∷ p) (d ∷ s) = if c == d then strip p s else none

abbrev behind_colon : Bytes → Bytes
behind_colon (c ∷ d ∷ rest) = rest
behind_colon s = []

-- The first of the classes whose title the text begins with.
abbrev read_as : List ErrorClass → Bytes → Option (ErrorClass × Bytes)
unfolding title
read_as [] s = none
read_as (c ∷ cs) s = elim (strip (title c) s) [
  | some rest ↦ some (c, behind_colon rest)
  | none ↦ read_as cs s
]

abbrev every_class : List ErrorClass
every_class =
    field_convert_error ∷ config_error ∷ code_name_convert_error ∷ info_error ∷ timer_error
    ∷ thread_data_if_error ∷ strategy_error ∷ order_error ∷ qt_data_if_error ∷ sqlite_db_error
    ∷ money_pool_error ∷ eva_error ∷ cyc_error ∷ app_error ∷ lclx_ol_error ∷ otf_error ∷ snap_error
    ∷ banrank_error ∷ py_trader_error ∷ stg_error ∷ type_error ∷ console_error ∷ network_error ∷ []

-- Whoever reads the text of an exception of any class, with any detail, finds its class and its detail
-- in it, by the first class whose title the text begins with; and `type` and `detail` are that title
-- and that detail.
read_as-raise :
    (c : ErrorClass) (d : Bytes)
    → (read_as every_class (raise c d).text ≡ some (c, d))
      × ((raise c d).kind ≡ title c)
      × ((raise c d).detail ≡ d)
unfolding read_as raise
read_as-raise field_convert_error [] = (refl, refl, refl)
read_as-raise field_convert_error (x ∷ d) = (refl, refl, refl)
read_as-raise c [] = (refl, refl, refl)
read_as-raise c (x ∷ d) = (refl, refl, refl)
