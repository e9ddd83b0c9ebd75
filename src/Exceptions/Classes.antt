-- ===== src/Exceptions/Classes.antt =====
-- include/common/s4exceptions.h: the classes of exceptions and their texts.
use s4_lib_lite.Prelude.{[], ◌∷◌, ◌++◌, Bytes, codes}

-- The classes below `Exception`.
pub data ErrorClass : Type 0 where
  field_convert_error config_error code_name_convert_error info_error timer_error : ErrorClass
  thread_data_if_error strategy_error order_error qt_data_if_error sqlite_db_error : ErrorClass
  money_pool_error eva_error cyc_error app_error lclx_ol_error otf_error snap_error : ErrorClass
  banrank_error py_trader_error stg_error type_error console_error network_error : ErrorClass

-- The first argument that each class gives to `Exception`.
unfoldable pub title : ErrorClass → Bytes
title field_convert_error = codes "Could not convert field"
title config_error = codes "Configure failed"
title code_name_convert_error = codes "CodeName ERROR:"
title info_error = codes "Info ERROR:"
title timer_error = codes "Timer ERROR:"
title thread_data_if_error = codes "Thread data IF ERROR:"
title strategy_error = codes "Strategy ERROR:"
title order_error = codes "Order ERROR:"
title qt_data_if_error = codes "QT dataIF ERROR:"
title sqlite_db_error = codes "Sqlite DB ERROR:"
title money_pool_error = codes "MoneyPool ERROR:"
title eva_error = codes "EVALUATE ERROR:"
title cyc_error = codes "CYC ERROR:"
title app_error = codes "s3app ERROR:"
title lclx_ol_error = codes "lclx-OL ERROR:"
title otf_error = codes "OTF ERROR:"
title snap_error = codes "SNAP ERROR:"
title banrank_error = codes "BanRank ERROR:"
title py_trader_error = codes "pyTrader ERROR:"
title stg_error = codes "stg ERROR:"
title type_error = codes "type ERROR:"
title console_error = codes "console ERROR:"
title network_error = codes "network ERROR:"

-- `Exception`: what it keeps, and the text for `what()`.
pub record Exception : Type 0 where
  pub kind : Bytes
  pub detail : Bytes
  pub text : Bytes

-- `d.size() ? t + ": " + d : t`
unfoldable pub text_of : Bytes → Bytes → Bytes
text_of t [] = t
text_of t (c ∷ d) = t ++ (codes ": " ++ c ∷ d)

unfoldable pub new_exception : Bytes → Bytes → Exception
unfolding text_of
new_exception t d = record { kind = t; detail = d; text = text_of t d }

-- The constructor of a class.
unfoldable pub raise : ErrorClass → Bytes → Exception
unfolding title new_exception
raise c what = new_exception (title c) what
