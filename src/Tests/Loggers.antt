-- ===== src/Tests/Loggers.antt =====
-- include/logger.h: the name of an account that is a conversion.
use mms_svr.Prelude.{◌≡◌, refl, [], ◌∷◌, ◌++◌, arith}
use mms_svr.Json.{codes}
use mms_svr.Logger.{takes_argument, log}
use mms_svr.Logger.Formats.{log_conversion}

log_conversion_example : log [] 77 (codes "account:" ++ (b'%' ∷ b'n' ∷ [])) ≡ takes_argument
log_conversion_example =
    log_conversion [] 77 (codes "account:") b'n' [] (ground arith) refl refl (omega arith)
