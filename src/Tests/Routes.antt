-- ===== src/Tests/Routes.antt =====
-- The delays of src/coven/reconnect.rs on concrete values.
use gorp_rs.Base.{◌≡◌, some, arith}
use gorp_rs.Backoff.{default_config, new_backoff, record_failure, after_failures}
use gorp_rs.Backoff.Delays.{record_failure-after_failures}

-- 2 s, doubled three times.
delay_example :
    (record_failure (after_failures 3 (new_backoff default_config))).1 ≡ some 16000000000
delay_example =
    record_failure-after_failures 3 default_config (omega arith, omega arith, omega arith)
      (omega arith)
