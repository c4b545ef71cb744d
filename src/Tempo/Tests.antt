-- ===== src/Tempo/Tests.antt =====
-- Concrete runs of internal/adapters/tempo.
use atara_pay.Base.{◌≡◌, some, codes, ◌>>=◌}
use atara_pay.Limits.Amount.{scale_to_micros, to_int64}
use atara_pay.Tempo.Units.{parse_units}
use atara_pay.Tempo.Units.Agreement.{scale_to_micros-parse_units}

scale_to_micros-parse_units_example :
    scale_to_micros (codes "1.25") ≡ (parse_units (codes "1.25") 6 >>= λ n. to_int64 (some n))
scale_to_micros-parse_units_example = scale_to_micros-parse_units (codes "1.25")
