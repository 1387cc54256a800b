-- ===== src/Metrics/Tests.antt =====
-- The theorem about QueryScalar at a concrete query.
use agentrax.Prelude.{pos, ◌≡◌, ◌↔◌}
use agentrax.Metrics.{PromResponse, query_scalar, value}
use agentrax.Metrics.Answers.{IsAnswered, Holds, query_scalar-Holds}
use agentrax.Samples.{sample_float}
use agentrax.Samples.Prometheus.{sample_codec, sample_client, sample_send}
use agentrax.Prelude.{String}

query_scalar-Holds_example :
    (query_scalar sample_float sample_codec sample_client sample_send "up" ≡ value (pos 100)) ↔ (
      (r : PromResponse String) × IsAnswered sample_float sample_codec sample_client sample_send
        "up" r
      × Holds sample_float sample_codec r (pos 100))
query_scalar-Holds_example =
    query_scalar-Holds sample_float sample_codec sample_client sample_send "up" (pos 100)
