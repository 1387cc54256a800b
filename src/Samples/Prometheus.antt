-- ===== src/Samples/Prometheus.antt =====
-- A Prometheus that counts a hundred of everything, and has no series for the latency.
use Prim.Native.Char.{code}
use agentrax.Prelude.{ℤ, pos, eqb, true, String, Option, none, some, List, [], ◌∷◌, if◌then◌else◌}
use agentrax.Metrics.{PromResponse, HttpResponse, Codec, Client}

abbrev query_of : List (String × String) → Option String
query_of [] = none
query_of ((k, v) ∷ parameters) = some v

-- The URL is the query, and a response is its own body.
abbrev pub sample_codec : Codec ℤ
sample_codec = record {
  Body = PromResponse String;
  Raw = String;
  decode_response = λ body. some body;
  decode_string = λ raw. some raw;
  decode_pair = λ raw. some (raw, raw);
  decode_value = λ raw. some raw;
  decode_values = λ raw. some (raw ∷ []);
  query_url = λ base parameters. query_of parameters;
  is_request = λ url. true;
  format_float = λ x. "";
  seconds = λ d. d;
}

abbrev pub sample_client : Client
sample_client = record { base_url = "http://prometheus:9090" }

-- The query of the latency begins with histogram_quantile.
abbrev pub series : String → List String
series String.[] = []
series (String.◌∷◌ c s) = if eqb (code c) b'h' then [] else "100" ∷ []

abbrev pub sample_send : String → Option (HttpResponse (PromResponse String))
sample_send query = some (record {
  status_code = pos 200;
  read =
      λ limit. some (record { status = "success"; result_type = "vector"; result = series query });
})
