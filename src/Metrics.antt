-- ===== src/Metrics.antt =====
-- internal/metrics/prometheus.go: the queries of Prometheus and the reading of its answers. Json and
-- HTTP are parameters: `Codec` is what encoding/json and net/url do, and `Send` is what a GET of a
-- URL answers. A float64 is the library's (Api/ErrorRate.Float).
pub mod Answers
mod Tests
use Prim.Native.String.{◌++◌ as str_append}
use agentrax.Prelude.{
  ℕ, ◌+◌, ℤ, pos, eqb_ℤ, eqb, wrap64, String, ◌==◌, Bool, not, Option, none, some, List, [], ◌∷◌,
  length, trim_slashes, if◌then◌else◌,
}
use agentrax.Api.{Duration, Time}
use agentrax.Api.ErrorRate.{Float}

pub data PromError : Type 0 where
  parsing_url building_request querying_prometheus reading_response : PromError
  http_status : ℤ → PromError
  decoding_response : PromError
  query_status : String → PromError
  scalar_elements vector_elements : ℕ → PromError
  unsupported_type : String → PromError
  decoding_scalar decoding_vector_element decoding_pair decoding_value bad_float : PromError
  empty_range decoding_matrix no_values : PromError

pub data Fallible (A : Type 0) : Type 0 where
  value : A → Fallible A
  failed : PromError → Fallible A

unfoldable pub or_fail : {A : Type 0} → PromError → Option A → Fallible A
or_fail e none = failed e
or_fail e (some a) = value a

module _ {A B : Type 0} where
  infixl 10 ◌>>=◌
  unfoldable pub ◌>>=◌ : Fallible A → (A → Fallible B) → Fallible B
  value a >>= f = f a
  failed e >>= f = failed e

-- prometheusResponse
pub record PromResponse (Raw : Type 0) : Type 0 where
  pub status : String
  pub result_type : String
  pub result : List Raw

pub record HttpResponse (Body : Type 0) : Type 0 where
  pub status_code : ℤ
  -- the body, read up to a number of bytes
  pub read : ℕ → Option Body

-- Raw is json.RawMessage. A decoder is json.Unmarshal into the type that the client gives: none is
-- an error.
pub record Codec (F : Type 0) : Type 1 where
  pub Body : Type 0
  pub Raw : Type 0
  pub decode_response : Body → Option (PromResponse Raw)
  pub decode_string : Raw → Option String
  -- [2]json.RawMessage
  pub decode_pair : Raw → Option (Raw × Raw)
  -- the `value` of a vector's element and the `values` of a matrix's
  pub decode_value : Raw → Option Raw
  pub decode_values : Raw → Option (List Raw)
  -- url.Parse, and the URL with the query parameters that are set
  pub query_url : String → List (String × String) → Option String
  -- http.NewRequestWithContext
  pub is_request : String → Bool
  -- strconv.FormatFloat with 'f', 3 and 64, and Duration.Seconds
  pub format_float : F → String
  pub seconds : Duration → F

-- Client, without its HTTP client.
pub record Client : Type 0 where
  pub base_url : String

unfoldable pub new_client : String → Client
new_client base_url = record { base_url = trim_slashes base_url }

abbrev pub max_response_bytes : ℕ
max_response_bytes = 1048576

unfoldable pub last : {A : Type 0} → List A → Option A
last [] = none
last (x ∷ []) = some x
last (x ∷ y ∷ xs) = last (y ∷ xs)

module _ (fl : Float) (codec : Codec fl.F) where
  open fl use {F, of_int, div_f, parse_float}
  open codec use {Body, Raw}

  -- The text of a value, as a number.
  read_value : PromError → Raw → Fallible F
  read_value e raw = do
    text ← or_fail e (codec.decode_string raw)
    or_fail bad_float (parse_float text)

  unfoldable pub extract_value_from_pair : Raw → Fallible F
  unfolding read_value
  extract_value_from_pair raw = do
    pair ← or_fail decoding_pair (codec.decode_pair raw)
    read_value decoding_value pair.1

  unfoldable pub extract_value_from_vector_element : Raw → Fallible F
  extract_value_from_vector_element raw = do
    v ← or_fail decoding_vector_element (codec.decode_value raw)
    extract_value_from_pair v

  scalar_result : List Raw → Fallible F
  unfolding read_value
  scalar_result (t ∷ v ∷ []) = read_value decoding_scalar v
  scalar_result [] = failed (scalar_elements 0)
  scalar_result (t ∷ []) = failed (scalar_elements 1)
  scalar_result (t ∷ v ∷ w ∷ rest) = failed (scalar_elements (length rest + 3))

  vector_result : List Raw → Fallible F
  vector_result (r ∷ []) = extract_value_from_vector_element r
  vector_result [] = failed (vector_elements 0)
  vector_result (r ∷ s ∷ rest) = failed (vector_elements (length rest + 2))

  by_type : PromResponse Raw → Fallible F
  unfolding scalar_result vector_result
  by_type r =
      if not (r.status == "success")
      then failed (query_status r.status)
      else if r.result_type == "scalar"
      then scalar_result r.result
      else if r.result_type == "vector"
      then vector_result r.result
      else failed (unsupported_type r.result_type)

  unfoldable pub parse_scalar_from_query_response : Body → Fallible F
  unfolding by_type
  parse_scalar_from_query_response body = do
    r ← or_fail decoding_response (codec.decode_response body)
    by_type r

  first_series : List Raw → Fallible F
  first_series [] = failed empty_range
  first_series (r ∷ rest) = do
    values ← or_fail decoding_matrix (codec.decode_values r)
    newest ← or_fail no_values (last values)
    extract_value_from_pair newest

  unfoldable pub parse_last_value_from_range_response : Body → Fallible F
  unfolding first_series
  parse_last_value_from_range_response body = do
    r ← or_fail decoding_response (codec.decode_response body)
    if not (r.status == "success") then failed (query_status r.status) else first_series r.result

  unfoldable pub format_time : Time → String
  format_time t = codec.format_float (div_f (of_int (wrap64 t)) (of_int (pos 1000000000)))

  unfoldable pub format_duration : Duration → String
  format_duration d = str_append (codec.format_float (codec.seconds d)) "s"

  module _ (c : Client) (send : String → Option (HttpResponse Body)) where
    -- What both queries do before they read the answer.
    fetch : String → List (String × String) → Fallible Body
    fetch path parameters = do
      url ← or_fail parsing_url (codec.query_url (str_append c.base_url path) parameters)
      requested ← or_fail building_request (if codec.is_request url then some url else none)
      response ← or_fail querying_prometheus (send requested)
      body ← or_fail reading_response (response.read max_response_bytes)
      if not (eqb_ℤ response.status_code (pos 200))
          then failed (http_status response.status_code)
          else value body

    unfoldable pub query_scalar : String → Fallible F
    unfolding fetch
    query_scalar query = do
      body ← fetch "/api/v1/query" (("query", query) ∷ [])
      parse_scalar_from_query_response body

    unfoldable pub query_range : String → Time → Time → Duration → Fallible F
    unfolding fetch
    query_range query start end step = do
      body ← fetch "/api/v1/query_range" (
          ("query", query)
          ∷ ("start", format_time start)
          ∷ ("end", format_time end)
          ∷ ("step", format_duration step)
          ∷ [])
      parse_last_value_from_range_response body

-- What the rollout makes of an answer.
unfoldable pub answer : {A : Type 0} → Fallible A → Option A
answer (value a) = some a
answer (failed e) = none
