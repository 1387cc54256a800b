-- ===== src/Metrics/Answers.antt =====
-- Which HTTP answers QueryScalar takes for a number.
use agentrax.Prelude.{
  if◌then◌else◌, pos, eqb_ℤ, eqb_ℤ_iff, String, ◌==◌, eq_iff, ◌≡◌, refl, ◌∙◌, ◌↔◌, ◌⊎◌, inl, inr,
  true, arith, Bool-cases, Option, none, some, List, [], ◌∷◌,
}
use Prim.Native.String.{◌++◌ as str_append}
use agentrax.Api.ErrorRate.{Float}
use agentrax.Metrics.{
  answer, Fallible, value, failed, PromError, or_fail, PromResponse, HttpResponse, Codec, Client,
  max_response_bytes, read_value, extract_value_from_pair, extract_value_from_vector_element,
  scalar_result, vector_result, by_type, parse_scalar_from_query_response, fetch, query_scalar,
  ◌>>=◌,
}

or_fail-value :
    {A B : Type 0} (e : PromError) (o : Option A) (f : A → Fallible B) (b : B)
    → (or_fail e o >>= f) ≡ value b
    → (a : A) × (o ≡ some a) × (f a ≡ value b)
unfolding or_fail ◌>>=◌
or_fail-value e none f b h = absurd (ground arith)
or_fail-value e (some a) f b h = (a, refl, h)

bind-value :
    {A B : Type 0} (m : Fallible A) (f : A → Fallible B) (b : B)
    → (m >>= f) ≡ value b
    → (a : A) × (m ≡ value a) × (f a ≡ value b)
unfolding ◌>>=◌
bind-value (value a) f b h = (a, refl, h)
bind-value (failed e) f b h = absurd (ground arith)

module _ (fl : Float) (codec : Codec fl.F) where
  open fl use {F, parse_float}
  open codec use {Body, Raw}

  -- The raw message is a text that reads as the number.
  pub record Reads (raw : Raw) (v : F) : Type 0 where
    pub text : String
    pub decoded : codec.decode_string raw ≡ some text
    pub parsed : parse_float text ≡ some v

  -- A pair of a timestamp and a number.
  abbrev pub IsScalar : List Raw → F → Type 0
  IsScalar result v = (t raw : Raw) × (result ≡ t ∷ raw ∷ []) × Reads raw v

  -- One series, whose value is a pair of a timestamp and a number.
  abbrev pub IsVector : List Raw → F → Type 0
  IsVector result v =
      (series pair : Raw) × (ends : Raw × Raw) × (result ≡ series ∷ [])
      × (codec.decode_value series ≡ some pair)
      × (codec.decode_pair pair ≡ some ends)
      × Reads ends.1 v

  pub record Holds (r : PromResponse Raw) (v : F) : Type 0 where
    pub success : r.status ≡ "success"
    pub one :
        ((r.result_type ≡ "scalar") × IsScalar r.result v)
        ⊎ ((r.result_type ≡ "vector") × IsVector r.result v)

  read_value_iff :
      (e : PromError) (raw : Raw) (v : F) → (read_value fl codec e raw ≡ value v) ↔ Reads raw v
  unfolding read_value or_fail ◌>>=◌
  read_value_iff e raw v = (
    (λ h.
        let (text, decoded, h1) = or_fail-value e (codec.decode_string raw) _ v h in
        record { text = text; decoded = decoded; parsed = parsed_of (parse_float text) h1 }),
    (λ g. rw (g.decoded, g.parsed) refl),
  )
    where
      parsed_of : (o : Option F) → or_fail PromError.bad_float o ≡ value v → o ≡ some v
      parsed_of none h = ground arith
      parsed_of (some w) h = ground arith

  scalar_result-value :
      (rs : List Raw) (v : F) → scalar_result fl codec rs ≡ value v → IsScalar rs v
  unfolding scalar_result
  scalar_result-value [] v h = absurd (ground arith)
  scalar_result-value (t ∷ []) v h = absurd (ground arith)
  scalar_result-value (t ∷ raw ∷ []) v h = (t, raw, refl, (read_value_iff _ raw v).0 h)
  scalar_result-value (t ∷ raw ∷ w ∷ rest) v h = absurd (ground arith)

  vector_result-value :
      (rs : List Raw) (v : F) → vector_result fl codec rs ≡ value v → IsVector rs v
  unfolding vector_result extract_value_from_vector_element extract_value_from_pair
  vector_result-value [] v h = absurd (ground arith)
  vector_result-value (series ∷ []) v h =
      let (pair, has_pair, h1) = or_fail-value _ (codec.decode_value series) _ v h in
      let (ends, has_ends, h2) = or_fail-value _ (codec.decode_pair pair) _ v h1 in
      (series, pair, ends, refl, has_pair, has_ends, (read_value_iff _ ends.1 v).0 h2)
  vector_result-value (series ∷ other ∷ rest) v h = absurd (ground arith)

  by_type-value : (r : PromResponse Raw) (v : F) → by_type fl codec r ≡ value v → Holds r v
  unfolding by_type
  by_type-value r v h = elim (Bool-cases (r.status == "success")) [
    | inr bad ↦ absurd (ground (arith, (rw bad at h)))
    | inl ok ↦ elim (Bool-cases (r.result_type == "scalar")) [
      | inl scalar ↦ record {
        success = (eq_iff _ _).0 ok;
        one = inl ((eq_iff _ _).0 scalar, scalar_result-value r.result v (rw (ok, scalar) at h));
      }
      | inr other ↦ elim (Bool-cases (r.result_type == "vector")) [
        | inl vector ↦ record {
          success = (eq_iff _ _).0 ok;
          one =
              inr (
                (eq_iff _ _).0 vector,
                vector_result-value r.result v (rw (ok, other, vector) at h),
              );
        }
        | inr unknown ↦ absurd (ground (arith, (rw (ok, other, unknown) at h)))
      ]
    ]
  ]

  by_type-Holds : (r : PromResponse Raw) (v : F) → Holds r v → by_type fl codec r ≡ value v
  unfolding by_type scalar_result vector_result extract_value_from_vector_element
      extract_value_from_pair or_fail ◌>>=◌
  by_type-Holds r v g = elim g.one [
    | inl (scalar, is) ↦
        let (t, raw, pair, reads) = is in
        rw (g.success, scalar, pair) ((read_value_iff _ raw v).1 reads)
    | inr (vector, is) ↦
        let (series, pair, ends, one, has_pair, has_ends, reads) = is in
        rw (g.success, vector, one, has_pair, has_ends) ((read_value_iff _ ends.1 v).1 reads)
  ]

  module _ (c : Client) (send : String → Option (HttpResponse Body)) (query : String) where
    -- The URL of the query is well formed, and it is answered with status 200 and a body that
    -- decodes to the response.
    pub record IsAnswered (r : PromResponse Raw) : Type 0 where
      pub url : String
      pub is_url :
          codec.query_url (str_append c.base_url "/api/v1/query") (("query", query) ∷ []) ≡ some url
      pub accepted : codec.is_request url ≡ true
      pub response : HttpResponse Body
      pub sent : send url ≡ some response
      pub body : Body
      pub is_read : response.read max_response_bytes ≡ some body
      pub is_ok : response.status_code ≡ pos 200
      pub decoded : codec.decode_response body ≡ some r

    query_scalar-value :
        (v : F)
        → query_scalar fl codec c send query ≡ value v
        → (r : PromResponse Raw) × IsAnswered r × Holds r v
    unfolding query_scalar fetch parse_scalar_from_query_response
    query_scalar-value v h =
        let (body, fetched, h1) = bind-value (fetch fl codec c send _ _) _ v h in
        let (r, decoded, h2) = or_fail-value _ (codec.decode_response body) _ v h1 in
        let (url, is_url, h3) = or_fail-value _ (codec.query_url _ _) _ body fetched in
        let (requested, is_requested, h4) =
          or_fail-value _ (if codec.is_request url then some url else none) _ body h3 in
        elim (Bool-cases (codec.is_request url)) [
          | inr refused ↦ absurd (ground (arith, (rw refused at is_requested)))
          | inl accepted ↦
              let same : some url ≡ some requested = rw accepted at is_requested in
              let (response, sent, h5) = or_fail-value _ (send requested) _ body h4 in
              let (taken, is_read, h6) =
                or_fail-value _ (response.read max_response_bytes) _ body h5 in
              elim (Bool-cases (eqb_ℤ response.status_code (pos 200))) [
                | inr other ↦ absurd (ground (arith, (rw other at h6)))
                | inl is_ok ↦ (
                  r,
                  record {
                    url = url;
                    is_url = is_url;
                    accepted = accepted;
                    response = response;
                    sent = ground (arith, sent, same);
                    body = body;
                    is_read = ground (arith, is_read, (rw is_ok at h6));
                    is_ok = (eqb_ℤ_iff _ _).0 is_ok;
                    decoded = decoded;
                  },
                  by_type-value r v h2,
                )
              ]
        ]

    query_scalar-by_type :
        (r : PromResponse Raw)
        → IsAnswered r
        → query_scalar fl codec c send query ≡ by_type fl codec r
    unfolding query_scalar fetch parse_scalar_from_query_response or_fail ◌>>=◌
    query_scalar-by_type r a = rw (a.is_url, a.accepted, a.sent, a.is_read, a.is_ok, a.decoded) refl

    -- QueryScalar answers a number exactly if its request is answered with status 200 and a body
    -- that decodes as a success, with either a scalar of a timestamp and that number, or a vector
    -- of one series whose value is such a pair.
    pub query_scalar-Holds :
        (v : F)
        → (query_scalar fl codec c send query ≡ value v)
          ↔ ((r : PromResponse Raw) × IsAnswered r × Holds r v)
    query_scalar-Holds v = (
      query_scalar-value v,
      (λ g.
          let (r, answered, holds) = g in
          query_scalar-by_type r answered ∙ by_type-Holds r v holds),
    )

    -- A vector with no series is an error, as a failed request is.
    pub query_scalar-no_series :
        IsAnswered (record { status = "success"; result_type = "vector"; result = [] })
        → answer (query_scalar fl codec c send query) ≡ none
    unfolding by_type vector_result answer
    query_scalar-no_series is = rw (query_scalar-by_type _ is) refl
