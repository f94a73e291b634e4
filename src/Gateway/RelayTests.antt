-- ===== src/Gateway/RelayTests.antt =====
-- Tests of the adapter, the response filter and the handler, and instances of their theorems.
use forcefield.Base.{
  member, refl, if◌then◌else◌, ◌≡◌, arith, bytes_eq_refl, IsMap, bytes_eq, bytes, ◌<◌, ℕ, length,
  List, Bytes, contains, lookup, [], ◌∷◌, none, some, false, ok, ◌++◌,
}
use forcefield.Gateway.Handler.{Act, Trace, run, Lawful, exchange, fetch_secret}
use forcefield.Gateway.Serve.Flow.{serve_http}
use forcefield.Gateway.Serve.Order.{Permitted}
use forcefield.Gateway.Serve.Answered.{serve_http-answered}
use forcefield.Gateway.Serve.Reply.{Possible, count_answers, AllGeneric}
use forcefield.Gateway.Serve.Sequence.{serve_http-Lawful}
use forcefield.Gateway.Filter.Safety.{drain-contains}
use forcefield.Gateway.Filter.Content.{drain-content, content}
use forcefield.Gateway.Samples.{
  sample_request, sample_gateway, sample_header, sample_bodies, sample_adapter, sample_net,
  sample_http, sample_answer, sample_url,
}
use forcefield.Gateway.Adapter.{
  credential_value, new_header_adapter, rewrite_headers, HeaderAdapterConfig,
}
use forcefield.Gateway.Header.{values_at, Header}
use forcefield.Gateway.Filter.{secret_reflection, eof, new_secret_filtering_body, Chunk, drain}
use forcefield.Library.{IsHttp}
use forcefield.Tokens.Store.Samples.{sample_codec, sample_text}
use forcefield.Gateway.Adapter.Outbound.{rewrite_headers-outbound}

-- The secret lies across two reads; the second of these comes with the end.
abbrev leaking : List Chunk
leaking = (bytes "xxaba", none) ∷ (bytes "abacyy", some eof) ∷ []

abbrev harmless : List Chunk
harmless = (bytes "ab", none) ∷ ([], none) ∷ (bytes "aab", some eof) ∷ []

abbrev buffers : List ℕ
buffers = 2 ∷ 3 ∷ 1 ∷ 9 ∷ 4 ∷ 5 ∷ 6 ∷ []

drain-contains_example :
    contains ((drain buffers (new_secret_filtering_body leaking (bytes "abac"))).0) (bytes "abac")
    ≡ false
drain-contains_example = drain-contains leaking (bytes "abac") buffers (omega arith)

leaking_test :
    drain buffers (new_secret_filtering_body leaking (bytes "abac"))
    ≡ (bytes "xx", some secret_reflection)
unfolding drain new_secret_filtering_body
leaking_test = refl

harmless-content : contains ((content 0 harmless).0) (bytes "abac") ≡ false
unfolding contains content
harmless-content = refl

harmless-length : length ((content 0 harmless).0) < length buffers
unfolding content
harmless-length = omega arith

drain-content_example :
    drain buffers (new_secret_filtering_body harmless (bytes "abac"))
    ≡ ((content 0 harmless).0, some ((content 0 harmless).1))
drain-content_example =
    drain-content harmless (bytes "abac") buffers (omega arith) harmless-content
      (
        omega arith,
        (
          omega arith,
          (omega arith, (omega arith, (omega arith, (omega arith, (omega arith, tt))))),
        ),
      )
      harmless-length

sample_http-IsHttp : IsHttp sample_http
sample_http-IsHttp = record { idempotent = λ s. refl; fold_refl = bytes_eq_refl }

abbrev adapter_config : HeaderAdapterConfig
adapter_config = record {
  client_header = bytes "X-Token";
  client_prefix = [];
  upstream_header = bytes "Authorization";
  upstream_prefix = bytes "Bearer ";
  upstream_basic_username = [];
  forward_headers = bytes "Accept" ∷ [];
  static_headers = [];
}

adapter_built : new_header_adapter sample_text sample_http adapter_config ≡ ok sample_adapter
unfolding new_header_adapter
adapter_built = refl

abbrev sent_header : Header
sent_header =
    (bytes "Accept", bytes "*/*" ∷ []) ∷ (bytes "Authorization", bytes "Bearer s3cret" ∷ []) ∷ []

rewritten_test :
    rewrite_headers sample_http sample_adapter sample_header sample_header (bytes "s3cret")
    ≡ ok sent_header
unfolding rewrite_headers
rewritten_test = refl

sample_header-IsMap : IsMap sample_header
unfolding lookup bytes_eq
sample_header-IsMap = (refl, (refl, (refl, tt)))

rewrite_headers-outbound_example :
    ((k : Bytes)
      → values_at k sent_header ≡ (
          if bytes_eq (bytes "Authorization") k
          then credential_value sample_http sample_adapter (bytes "s3cret") ∷ []
          else (if member k (bytes "Accept" ∷ []) then values_at k sample_header else [])
            ++ values_at k []))
    × (bytes_eq (bytes "Authorization") (bytes "X-Token") ≡ false
        → values_at (bytes "X-Token") sent_header ≡ [])
rewrite_headers-outbound_example =
    rewrite_headers-outbound sample_text sample_http sample_http-IsHttp adapter_config
      sample_adapter sample_header sample_header sent_header (bytes "s3cret") adapter_built
      sample_header-IsMap (λ k vs e. refl) rewritten_test

serve_http-Lawful_example :
    Lawful
      (Permitted sample_url sample_text sample_http sample_net sample_codec sample_bodies
        sample_gateway sample_request)
      (run sample_answer
        (serve_http sample_url sample_text sample_http sample_net sample_codec sample_bodies
          sample_gateway sample_request)
        [])
serve_http-Lawful_example =
    serve_http-Lawful sample_url sample_text sample_http sample_net sample_codec sample_bodies
      sample_gateway sample_request sample_answer

-- Of what a run asks, what is guarded, the latest first.
guarded : Trace → List Bytes
guarded [] = []
guarded ((fetch_secret ref, r) ∷ t) = ref ∷ guarded t
guarded ((exchange o, r) ∷ t) = (o.target.path ++ (bytes "?" ++ o.target.raw_query)) ∷ guarded t
guarded ((a, r) ∷ t) = guarded t

-- The run fetches the secret and sends the request.
served_test :
    guarded (
      run sample_answer
        (serve_http sample_url sample_text sample_http sample_net sample_codec sample_bodies
          sample_gateway sample_request)
        [])
    ≡ bytes "/base/v1?" ∷ bytes "vault" ∷ []
unfolding guarded run serve_http
served_test = refl

sample_answer-Possible : (t : Trace) (a : Act) → Possible a (sample_answer t a)
sample_answer-Possible t Act.resolve_workload = tt
sample_answer-Possible t (Act.validate bearer req) = tt
sample_answer-Possible t (Act.charge_request scopes) = tt
sample_answer-Possible t (Act.charge_bytes scopes n) = tt
sample_answer-Possible t (Act.record_audit r) = tt
sample_answer-Possible t (Act.fetch_secret ref) = tt
sample_answer-Possible t (Act.exchange o) = λ e. refl
sample_answer-Possible t (Act.respond status) = tt
sample_answer-Possible t (Act.hand_over adapter) = tt
sample_answer-Possible t Act.abort = tt

serve_http-answered_example :
    let t =
      run sample_answer
        (serve_http sample_url sample_text sample_http sample_net sample_codec sample_bodies
          sample_gateway sample_request)
        [] in
    (count_answers t ≡ 1) × AllGeneric t
serve_http-answered_example =
    serve_http-answered sample_url sample_text sample_http sample_net sample_codec sample_bodies
      sample_gateway sample_request sample_answer sample_answer-Possible
