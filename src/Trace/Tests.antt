-- ===== src/Trace/Tests.antt =====
-- Runs of the traceparent header (internal/obs/trace.go).
use relaypoint.Common.{ℕ, zero, suc, ◌≡◌, refl, List, [], ◌∷◌, some, none, true}
use relaypoint.Trace.{TraceContext, parse_traceparent, traceparent, is_hex, is_zero_id}
use relaypoint.Trace.Header.{IsContext, parse_traceparent-traceparent}

abbrev of_size : ℕ → List ℕ
of_size zero = []
of_size (suc n) = 97 ∷ of_size n

abbrev sample : TraceContext
sample = record { trace_id = of_size 32; span_id = of_size 16; sampled = true }

sample-IsContext : IsContext sample
unfolding is_hex is_zero_id
sample-IsContext = record {
  trace_length = refl;
  span_length = refl;
  trace_hex = refl;
  span_hex = refl;
  trace_set = refl;
  span_set = refl;
}

parse_traceparent-traceparent_example : parse_traceparent (traceparent sample) ≡ some sample
parse_traceparent-traceparent_example = parse_traceparent-traceparent sample sample-IsContext

an_empty_header_is_refused : parse_traceparent [] ≡ none
unfolding parse_traceparent
an_empty_header_is_refused = refl
