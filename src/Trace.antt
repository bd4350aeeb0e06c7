-- ===== src/Trace.antt =====
-- internal/obs/trace.go: the traceparent header. A text is its bytes.
pub mod Header
mod Tests
use relaypoint.Common.{
  ℕ, List, [], ◌∷◌, ◌++◌, Option, none, some, Bool, true, false, not, ◌&&◌, ◌||◌, eqb, ltb,
  if◌then◌else◌, length, slice,
}

pub record TraceContext : Type 0 where
  pub trace_id : List ℕ
  pub span_id : List ℕ
  pub sampled : Bool

-- `==` on texts.
unfoldable pub same_bytes : List ℕ → List ℕ → Bool
same_bytes [] [] = true
same_bytes [] (b ∷ bs) = false
same_bytes (a ∷ cs) [] = false
same_bytes (a ∷ cs) (b ∷ bs) = let rest = same_bytes cs bs in eqb a b && rest

unfoldable pub is_hex : List ℕ → Bool
is_hex [] = true
is_hex (c ∷ cs) =
    let rest = is_hex cs in
    if (ltb c 48 || ltb 57 c) && (ltb c 97 || ltb 102 c) then false else rest

-- Whether each byte is a "0": `zeroTraceID` and `zeroSpanID` are such texts of 32 and 16 bytes.
unfoldable pub is_zero_id : List ℕ → Bool
is_zero_id [] = true
is_zero_id (c ∷ cs) = let rest = is_zero_id cs in eqb c 48 && rest

-- "-", "00" and "01".
abbrev pub hyphen : List ℕ
hyphen = 45 ∷ []

abbrev pub zero_zero : List ℕ
zero_zero = 48 ∷ 48 ∷ []

abbrev pub zero_one : List ℕ
zero_one = 48 ∷ 49 ∷ []

unfoldable pub parse_traceparent : List ℕ → Option TraceContext
unfolding slice same_bytes is_hex is_zero_id
parse_traceparent raw =
    let version = slice 0 2 raw in
    let trace_id = slice 3 32 raw in
    let span_id = slice 36 16 raw in
    let flags = slice 53 2 raw in
    if eqb (length raw) 0 || ltb 55 (length raw)
    then none
    else if not (eqb (length raw) 55)
        || not (same_bytes (slice 2 1 raw) hyphen)
        || not (same_bytes (slice 35 1 raw) hyphen)
        || not (same_bytes (slice 52 1 raw) hyphen)
    then none
    else if not (same_bytes version zero_zero)
        || not (is_hex version)
        || not (is_hex trace_id)
        || not (is_hex span_id)
        || not (is_hex flags)
    then none
    else if is_zero_id trace_id || is_zero_id span_id
    then none
    else some
        (record { trace_id = trace_id; span_id = span_id; sampled = same_bytes flags zero_one })

unfoldable pub traceparent : TraceContext → List ℕ
traceparent tc =
    zero_zero
    ++ hyphen
    ++ tc.trace_id
    ++ hyphen
    ++ tc.span_id
    ++ hyphen
    ++ (if tc.sampled then zero_one else zero_zero)
