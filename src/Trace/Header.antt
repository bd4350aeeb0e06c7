-- ===== src/Trace/Header.antt =====
-- The header that is written is read back (internal/obs/trace.go).
use relaypoint.Common.{
  ℕ, ◌≡◌, refl, sym, ap, ◌∙◌, List, [], ◌++◌, some, Bool, true, false, arith, if◌then◌else◌, length,
  length-append, slice, slice_append, append_assoc, append-nil,
}
use relaypoint.Trace.{
  TraceContext, same_bytes, is_hex, is_zero_id, hyphen, zero_zero, zero_one, parse_traceparent,
  traceparent,
}

-- Ids of 16 and 8 bytes in lower-case hexadecimal, neither of them zero.
pub record IsContext (tc : TraceContext) : Type 0 where
  pub trace_length : length tc.trace_id ≡ 32
  pub span_length : length tc.span_id ≡ 16
  pub trace_hex : is_hex tc.trace_id ≡ true
  pub span_hex : is_hex tc.span_id ≡ true
  pub trace_set : is_zero_id tc.trace_id ≡ false
  pub span_set : is_zero_id tc.span_id ≡ false

abbrev flags_of : Bool → List ℕ
flags_of b = if b then zero_one else zero_zero

module _ (tc : TraceContext) (h : IsContext tc) where
  abbrev raw : List ℕ
  raw = zero_zero ++ hyphen ++ tc.trace_id ++ hyphen ++ tc.span_id ++ hyphen ++ flags_of tc.sampled

  abbrev to_trace : List ℕ
  to_trace = zero_zero ++ hyphen ++ tc.trace_id

  abbrev to_span : List ℕ
  to_span = to_trace ++ hyphen ++ tc.span_id

  abbrev flags : List ℕ
  flags = flags_of tc.sampled

  length-flags_of : (b : Bool) → length (flags_of b) ≡ 2
  length-flags_of true = refl
  length-flags_of false = refl

  length-to_trace : length to_trace ≡ 35
  length-to_trace = omega (arith, h.trace_length)

  length-to_span : length to_span ≡ 52
  length-to_span = omega (
    arith,
    length-append (to_trace ++ hyphen) tc.span_id,
    length-append to_trace hyphen,
    length-to_trace,
    h.span_length,
  )

  length-raw : length raw ≡ 55
  length-raw = omega (
    arith,
    length-append (to_span ++ hyphen) flags,
    length-append to_span hyphen,
    length-to_span,
    length-flags_of tc.sampled,
  )

  behind_span : raw ≡ to_trace ++ hyphen ++ tc.span_id ++ (hyphen ++ flags)
  behind_span = append_assoc to_span hyphen flags

  behind_trace : raw ≡ to_trace ++ hyphen ++ (tc.span_id ++ (hyphen ++ flags))
  behind_trace = behind_span ∙ append_assoc (to_trace ++ hyphen) tc.span_id (hyphen ++ flags)

  at_trace :
      raw ≡ zero_zero ++ hyphen ++ tc.trace_id ++ (hyphen ++ (tc.span_id ++ (hyphen ++ flags)))
  at_trace = behind_trace ∙ append_assoc to_trace hyphen (tc.span_id ++ (hyphen ++ flags))

  slice_version : (slice 0 2 raw ≡ zero_zero) × (slice 2 1 raw ≡ hyphen)
  unfolding slice
  slice_version = (refl, refl)

  slice-trace : slice 3 32 raw ≡ tc.trace_id
  slice-trace =
      ap (slice 3 32) at_trace
      ∙ slice_append 3 32 (zero_zero ++ hyphen) tc.trace_id _ refl h.trace_length

  slice-hyphen : slice 35 1 raw ≡ hyphen
  slice-hyphen =
      ap (slice 35 1) behind_trace ∙ slice_append 35 1 to_trace hyphen _ length-to_trace refl

  slice-span : slice 36 16 raw ≡ tc.span_id
  slice-span =
      ap (slice 36 16) behind_span
      ∙ slice_append 36 16 (to_trace ++ hyphen) tc.span_id _
          (omega (arith, length-append to_trace hyphen, length-to_trace)) h.span_length

  slice_last : slice 52 1 raw ≡ hyphen
  slice_last = slice_append 52 1 to_span hyphen flags length-to_span refl

  slice-flags : slice 53 2 raw ≡ flags
  slice-flags =
      ap (slice 53 2) (sym (append-nil raw))
      ∙ slice_append 53 2 (to_span ++ hyphen) flags []
          (omega (arith, length-append to_span hyphen, length-to_span)) (length-flags_of tc.sampled)

  flag_facts : (b : Bool) → (is_hex (flags_of b) ≡ true) × (same_bytes (flags_of b) zero_one ≡ b)
  unfolding is_hex same_bytes
  flag_facts true = (refl, refl)
  flag_facts false = (refl, refl)

  -- A trace context whose ids are 16 and 8 bytes in lower-case hexadecimal, and not zero, is read back
  -- from the header that is written for it.
  pub parse_traceparent-traceparent : parse_traceparent (traceparent tc) ≡ some tc
  unfolding parse_traceparent traceparent
  parse_traceparent-traceparent =
      let (e, f) = flag_facts tc.sampled in
      rw
        (
          length-raw, slice_version.0, slice_version.1, slice-trace, slice-hyphen, slice-span,
          slice_last, slice-flags, h.trace_hex, h.span_hex, e, f, h.trace_set, h.span_set,
        )
        refl
