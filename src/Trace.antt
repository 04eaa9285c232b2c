-- ===== src/Trace.antt =====
-- The trace of a request and its spans: pkg/trace/trace.go. OpenTelemetry is a parameter.
use codewave_timer.Base.{
  ◌≡◌, ◌≢◌, refl, Bool, true, false, List, [], ◌∷◌, Bytes, bytes_eq, bytes_eq→eq, codes, Option,
  none, some, Bool-cases, inl, inr, if◌then◌else◌, ok,
}
use codewave_timer.Exec.{Exec, ◌>>=◌}

-- The texts of a context.Context under keys that are texts, newest first.
abbrev pub Values : Type 0
Values = List (Bytes × Bytes)

-- context.Background
abbrev pub background : Values
background = []

-- context.WithValue
abbrev pub with_value : Values → Bytes → Bytes → Values
with_value ctx key text = (key, text) ∷ ctx

-- ctx.Value
abbrev pub value : Values → Bytes → Option Bytes
value [] key = none
value ((k, text) ∷ ctx) key = if bytes_eq k key then some text else value ctx key

pub record Otel (W : Type 0) : Type 1 where
  pub Exporter : Type 0
  pub TracerProvider : Type 0
  pub Span : Type 0
  pub new_jaeger : Bytes → Exec W Exporter
  pub new_tracer_provider : Exporter → Bytes → W → TracerProvider × W
  pub set_tracer_provider : TracerProvider → W → W
  pub start : Bytes → Values → Bytes → W → (Values × Span) × W  -- otel.Tracer(name).Start

abbrev pub trace_id_key : Bytes
trace_id_key = codes "trace-id"

abbrev service_name : Bytes
service_name = codes "codewave-timer"

module _ {W : Type 0} (otel : Otel W) where
  open otel use {Exporter, TracerProvider, Span}

  provide : Exporter → Exec W TracerProvider
  provide exp w =
      let (tp, w') = otel.new_tracer_provider exp service_name w in
      (ok tp, otel.set_tracer_provider tp w')

  -- InitTracerProvider
  unfoldable pub init_tracer_provider : Bytes → Exec W TracerProvider
  unfolding provide
  init_tracer_provider url = otel.new_jaeger url >>= provide

  -- NewSpan
  unfoldable pub new_span : Values → Bytes → Bytes → W → (Values × Span) × W
  new_span ctx tracer_name span_name = otel.start tracer_name ctx span_name

-- WithTraceID
unfoldable pub with_trace_id : Values → Bytes → Values
with_trace_id ctx trace_id = with_value ctx trace_id_key trace_id

-- TraceIDFromContext
unfoldable pub trace_id_from_context : Values → Bytes × Bool
trace_id_from_context ctx = elim (value ctx trace_id_key) [
  | none ↦ ([], false)
  | some trace_id ↦ (trace_id, true)
]

-- The trace that WithTraceID puts into a context is the one that TraceIDFromContext reads, whatever
-- stood there before, and what stands under other keys is read as before.
pub trace_id_from_context-with_trace_id :
    (ctx : Values) (trace_id : Bytes)
    → (trace_id_from_context (with_trace_id ctx trace_id) ≡ (trace_id, true))
      × ((key : Bytes)
          → trace_id_key ≢ key
          → value (with_trace_id ctx trace_id) key ≡ value ctx key)
unfolding trace_id_from_context with_trace_id
trace_id_from_context-with_trace_id ctx trace_id = (
  refl,
  λ key other. elim (Bool-cases (bytes_eq trace_id_key key)) [
    | inl same ↦ absurd (other (bytes_eq→eq trace_id_key key same))
    | inr no_match ↦ rw no_match refl
  ],
)
