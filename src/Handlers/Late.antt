-- ===== src/Handlers/Late.antt =====
-- What the client of internal/handler sees of the trace.
use codewave_timer.Base.{
  ◌≡◌, refl, arith, Bytes, bytes_eq_refl, ◌⊎◌, inl, inr, ℤ, Option, none, some, Error, Result, ok,
  err, panic, spin,
}
use codewave_timer.Exec.{Exec}
use codewave_timer.Model.{Response, CreateTimerRequest}
use codewave_timer.Service.{TimerRequest, logic, traced, trace_id_of}
use codewave_timer.Handlers.{
  Header, Writer, ResponseWriter, Request, Handler, Httpx, x_trace_id, set_header,
  new_response_writer, trace_middleware, answer, parsed_or_not, create_timer_handler,
  enable_timer_handler, disable_timer_handler,
}

-- A response has gone out, without a trace in its header.
abbrev pub Untraced : Option (ℤ × Header) → Type 0
Untraced sent = (code : ℤ) × (h : Header) × (sent ≡ some (code, h)) × (h x_trace_id ≡ none)

-- A call that returns, with or without an error.
abbrev pub Returned : {A : Type 0} → Result A → Type 0
Returned (ok a) = Unit
Returned (err e) = Unit
Returned panic = ⊥
Returned spin = ⊥

Returned-cases :
    {A : Type 0} (r : Result A) → Returned r → ((a : A) × (r ≡ ok a)) ⊎ ((e : Error) × (r ≡ err e))
Returned-cases (ok a) h = inl (a, refl)
Returned-cases (err e) h = inr (e, refl)
Returned-cases panic h = elim h [ ]
Returned-cases spin h = elim h [ ]

-- The documented behaviour of httpx: an answer goes out with the header as it stands but for the
-- type of its content.
pub record IsHttpx (x : Httpx) : Type 0 where
  pub ok_sends :
      (resp : Response) (out : ResponseWriter)
      → out.writer.sent ≡ none
      → out.writer.header x_trace_id ≡ none
      → Untraced (x.ok_json resp out).writer.sent
  pub error_sends :
      (e : Error) (out : ResponseWriter)
      → out.writer.sent ≡ none
      → out.writer.header x_trace_id ≡ none
      → Untraced (x.error_ctx e out).writer.sent

-- Nothing has gone out, and the header has no trace.
abbrev pub IsFresh : Writer → Type 0
IsFresh w = (w.sent ≡ none) × (w.header x_trace_id ≡ none)

-- What the middleware has come to: the response that has gone out has no trace, and the header that
-- is left behind has.
abbrev pub SendsUntraced : Bytes → Result ResponseWriter → Type 0
SendsUntraced id r =
    (out : ResponseWriter) × (r ≡ ok out)
    × Untraced out.writer.sent
    × (out.writer.header x_trace_id ≡ some id)

answer-Untraced :
    (x : Httpx) (laws : IsHttpx x) (o : Response ⊎ Error) (out : ResponseWriter)
    → IsFresh out.writer
    → Untraced (answer x out o).writer.sent
unfolding answer
answer-Untraced x laws (inl resp) out h = laws.ok_sends resp out h.0 h.1
answer-Untraced x laws (inr e) out h = laws.error_sends e out h.0 h.1

traced-Returned :
    {W : Type 0} (id : Bytes) (m : Exec W Response) (v : W)
    → Returned (m v).0
    → Returned (traced id m v).0
unfolding traced
traced-Returned id m v h = elim (Returned-cases (m v).0 h) [
  | inl (resp, e) ↦ rw e tt
  | inr (f, e) ↦ rw e tt
]

module _ {W : Type 0} (x : Httpx) (laws : IsHttpx x) where
  module _ {Req : Type 0} (run : Req → Exec W Response)
      (returns : (req : Req) (v : W) → Returned (run req v).0) (out : ResponseWriter)
      (fresh : IsFresh out.writer) where
    parsed_or_not-Untraced :
        (p : Req ⊎ Error) (v : W)
        → (out' : ResponseWriter) × ((parsed_or_not x run out p v).0 ≡ ok out')
          × Untraced out'.writer.sent
    unfolding parsed_or_not
    parsed_or_not-Untraced (inr e) v =
        (x.error_ctx e out, refl, laws.error_sends e out fresh.0 fresh.1)
    parsed_or_not-Untraced (inl req) v = elim (Returned-cases (run req v).0 (returns req v)) [
      | inl (resp, e) ↦ (answer x out (inl resp), rw e, answer-Untraced x laws (inl resp) out fresh)
      | inr (f, e) ↦ (answer x out (inr f), rw e, answer-Untraced x laws (inr f) out fresh)
    ]

  middleware-SendsUntraced :
      (span_id : Bytes → Bytes) (next : Handler W) (r : Request) (w : Writer) (v : W)
      (out : ResponseWriter)
      → (next (record r { trace_id = some r.trace_header }) (new_response_writer w) v).0 ≡ ok out
      → Untraced out.writer.sent
      → SendsUntraced (span_id r.trace_header) (trace_middleware span_id next r w v).0
  unfolding trace_middleware set_header
  middleware-SendsUntraced span_id next r w v out h u = (
    record out { writer = set_header x_trace_id (span_id r.trace_header) out.writer },
    rw h,
    u,
    ground (arith, bytes_eq_refl x_trace_id),
  )

  -- Behind the middleware each of the three handlers whose logic returns, with or without an error,
  -- has sent its response, without a trace in its header, before the middleware writes the trace of
  -- its span into the header that is left behind: the client never gets it.
  pub trace_too_late :
      (span_id : Bytes → Bytes) (parse : Request → CreateTimerRequest ⊎ Error)
      (parse_id : Request → TimerRequest ⊎ Error) (new_trace : Bytes)
      (create : CreateTimerRequest → Exec W Response)
      (enable disable : TimerRequest → Exec W Response) (r : Request) (w : Writer) (v : W)
      → IsFresh w
      → ((req : CreateTimerRequest) (v : W) → Returned (create req v).0)
      → ((req : TimerRequest) (v : W) → Returned (enable req v).0)
      → ((req : TimerRequest) (v : W) → Returned (disable req v).0)
      → SendsUntraced
          (span_id r.trace_header)
          (trace_middleware span_id (create_timer_handler x parse new_trace create) r w v).0
        × SendsUntraced
            (span_id r.trace_header)
            (trace_middleware span_id (enable_timer_handler x parse_id enable) r w v).0
        × SendsUntraced
            (span_id r.trace_header)
            (trace_middleware span_id (disable_timer_handler x parse_id disable) r w v).0
  unfolding create_timer_handler enable_timer_handler disable_timer_handler logic
  trace_too_late span_id parse parse_id new_trace create enable disable r w v fresh hc he hd =
      let r' = record r { trace_id = some r.trace_header } in
      let out = new_response_writer w in
      let id = trace_id_of (some r.trace_header) in
      let (o1, e1, u1) =
        parsed_or_not-Untraced (λ req. traced new_trace (create req))
          (λ req v. traced-Returned new_trace (create req) v (hc req v)) out fresh (parse r') v in
      let (o2, e2, u2) =
        parsed_or_not-Untraced (λ req. traced id (enable req))
          (λ req v. traced-Returned id (enable req) v (he req v)) out fresh (parse_id r') v in
      let (o3, e3, u3) =
        parsed_or_not-Untraced (λ req. traced id (disable req))
          (λ req v. traced-Returned id (disable req) v (hd req v)) out fresh (parse_id r') v in
      (
        middleware-SendsUntraced span_id _ r w v o1 e1 u1,
        middleware-SendsUntraced span_id _ r w v o2 e2 u2,
        middleware-SendsUntraced span_id _ r w v o3 e3 u3,
      )
