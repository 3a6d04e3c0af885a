-- ===== src/Protocol/Parsing.antt =====
-- What the parser of messages returns.
use sentinelstream.Prelude.{
  ℕ, ◌≡◌, refl, sym, ap, subst, ◌↔◌, Option, none, some, List, String, Result, ok, err, arith,
}
use sentinelstream.Clock.{Time}
use sentinelstream.Protocol.Types.{TelemetryMessage}
use sentinelstream.Protocol.Validation.{ValidationError, validate_telemetry_message}
use sentinelstream.Protocol.Validation.Ranges.{
  IsWellFormed, validate_telemetry_message-IsWellFormed,
}
use sentinelstream.Protocol.Parser.{
  Codec, ParseError, malformed, invalid, accept_if, parse_telemetry_message,
}

accept_if-ok :
    (o : Option ValidationError) (a b : TelemetryMessage)
    → (accept_if o a ≡ ok b) ↔ ((o ≡ none) × (a ≡ b))
accept_if-ok none a b = ground arith
accept_if-ok (some e) a b = ground arith

accept_if-invalid :
    (o : Option ValidationError) (a : TelemetryMessage) (e : ValidationError)
    → (accept_if o a ≡ err (invalid e)) ↔ (o ≡ some e)
accept_if-invalid none a e = ground arith
accept_if-invalid (some x) a e = ground arith

-- The parser, from what the bytes decode to.
abbrev parsed : Time → Result String TelemetryMessage → Result ParseError TelemetryMessage
parsed now (ok m) = accept_if (validate_telemetry_message now m) m
parsed now (err x) = err (malformed "failed to parse JSON" x)

parse-parsed :
    (codec : Codec) (now : Time) (bytes : List ℕ)
    → parse_telemetry_message codec now bytes ≡ parsed now (codec.telemetry_message bytes)
unfolding parse_telemetry_message
parse-parsed codec now bytes = ground arith

parsed-ok :
    (now : Time) (r : Result String TelemetryMessage) (msg : TelemetryMessage)
    → (parsed now r ≡ ok msg) ↔ ((r ≡ ok msg) × IsWellFormed now msg)
parsed-ok now (err x) msg = ground arith
parsed-ok now (ok m) msg =
    let exact = accept_if-ok (validate_telemetry_message now m) m msg in
    let valid = validate_telemetry_message-IsWellFormed now m in
    (
      λ p. let (v, q) = exact.0 p in (ap ok q, subst (IsWellFormed now) q (valid.0 v)),
      λ p.
          let q : m ≡ msg = ground arith in
          exact.1 (valid.1 (subst (IsWellFormed now) (sym q) p.1), q),
    )

parsed-invalid :
    (now : Time) (r : Result String TelemetryMessage) (e : ValidationError)
    → (parsed now r ≡ err (invalid e))
      ↔ ((m : TelemetryMessage) × (r ≡ ok m) × (validate_telemetry_message now m ≡ some e))
parsed-invalid now (err x) e = (λ p. absurd (ground arith), λ p. absurd (ground arith))
parsed-invalid now (ok m) e =
    let exact = accept_if-invalid (validate_telemetry_message now m) m e in
    (
      λ p. (m, refl, exact.0 p),
      λ p. exact.1 (
          let q : p.0 ≡ m = ground arith in
          subst (λ x. validate_telemetry_message now x ≡ some e) q p.2),
    )

-- The parser returns a message exactly if the bytes decode to it and it is well formed, and a
-- `ValidationError` exactly if they decode to a message of which the validator returns it.
pub parse_telemetry_message_exact :
    (codec : Codec) (now : Time) (bytes : List ℕ) (msg : TelemetryMessage) (e : ValidationError)
    → ((parse_telemetry_message codec now bytes ≡ ok msg)
        ↔ ((codec.telemetry_message bytes ≡ ok msg) × IsWellFormed now msg))
      × ((parse_telemetry_message codec now bytes ≡ err (invalid e)) ↔ (
          (m : TelemetryMessage) × (codec.telemetry_message bytes ≡ ok m)
          × (validate_telemetry_message now m ≡ some e)))
parse_telemetry_message_exact codec now bytes msg e = rw (parse-parsed codec now bytes) (
  parsed-ok now (codec.telemetry_message bytes) msg,
  parsed-invalid now (codec.telemetry_message bytes) e,
)
