-- ===== src/Agent/Protocol/Laws.antt =====
-- What the protocol's checks let through.
use dms_bitwarden_cli.Common.{
  ℕ, ◌≤◌, ◌≡◌, refl, ap, ◌≢◌, Bool, true, false, Option, some, [], ◌∷◌, arith, ltb, length, Str,
  codes,
}
use dms_bitwarden_cli.Js.Numbers.{nat}
use dms_bitwarden_cli.Js.Values.{Value, number, object, prop, is_plain_object, strict_eq}
use dms_bitwarden_cli.Agent.Protocol.{
  count_bytes, utf8_byte_length, max_line_bytes, unit_bytes, parse_agent_event, event_text,
  check_parsed, check_message, ok, bad, control_version, is_event_type, is_ready, ready_complete,
  ErrorCode,
}

one_le-unit_bytes : (c : ℕ) → 1 ≤ unit_bytes c
unfolding unit_bytes
one_le-unit_bytes c = ground arith

-- A text has at least as many bytes as code units.
pub length-le-count_bytes : (s : Str) → length s ≤ count_bytes s
unfolding count_bytes
length-le-count_bytes [] = omega arith
length-le-count_bytes (c ∷ []) = ground (arith, one_le-unit_bytes c)
length-le-count_bytes (c ∷ d ∷ s) =
    ground (arith, one_le-unit_bytes c, length-le-count_bytes s, length-le-count_bytes (d ∷ s))

-- The early exit of the byte count changes no decision on the cap: a text is over it by the short
-- cut exactly when its full byte count is.
pub cap_exact :
    (s : Str) → ltb max_line_bytes (utf8_byte_length s) ≡ ltb max_line_bytes (count_bytes s)
unfolding utf8_byte_length
cap_exact s = ground (arith, length-le-count_bytes s)

check_message_ok :
    (v m : Value)
    → check_message v ≡ ok m
    → (v ≡ m)
      × (strict_eq (prop (codes "v") m) (number (nat control_version)) ≡ true)
      × (is_event_type (prop (codes "type") m) ≡ true)
      × (is_ready m ≡ true → ready_complete m ≡ true)
unfolding check_message
check_message_ok v m h = ground arith

-- What an accepted message is: an object of this protocol version and a known type, complete if it
-- is `ready`.
pub record IsMessage (m : Value) : Type 0 where
  pub plain : is_plain_object m ≡ true
  pub version : strict_eq (prop (codes "v") m) (number (nat control_version)) ≡ true
  pub known : is_event_type (prop (codes "type") m) ≡ true
  pub complete : is_ready m ≡ true → ready_complete m ≡ true

check_parsed_ok :
    (o : Option Value) (m : Value) → check_parsed o ≡ ok m → (o ≡ some m) × IsMessage m
unfolding check_parsed
check_parsed_ok (some (object fs)) m h =
    let (e, v, k, r) = check_message_ok (object fs) m h in
    (ap some e, record { plain = rw (← e) refl; version = v; known = k; complete = r })
check_parsed_ok _ m h = cc

check_parsed_fatal :
    (o : Option Value) (c : ErrorCode) (f : Bool) → check_parsed o ≡ bad c f → f ≡ true
unfolding check_parsed check_message
check_parsed_fatal (some (object fs)) c f h = ground arith
check_parsed_fatal _ c f h = cc

module _ (parse_json : Str → Option Value) (line : Value) where
  accepted :
      (m : Value)
      → parse_agent_event parse_json line ≡ ok m
      → (event_text line ≢ [])
        × (utf8_byte_length (event_text line) ≤ max_line_bytes)
        × (check_parsed (parse_json (event_text line)) ≡ ok m)
  unfolding parse_agent_event
  accepted m h = ground arith

  -- A line is accepted only if its text, without the line end, is not empty and at most 65536 bytes
  -- long, and parses to the message, an object of the right version and a known type, with all its
  -- paths if it is `ready`.
  pub parse_agent_event_accepts :
      (m : Value)
      → parse_agent_event parse_json line ≡ ok m
      → (event_text line ≢ [])
        × (count_bytes (event_text line) ≤ max_line_bytes)
        × (parse_json (event_text line) ≡ some m)
        × IsMessage m
  parse_agent_event_accepts m h =
      let (ne, cap, parsed) = accepted m h in
      let (e, is) = check_parsed_ok (parse_json (event_text line)) m parsed in
      (ne, ground (arith, cap_exact (event_text line)), e, is)

  -- A line that is refused without closing the gate is blank.
  pub parse_agent_event_spares :
      (c : ErrorCode) → parse_agent_event parse_json line ≡ bad c false → event_text line ≡ []
  unfolding parse_agent_event
  parse_agent_event_spares c h =
      ground (arith, check_parsed_fatal (parse_json (event_text line)) c false)
