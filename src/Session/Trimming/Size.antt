-- ===== src/Session/Trimming/Size.antt =====
-- What trimming (internal/session/trimming.go) guarantees of an event's size, and what it keeps.
use kubernaut_apifrontend.Common.{
  leb→le, ℕ, ◌+◌, ◌*◌, ◌≤◌, ◌<◌, ◌^◌, ◌≡◌, refl, inl, inr, Option, none, some, List, [], ◌∷◌, arith,
  length, map, leb, Bool-cases, Option-cases, length-truncate-le, truncate,
}
use kubernaut_apifrontend.Common.All.{All}
use kubernaut_apifrontend.Session.Trimming.{
  Response, truncated, Part, Event, max_tool_result_bytes, trim_summary_prefix, trim_response,
  trim_part, trim_event_function_responses,
}

-- What the code relies on of json.Marshal: a text's length is an `int`; and in the map of a truncated
-- result, the keys, the flag and a number below 2 ^ 63 take at most a hundred bytes, and a byte of the
-- summary takes at most six when it is escaped.
pub record MarshalLaw {V : Type 0} (marshal : Response V → Option (List ℕ)) : Type 0 where
  pub bounded : (r : Response V) (raw : List ℕ) → marshal r ≡ some raw → length raw < 2 ^ 63
  pub small :
      (n : ℕ) (summary raw : List ℕ)
      → n < 2 ^ 63
      → marshal (truncated n summary) ≡ some raw
      → length raw ≤ 100 + 6 * length summary

module _ {V : Type 0} (marshal : Response V → Option (List ℕ)) where
  abbrev pub Short : Option (List ℕ) → Type 0
  Short none = Unit {0}
  Short (some raw) = length raw ≤ 4096

  -- A response that does not serialize, or to at most 4096 bytes.
  abbrev pub Fits : Option (Option (Response V)) → Type 0
  Fits (some (some r)) = Short (marshal r)
  Fits _ = Unit {0}

  abbrev pub PartFits : Option (Part V) → Type 0
  PartFits none = Unit {0}
  PartFits (some p) = Fits p.function_response

  abbrev pub ContentFits : Option (List (Option (Part V))) → Type 0
  ContentFits none = Unit {0}
  ContentFits (some parts) = All PartFits parts

  abbrev pub EventFits : Option (Event V) → Type 0
  EventFits none = Unit {0}
  EventFits (some ev) = ContentFits ev.content

  Short-truncated :
      MarshalLaw marshal
      → (r : Response V) (raw : List ℕ) → marshal r ≡ some raw
      → Short (marshal (truncated (length raw) (truncate trim_summary_prefix raw)))
  Short-truncated law r raw e = go _ refl
    where
      go :
          (o : Option (List ℕ))
          → marshal (truncated (length raw) (truncate trim_summary_prefix raw)) ≡ o
          → Short (marshal (truncated (length raw) (truncate trim_summary_prefix raw)))
      go none k = rw k tt
      go (some raw') k = rw k (
          omega (
            arith,
            law.small (length raw) (truncate trim_summary_prefix raw) raw' (law.bounded r raw e) k,
            length-truncate-le trim_summary_prefix raw,
          ))

  trim_response-Short :
      MarshalLaw marshal → (r : Response V) → Short (marshal (trim_response marshal r))
  unfolding trim_response
  trim_response-Short law r = elim (Option-cases (marshal r)) [
    | inl e ↦ rw (e, trim_response) (rw e tt)
    | inr (raw, e) ↦ elim (Bool-cases (leb (length raw) max_tool_result_bytes)) [
      | inl short ↦
          rw (e, trim_response) (rw short (rw e (leb→le (length raw) max_tool_result_bytes short)))
      | inr long ↦ rw (e, trim_response) (rw long (Short-truncated law r raw e))
    ]
  ]

  trim_part-PartFits : MarshalLaw marshal → (p : Option (Part V)) → PartFits (trim_part marshal p)
  unfolding trim_part
  trim_part-PartFits law none = tt
  trim_part-PartFits law (some p) = elim (Option-cases p.function_response) [
    | inl e ↦ rw (e, trim_part) (rw e tt)
    | inr (none, e) ↦ rw (e, trim_part) (rw e tt)
    | inr (some r, e) ↦ rw (e, trim_part) (trim_response-Short law r)
  ]

  trim_parts-PartFits :
      MarshalLaw marshal → (ps : List (Option (Part V))) → All PartFits (map (trim_part marshal) ps)
  trim_parts-PartFits law [] = tt
  trim_parts-PartFits law (p ∷ ps) = (trim_part-PartFits law p, trim_parts-PartFits law ps)

  -- After trimming, every function response of the event serializes to at most 4096 bytes, or not
  -- at all.
  pub trim_event-EventFits :
      MarshalLaw marshal
      → (ev : Option (Event V)) → EventFits (trim_event_function_responses marshal ev)
  unfolding trim_event_function_responses
  trim_event-EventFits law none = tt
  trim_event-EventFits law (some ev) = elim (Option-cases ev.content) [
    | inl e ↦ rw (e, trim_event_function_responses) (rw e tt)
    | inr (ps, e) ↦ rw (e, trim_event_function_responses) (trim_parts-PartFits law ps)
  ]

  trim_response_of_Short : (r : Response V) → Short (marshal r) → trim_response marshal r ≡ r
  unfolding trim_response
  trim_response_of_Short r fits = elim (Option-cases (marshal r)) [
    | inl e ↦ rw (e, trim_response)
    | inr (raw, e) ↦
        let short : length raw ≤ max_tool_result_bytes = rw e at fits in
        rw (e, trim_response) (ground arith)
  ]

  trim_part_of_PartFits : (p : Option (Part V)) → PartFits p → trim_part marshal p ≡ p
  unfolding trim_part
  trim_part_of_PartFits none fits = refl
  trim_part_of_PartFits (some p) fits = elim (Option-cases p.function_response) [
    | inl e ↦ ground arith
    | inr (none, e) ↦ ground arith
    | inr (some r, e) ↦ (let q = trim_response_of_Short r (rw e at fits) in ground arith)
  ]

  trim_parts_of_PartFits :
      (ps : List (Option (Part V))) → All PartFits ps → map (trim_part marshal) ps ≡ ps
  trim_parts_of_PartFits [] fits = refl
  trim_parts_of_PartFits (p ∷ ps) fits =
      rw (trim_part_of_PartFits p fits.0, trim_parts_of_PartFits ps fits.1)

  -- An event whose responses are small is not changed at all.
  pub trim_event_fixed :
      (ev : Option (Event V)) → EventFits ev → trim_event_function_responses marshal ev ≡ ev
  unfolding trim_event_function_responses
  trim_event_fixed none fits = refl
  trim_event_fixed (some ev) fits = elim (Option-cases ev.content) [
    | inl e ↦ ground arith
    | inr (ps, e) ↦ (let q = trim_parts_of_PartFits ps (rw e at fits) in ground arith)
  ]
