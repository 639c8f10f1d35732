-- ===== src/Events/Tests.antt =====
-- Tests of the label guard and the normalizer.
use griefer_security_platfor.Prelude.{
  ◌+◌, ◌≤◌, ◌<◌, ◌≡◌, refl, ◌↔◌, none, [], ◌∷◌, if◌then◌else◌, ne_of_text_eq-false,
}
use griefer_security_platfor.Prelude.Dict.{lookup}
use griefer_security_platfor.Prelude.Text.{ascii}
use griefer_security_platfor.Prelude.Result.{ok, err}
use griefer_security_platfor.Events.Guard.{
  is_reserved_label_key, sanitize, lookup-sanitize, sanitize-quarantines,
}
use griefer_security_platfor.Events.Normalize.{
  timestamp_required, in_the_future, too_old, max_clock_skew_ahead, max_event_age, normalize,
  canonical, IsNormalized, normalize_window, normalize-IsNormalized,
}
use Prim.Native.Nat.{◌*◌}
use griefer_security_platfor.Prelude.{String, if◌then◌else◌}
use griefer_security_platfor.Prelude.Dict.{keys}
use griefer_security_platfor.Prelude.Occurrences.{occurrences}
use griefer_security_platfor.Events.Guard.{is_reserved_label_key}
use griefer_security_platfor.Samples.{day, sample_event}

lookup-sanitize_example :
    lookup "policy" (sanitize ascii sample_event).0.labels
    ≡ (if is_reserved_label_key ascii "policy" then none else lookup "policy" sample_event.labels)
lookup-sanitize_example = lookup-sanitize ascii sample_event "policy"

quarantined_keys : (sanitize ascii sample_event).1 ≡ "Griefer.mode" ∷ "policy" ∷ []
unfolding sanitize is_reserved_label_key
quarantined_keys = refl

sanitize-quarantines_example :
    ((k : String)
      → occurrences k (sanitize ascii sample_event).1
        ≡ (if is_reserved_label_key ascii k then occurrences k (keys sample_event.labels) else 0))
    × (sanitize ascii (sanitize ascii sample_event).0 ≡ ((sanitize ascii sample_event).0, []))
sanitize-quarantines_example = sanitize-quarantines ascii sample_event

normalize_window_example :
    ((normalize ascii (200 * day) "evt-9" sample_event ≡ err timestamp_required)
      ↔ (sample_event.timestamp ≡ 0))
    × ((normalize ascii (200 * day) "evt-9" sample_event ≡ err in_the_future) ↔ (
        (0 < sample_event.timestamp) × (200 * day + max_clock_skew_ahead < sample_event.timestamp)))
    × ((normalize ascii (200 * day) "evt-9" sample_event ≡ err too_old) ↔ (
        (0 < sample_event.timestamp)
        × (sample_event.timestamp ≤ 200 * day + max_clock_skew_ahead)
        × (sample_event.timestamp + max_event_age < 200 * day)))
normalize_window_example = normalize_window ascii (200 * day) "evt-9" sample_event

accepts_sample :
    normalize ascii (101 * day) "evt-9" sample_event
    ≡ ok (canonical ascii (101 * day) "evt-9" sample_event)
unfolding normalize
accepts_sample = refl

normalize-IsNormalized_example :
    IsNormalized ascii (101 * day) sample_event (canonical ascii (101 * day) "evt-9" sample_event)
normalize-IsNormalized_example =
    normalize-IsNormalized ascii (101 * day) "evt-9" sample_event
      (λ e. absurd (ne_of_text_eq-false "evt-9" "" refl e)) accepts_sample
