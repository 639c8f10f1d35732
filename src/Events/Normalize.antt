-- ===== src/Events/Normalize.antt =====
-- internal/events/normalize.go: the clock window, server-owned fields and canonical texts.
use griefer_security_platfor.Prelude.{
  ℕ, ◌+◌, ◌-◌, ◌≤◌, ◌<◌, String, ◌≡◌, refl, ◌≢◌, ◌↔◌, none, arith, ◌==◌, eq_iff, ltb, leb,
  if◌then◌else◌,
}
use griefer_security_platfor.Prelude.Dict.{lookup}
use mathlib.Core.Option.{map as map_option}
use griefer_security_platfor.Prelude.Result.{Result, ok, err}
use griefer_security_platfor.Prelude.Text.{Unicode, to_lower, to_upper, trim_space}
use griefer_security_platfor.Events.{
  Time, SecurityEvent, Actor, Target, Device, Network, schema_version,
}
use mathlib.Core.Path.{subst}
use griefer_security_platfor.Events.Guard.{
  sanitize, sanitize-frame, is_reserved_label_key, lookup-sanitize,
}

-- 5 minutes and 30 days, in nanoseconds
abbrev pub max_clock_skew_ahead : ℕ
max_clock_skew_ahead = 300_000_000_000

abbrev pub max_event_age : ℕ
max_event_age = 2_592_000_000_000_000

-- The three texts that wrap ErrTimestampOutOfRange.
pub data NormalizeError : Type 0 where
  timestamp_required in_the_future too_old : NormalizeError

-- What an accepted event has become.
pub record IsNormalized (u : Unicode) (now : Time) (ev ev' : SecurityEvent) : Type 0 where
  pub received : ev'.received_at ≡ now
  pub dated : ev'.timestamp ≡ ev.timestamp
  pub identified : ev'.id ≢ ""
  pub correlated : ev'.correlation_id ≢ ""
  pub readable :
      (k : String)
      → lookup k ev'.labels ≡ (if is_reserved_label_key u k then none else lookup k ev.labels)

module _ (u : Unicode) where
  normalize_actor : Actor → Actor
  unfolding trim_space to_lower
  normalize_actor a = record a {
    id = trim_space a.id;
    name = trim_space a.name;
    domain = to_lower u (trim_space a.domain);
    session_id = trim_space a.session_id;
  }

  normalize_target : Target → Target
  unfolding trim_space
  normalize_target t = record t {
    id = trim_space t.id;
    name = trim_space t.name;
    criticality = if t.criticality == "" then "medium" else t.criticality;
  }

  normalize_device : Device → Device
  unfolding trim_space to_lower
  normalize_device d = record d {
    hostname = to_lower u (trim_space d.hostname);
    id = trim_space d.id;
  }

  normalize_network : Network → Network
  unfolding trim_space to_upper
  normalize_network n = record n {
    source_ip = trim_space n.source_ip;
    destination_ip = trim_space n.destination_ip;
    country = to_upper u (trim_space n.country);
  }

  -- The assignments between the clock checks and the guard; `fresh` is what idgen.New returns.
  stamp : Time → String → SecurityEvent → SecurityEvent
  unfolding normalize_actor normalize_target normalize_device normalize_network
  stamp now fresh ev = record ev {
    received_at = now;
    id = if ev.id == "" then fresh else ev.id;
    schema_version = if ev.schema_version == "" then schema_version else ev.schema_version;
    source_name = trim_space ev.source_name;
    event_type = trim_space ev.event_type;
    correlation_id = trim_space ev.correlation_id;
    actor = map_option normalize_actor ev.actor;
    target = map_option normalize_target ev.target;
    device = map_option normalize_device ev.device;
    network = map_option normalize_network ev.network;
  }

  correlate_self : SecurityEvent → SecurityEvent
  correlate_self ev = record ev {
    correlation_id = if ev.correlation_id == "" then ev.id else ev.correlation_id;
  }

  unfoldable pub canonical : Time → String → SecurityEvent → SecurityEvent
  unfolding stamp correlate_self sanitize
  canonical now fresh ev = correlate_self (sanitize u (stamp now fresh ev)).0

  -- Normalizer.Normalize of an event that is not nil, at the clock's time `now`. The time zone of a
  -- time is not modelled, so `UTC()` is the identity.
  unfoldable pub normalize : Time → String → SecurityEvent → Result NormalizeError SecurityEvent
  normalize now fresh ev =
      if leb ev.timestamp 0
      then err timestamp_required
      else if ltb (now + max_clock_skew_ahead) ev.timestamp
      then err in_the_future
      else if ltb ev.timestamp (now - max_event_age)
      then err too_old
      else ok (canonical now fresh ev)

  module _ (now : Time) (fresh : String) (ev : SecurityEvent) where
    refused_unset : (normalize now fresh ev ≡ err timestamp_required) ↔ (ev.timestamp ≡ 0)
    unfolding normalize
    refused_unset = ground arith

    refused_ahead :
        (normalize now fresh ev ≡ err in_the_future)
        ↔ ((0 < ev.timestamp) × (now + max_clock_skew_ahead < ev.timestamp))
    unfolding normalize
    refused_ahead = ground arith

    refused_old : (normalize now fresh ev ≡ err too_old) ↔ (
        (0 < ev.timestamp)
        × (ev.timestamp ≤ now + max_clock_skew_ahead)
        × (ev.timestamp + max_event_age < now))
    unfolding normalize
    refused_old = ground arith

    -- An event is refused as undated exactly when its timestamp is zero, as too new exactly when it
    -- is dated more than five minutes ahead of the clock, and as too old exactly when it is dated
    -- more than thirty days behind it.
    pub normalize_window :
        ((normalize now fresh ev ≡ err timestamp_required) ↔ (ev.timestamp ≡ 0))
        × ((normalize now fresh ev ≡ err in_the_future)
            ↔ ((0 < ev.timestamp) × (now + max_clock_skew_ahead < ev.timestamp)))
        × ((normalize now fresh ev ≡ err too_old) ↔ (
            (0 < ev.timestamp)
            × (ev.timestamp ≤ now + max_clock_skew_ahead)
            × (ev.timestamp + max_event_age < now)))
    normalize_window = (refused_unset, refused_ahead, refused_old)

    canonical_labels :
        (k : String)
        → lookup k (canonical now fresh ev).labels
          ≡ (if is_reserved_label_key u k then none else lookup k ev.labels)
    canonical_labels k =
        let h = lookup-sanitize u (stamp now fresh ev) k in
        unfold canonical correlate_self stamp in h

    canonical-id : fresh ≢ "" → (canonical now fresh ev).id ≢ ""
    canonical-id h =
        unfold canonical correlate_self in
        rw (sanitize-frame u (stamp now fresh ev))
          (unfold stamp in ground (arith, eq_iff ev.id "", eq_iff fresh ""))

    canonical-correlation : fresh ≢ "" → (canonical now fresh ev).correlation_id ≢ ""
    canonical-correlation h =
        unfold canonical correlate_self in
        rw (sanitize-frame u (stamp now fresh ev)) (
          unfold stamp in
          ground
            (arith, eq_iff ev.id "", eq_iff fresh "", eq_iff (trim_space ev.correlation_id) ""))

    canonical-times :
        ((canonical now fresh ev).received_at ≡ now)
        × ((canonical now fresh ev).timestamp ≡ ev.timestamp)
    canonical-times =
        unfold canonical correlate_self in
        rw (sanitize-frame u (stamp now fresh ev)) (unfold stamp in (refl, refl))

    canonical-IsNormalized : fresh ≢ "" → IsNormalized u now ev (canonical now fresh ev)
    canonical-IsNormalized h = record {
      received = canonical-times.0;
      dated = canonical-times.1;
      identified = canonical-id h;
      correlated = canonical-correlation h;
      readable = canonical_labels;
    }

    accepted :
        {ev' : SecurityEvent} → normalize now fresh ev ≡ ok ev' → canonical now fresh ev ≡ ev'
    unfolding normalize
    accepted e = ground arith

    -- An event that is accepted carries the server's receipt time and its own timestamp, has an id
    -- and a correlation id where the generator's id is not empty, and of its labels exactly those
    -- that are not reserved.
    pub normalize-IsNormalized :
        {ev' : SecurityEvent}
        → fresh ≢ ""
        → normalize now fresh ev ≡ ok ev'
        → IsNormalized u now ev ev'
    normalize-IsNormalized h e =
        subst (IsNormalized u now ev) (accepted e) (canonical-IsNormalized h)
