-- ===== src/Events/Guard.antt =====
-- internal/events/guard.go: labels that name a control-plane concept are quarantined.
use griefer_security_platfor.Prelude.{
  ◌∙◌, String, ◌≡◌, refl, sym, inl, inr, Bool, true, false, none, some, List, [], ◌∷◌, arith,
  eq_iff, if◌then◌else◌, text_lt, Bool-cases, All,
}
use griefer_security_platfor.Prelude.Dict.{contains, lookup, keys}
use griefer_security_platfor.Prelude.Occurrences.{occurrences, occurrences-sort_by}
use griefer_security_platfor.Prelude.Sort.{sort_by}
use griefer_security_platfor.Prelude.Text.{Unicode, to_lower, cut_prefix}
use griefer_security_platfor.Events.{SecurityEvent}

abbrev pub reserved_label_keys : List String
reserved_label_keys =
    "action" ∷ "actions" ∷ "approval" ∷ "approve" ∷ "autonomy" ∷ "cmd" ∷ "command" ∷ "exec"
    ∷ "execute" ∷ "instruction" ∷ "instructions" ∷ "mode" ∷ "override" ∷ "policy"
    ∷ "policy_decision" ∷ "policy_override" ∷ "prompt" ∷ "response_action" ∷ "role" ∷ "system"
    ∷ "tool" ∷ []

abbrev pub reserved_label_prefixes : List String
reserved_label_prefixes = "griefer." ∷ "griefer_" ∷ []

has_some_prefix : String → List String → Bool
unfolding cut_prefix
has_some_prefix s [] = false
has_some_prefix s (p ∷ ps) = elim (cut_prefix s p) [ none ↦ has_some_prefix s ps | some _ ↦ true ]

module _ (u : Unicode) where
  unfoldable pub is_reserved_label_key : String → Bool
  unfolding to_lower contains has_some_prefix
  is_reserved_label_key key =
      let lower = to_lower u key in
      if contains reserved_label_keys lower
      then true
      else has_some_prefix lower reserved_label_prefixes

  -- The loop over the labels: what stays, and the keys that were deleted.
  unfoldable pub kept_labels : List (String × String) → List (String × String)
  kept_labels [] = []
  kept_labels ((k, v) ∷ m) =
      let rest = kept_labels m in if is_reserved_label_key k then rest else (k, v) ∷ rest

  unfoldable pub reserved_keys : List (String × String) → List String
  reserved_keys [] = []
  reserved_keys ((k, v) ∷ m) =
      let rest = reserved_keys m in if is_reserved_label_key k then k ∷ rest else rest

  quarantine : SecurityEvent → List String → SecurityEvent × List String
  unfolding kept_labels sort_by
  quarantine ev [] = (ev, [])
  quarantine ev (k ∷ ks) =
      let sorted = sort_by text_lt (k ∷ ks) in
      (record ev { labels = kept_labels ev.labels; quarantined = sorted }, sorted)

  -- Sanitize: the event that is left, and the quarantined keys in sorted order.
  unfoldable pub sanitize : SecurityEvent → SecurityEvent × List String
  unfolding quarantine reserved_keys
  sanitize ev = quarantine ev (reserved_keys ev.labels)

  -- The loop deletes what is reserved and nothing else.
  pub lookup-kept_labels :
      (k : String) (m : List (String × String))
      → lookup k (kept_labels m) ≡ (if is_reserved_label_key k then none else lookup k m)
  unfolding kept_labels lookup
  lookup-kept_labels k [] = ground arith
  lookup-kept_labels k ((j, v) ∷ m) = ground (arith, eq_iff j k, lookup-kept_labels k m)

  kept_labels-none_reserved :
      (m : List (String × String)) → reserved_keys m ≡ [] → kept_labels m ≡ m
  unfolding kept_labels reserved_keys
  kept_labels-none_reserved [] h = refl
  kept_labels-none_reserved ((j, v) ∷ m) h = ground (arith, kept_labels-none_reserved m)

  kept_labels_idem : (m : List (String × String)) → reserved_keys (kept_labels m) ≡ []
  unfolding kept_labels reserved_keys
  kept_labels_idem [] = refl
  kept_labels_idem ((j, v) ∷ m) = ground (arith, kept_labels_idem m)

  quarantine-labels :
      (ev : SecurityEvent) (ks : List String)
      → reserved_keys ev.labels ≡ ks
      → (quarantine ev ks).0.labels ≡ kept_labels ev.labels
  quarantine-labels ev [] h = unfold quarantine in sym (kept_labels-none_reserved ev.labels h)
  quarantine-labels ev (k ∷ ks) h = unfold quarantine in refl

  pub sanitize-labels : (ev : SecurityEvent) → (sanitize ev).0.labels ≡ kept_labels ev.labels
  sanitize-labels ev = unfold sanitize in quarantine-labels ev (reserved_keys ev.labels) refl

  -- For every key, a sanitized event reads no label where the key is reserved, and what the event
  -- read before where it is not.
  pub lookup-sanitize :
      (ev : SecurityEvent) (k : String)
      → lookup k (sanitize ev).0.labels
        ≡ (if is_reserved_label_key k then none else lookup k ev.labels)
  lookup-sanitize ev k = rw sanitize-labels (lookup-kept_labels k ev.labels)

  quarantine-frame :
      (ev : SecurityEvent) (ks : List String)
      → (quarantine ev ks).0 ≡ record ev {
        labels = (quarantine ev ks).0.labels;
        quarantined = (quarantine ev ks).0.quarantined;
      }
  unfolding quarantine
  quarantine-frame ev [] = refl
  quarantine-frame ev (k ∷ ks) = refl

  -- Nothing but the labels and the quarantine changes.
  pub sanitize-frame :
      (ev : SecurityEvent)
      → (sanitize ev).0
        ≡ record ev { labels = (sanitize ev).0.labels; quarantined = (sanitize ev).0.quarantined }
  sanitize-frame ev = unfold sanitize in quarantine-frame ev (reserved_keys ev.labels)

  quarantine-occurrences :
      (c : String) (ev : SecurityEvent) (ks : List String)
      → occurrences c (quarantine ev ks).1 ≡ occurrences c ks
  quarantine-occurrences c ev [] = unfold quarantine in refl
  quarantine-occurrences c ev (k ∷ ks) = unfold quarantine in occurrences-sort_by text_lt c (k ∷ ks)

  sanitize-clean : (ev : SecurityEvent) → reserved_keys ev.labels ≡ [] → sanitize ev ≡ (ev, [])
  unfolding sanitize
  sanitize-clean ev h = rw h

  reserved_keys-All :
      (m : List (String × String)) → All (λ k. is_reserved_label_key k ≡ true) (reserved_keys m)
  unfolding reserved_keys
  reserved_keys-All [] = tt
  reserved_keys-All ((j, v) ∷ m) = elim (Bool-cases (is_reserved_label_key j)) [
    | inl e ↦ rw e (e, reserved_keys-All m)
    | inr e ↦ rw e (reserved_keys-All m)
  ]

  reserved_keys-occurrences :
      (k : String) (m : List (String × String))
      → occurrences k (reserved_keys m)
        ≡ (if is_reserved_label_key k then occurrences k (keys m) else 0)
  unfolding reserved_keys occurrences
  reserved_keys-occurrences k [] = ground arith
  reserved_keys-occurrences k ((j, v) ∷ m) =
      ground (arith, eq_iff j k, reserved_keys-occurrences k m)

  -- A reserved key is reported as often as it stands among the keys of the labels, and no other is
  -- reported. A second pass over the event finds nothing and changes nothing.
  pub sanitize-quarantines :
      (ev : SecurityEvent)
      → ((k : String)
          → occurrences k (sanitize ev).1
            ≡ (if is_reserved_label_key k then occurrences k (keys ev.labels) else 0))
        × (sanitize (sanitize ev).0 ≡ ((sanitize ev).0, []))
  sanitize-quarantines ev = (
    λ k.
        unfold sanitize in
        (quarantine-occurrences k ev (reserved_keys ev.labels)
          ∙ reserved_keys-occurrences k ev.labels),
    sanitize-clean (sanitize ev).0 (rw sanitize-labels (kept_labels_idem ev.labels)),
  )
