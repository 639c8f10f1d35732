-- ===== src/Storage.antt =====
-- internal/storage/store.go and memory.go: the store that keeps everything in memory.
-- A method runs under the store's lock, so it is one step from a state to a state. A write returns
-- the store that it leaves behind beside its error. Values are immutable here, so the copies that
-- keep a caller from changing what is stored are the identity. SaveEvent copies an event but not what
-- it points to; its caller Ingest does not change an event that it has saved.
pub mod Step
pub mod Events
pub mod Index
pub mod Trail
pub mod Pages
pub mod Valid
mod Tests
use griefer_security_platfor.Prelude.{
  ℕ, ◌+◌, ◌-◌, String, Bool, true, false, not, ◌&&◌, ◌||◌, Option, none, some, List, [], ◌∷◌, ◌++◌,
  map, ◌==◌, ltb, leb, if◌then◌else◌, text_lt, length, take, drop,
}
use griefer_security_platfor.Prelude.Dict.{contains, lookup, insert}
use griefer_security_platfor.Prelude.Int.{ℤ, pos, negsuc, floor_zero}
use griefer_security_platfor.Prelude.Result.{Result, ok, err}
use griefer_security_platfor.Prelude.Sort.{sort_by}
use griefer_security_platfor.Prelude.Texts.{discard_all}
use griefer_security_platfor.Audit.{Entry}
use griefer_security_platfor.Events.{SecurityEvent}
use griefer_security_platfor.Incidents.{
  Incident, Status, open_status, investigating, contained, closed, ResponseAction,
}

abbrev pub default_page_size : ℕ
default_page_size = 50

abbrev pub max_page_size : ℕ
max_page_size = 200

-- ClampLimit
unfoldable pub clamp_limit : ℤ → ℕ
clamp_limit (negsuc _) = default_page_size
clamp_limit (pos limit) =
    if leb limit 0
    then default_page_size
    else if ltb max_page_size limit
    then max_page_size
    else limit

pub record IncidentFilter : Type 0 where
  pub status : String
  pub severity : String
  pub min_risk_score : ℤ
  pub limit : ℤ
  pub offset : ℤ

-- What IncidentFilter.Normalize returns: the same texts, with the numbers in range.
pub record NormalFilter : Type 0 where
  pub status : String
  pub severity : String
  pub min_risk_score : ℕ
  pub limit : ℕ
  pub offset : ℕ

unfoldable pub normalize : IncidentFilter → NormalFilter
unfolding clamp_limit
normalize f = record {
  status = f.status;
  severity = f.severity;
  min_risk_score = floor_zero f.min_risk_score;
  limit = clamp_limit f.limit;
  offset = floor_zero f.offset;
}

pub data StoreError : Type 0 where
  event_id_required incident_id_required action_id_required entry_id_required not_found : StoreError

pub record MemoryStore : Type 0 where
  pub events : List SecurityEvent
  pub event_ids : List String
  pub incidents : List (String × Incident)
  pub incident_order : List String
  pub actions : List (String × ResponseAction)
  pub action_order : List String
  pub audit_log : List Entry
  pub audit_seq : ℕ
  pub max_events : ℕ

-- NewMemoryStore
unfoldable pub new_memory_store : ℤ → MemoryStore
new_memory_store n = record {
  events = [];
  event_ids = [];
  incidents = [];
  incident_order = [];
  actions = [];
  action_order = [];
  audit_log = [];
  audit_seq = 0;
  max_events = if leb (floor_zero n) 0 then 10000 else floor_zero n;
}

-- The store after a write, with the error that the method returns.
abbrev pub Written : Type 0
Written = MemoryStore × Option StoreError

abbrev pub ids_of : List SecurityEvent → List String
ids_of events = map (λ ev. ev.id) events

-- The retention at the end of SaveEvent.
pub retain : MemoryStore → MemoryStore
unfolding discard_all
retain s =
    if ltb s.max_events (length s.events)
    then record s {
      events = drop (length s.events - s.max_events) s.events;
      event_ids = discard_all (ids_of (take (length s.events - s.max_events) s.events)) s.event_ids;
    }
    else s

-- SaveEvent
unfoldable pub save_event : Option SecurityEvent → MemoryStore → Written
unfolding retain contains
save_event none s = (s, some event_id_required)
save_event (some ev) s =
    if ev.id == ""
    then (s, some event_id_required)
    else if contains s.event_ids ev.id
    then (s, none)
    else (retain (record s { events = s.events ++ ev ∷ []; event_ids = ev.id ∷ s.event_ids }), none)

-- The items `[offset:end]` of a listing.
unfoldable pub page {ℓ} : {A : Type ℓ} → ℕ → ℕ → List A → List A
page limit offset xs =
    let total = length xs in
    let end = (if ltb total (offset + limit) then total else offset + limit) in
    if leb total offset then [] else take (end - offset) (drop offset xs)

-- `ordered[total-1-i] = ev`
unfoldable pub reversed {ℓ} : {A : Type ℓ} → List A → List A → List A
reversed acc [] = acc
reversed acc (x ∷ xs) = reversed (x ∷ acc) xs

-- ListEvents: a page, newest first, and the number of all events.
unfoldable pub list_events : ℤ → ℤ → MemoryStore → List SecurityEvent × ℕ
unfolding page reversed clamp_limit
list_events limit offset s =
    (page (clamp_limit limit) (floor_zero offset) (reversed [] s.events), length s.events)

-- CountEvents
unfoldable pub count_events : MemoryStore → ℕ
count_events s = length s.events

listed_with {ℓ} : {V : Type ℓ} → String → List String → Option V → List String
listed_with id order none = order ++ id ∷ []
listed_with id order (some _) = order

-- `if _, exists := m[id]; !exists { order = append(order, id) }`
pub remember {ℓ} : {V : Type ℓ} → String → List (String × V) → List String → List String
unfolding listed_with
remember id m order = listed_with id order (lookup id m)

-- SaveIncident
unfoldable pub save_incident : Option Incident → MemoryStore → Written
unfolding remember insert
save_incident none s = (s, some incident_id_required)
save_incident (some inc) s = if inc.id == "" then (s, some incident_id_required) else (
  record s {
    incident_order = remember inc.id s.incidents s.incident_order;
    incidents = insert inc.id inc s.incidents;
  },
  none,
)

found {ℓ} : {A : Type ℓ} → Option A → Result StoreError A
found none = err not_found
found (some a) = ok a

-- GetIncident
unfoldable pub get_incident : String → MemoryStore → Result StoreError Incident
unfolding found lookup
get_incident id s = found (lookup id s.incidents)

status_text : Status → String
status_text open_status = "open"
status_text investigating = "investigating"
status_text contained = "contained"
status_text closed = "closed"

matches : NormalFilter → Incident → Bool
unfolding status_text
matches f inc =
    not (not (f.status == "") && not (status_text inc.status == f.status))
    && not (not (f.severity == "") && not (inc.severity == f.severity))
    && not (ltb inc.risk_score f.min_risk_score)

-- The first loop of ListIncidents.
matched_incidents : NormalFilter → List (String × Incident) → List String → List Incident
unfolding matches lookup
matched_incidents f m [] = []
matched_incidents f m (id ∷ order) =
    let rest = matched_incidents f m order in
    elim (lookup id m) [ none ↦ rest | some inc ↦ if matches f inc then inc ∷ rest else rest ]

-- Most recently active first, and by id, downwards, among those of one time.
more_recent : Incident → Incident → Bool
more_recent a b =
    if leb a.last_seen b.last_seen && leb b.last_seen a.last_seen
    then text_lt b.id a.id
    else ltb b.last_seen a.last_seen

-- ListIncidents
unfoldable pub list_incidents : IncidentFilter → MemoryStore → List Incident × ℕ
unfolding normalize matched_incidents more_recent sort_by page
list_incidents filter s =
    let f = normalize filter in
    let matched = sort_by more_recent (matched_incidents f s.incidents s.incident_order) in
    (page f.limit f.offset matched, length matched)

-- saveActionLocked
unfoldable pub save_action_locked : ResponseAction → MemoryStore → MemoryStore
unfolding remember insert
save_action_locked action s = record s {
  action_order = remember action.id s.actions s.action_order;
  actions = insert action.id action s.actions;
}

-- SaveAction
unfoldable pub save_action : Option ResponseAction → MemoryStore → Written
unfolding save_action_locked
save_action none s = (s, some action_id_required)
save_action (some action) s =
    if action.id == "" then (s, some action_id_required) else (save_action_locked action s, none)

-- appendAuditLocked
unfoldable pub append_audit_locked : Entry → MemoryStore → MemoryStore
append_audit_locked entry s = record s {
  audit_seq = s.audit_seq + 1;
  audit_log = s.audit_log ++ record entry { sequence = s.audit_seq + 1 } ∷ [];
}

-- An entry is nil or has no id.
is_unusable : Option Entry → Bool
is_unusable none = true
is_unusable (some entry) = entry.id == ""

some_unusable : List (Option Entry) → Bool
unfolding is_unusable
some_unusable [] = false
some_unusable (e ∷ es) = is_unusable e || some_unusable es

pub append_entries : List (Option Entry) → MemoryStore → MemoryStore
unfolding append_audit_locked
append_entries [] s = s
append_entries (none ∷ es) s = append_entries es s
append_entries (some e ∷ es) s = append_entries es (append_audit_locked e s)

lacks_id : Option ResponseAction → Bool
lacks_id none = false
lacks_id (some action) = action.id == ""

pub save_if_given : Option ResponseAction → MemoryStore → MemoryStore
unfolding save_action_locked
save_if_given none s = s
save_if_given (some action) s = save_action_locked action s

-- SaveActionWithAudit: everything is checked before anything is written.
unfoldable pub save_action_with_audit :
    Option ResponseAction → List (Option Entry) → MemoryStore → Written
unfolding lacks_id some_unusable save_if_given append_entries
save_action_with_audit action entries s =
    if lacks_id action
    then (s, some action_id_required)
    else if some_unusable entries
    then (s, some entry_id_required)
    else (append_entries entries (save_if_given action s), none)

-- GetAction
unfoldable pub get_action : String → MemoryStore → Result StoreError ResponseAction
unfolding found lookup
get_action id s = found (lookup id s.actions)

-- The loop of ListActions, over the order from its end.
matched_actions : String → List (String × ResponseAction) → List String → List ResponseAction
unfolding lookup
matched_actions incident m [] = []
matched_actions incident m (id ∷ order) =
    let rest = matched_actions incident m order in
    elim (lookup id m) [
      | none ↦ rest
      | some action ↦
          if not (incident == "") && not (action.incident_id == incident)
          then rest
          else action ∷ rest
    ]

-- ListActions
unfoldable pub list_actions : String → ℤ → ℤ → MemoryStore → List ResponseAction × ℕ
unfolding matched_actions reversed page clamp_limit
list_actions incident limit offset s =
    let matched = matched_actions incident s.actions (reversed [] s.action_order) in
    (page (clamp_limit limit) (floor_zero offset) matched, length matched)

-- Append
unfoldable pub append : Option Entry → MemoryStore → Written
unfolding append_audit_locked
append none s = (s, some entry_id_required)
append (some entry) s =
    if entry.id == "" then (s, some entry_id_required) else (append_audit_locked entry s, none)

-- List: a page of the audit log, oldest first, and the number of all entries.
unfoldable pub list_audit : ℤ → ℤ → MemoryStore → List Entry × ℕ
unfolding page clamp_limit
list_audit limit offset s =
    (page (clamp_limit limit) (floor_zero offset) s.audit_log, length s.audit_log)
