-- ===== src/Audit.antt =====
-- internal/audit/audit.go: the entries of the audit trail, and how they are stamped.
use griefer_security_platfor.Prelude.{ℕ, String, Bool, List, ◌==◌, if◌then◌else◌}
use griefer_security_platfor.Prelude.Result.{Result, ok, err}
use griefer_security_platfor.Events.{Time}

-- A value of the map `Details`.
pub data Detail : Type 0 where
  text : String → Detail
  number : ℕ → Detail
  flag : Bool → Detail
  texts : List String → Detail

pub record Entry : Type 0 where
  pub id : String
  pub sequence : ℕ
  pub timestamp : Time
  pub actor : String
  pub actor_role : String
  pub action : String
  pub subject_type : String
  pub subject_id : String
  pub outcome : String
  pub reason : String
  pub request_id : String
  pub details : List (String × Detail)

pub data PrepareError : Type 0 where
  action_required outcome_required : PrepareError

abbrev pub system_actor : String
system_actor = "system:griefer"

-- Recorder.Prepare: `fresh` is the generated id and `now` the recorder's clock.
unfoldable pub prepare : String → Time → Entry → Result PrepareError Entry
prepare fresh now entry =
    if entry.action == ""
    then err action_required
    else if entry.outcome == ""
    then err outcome_required
    else ok (record entry {
      id = fresh;
      timestamp = now;
      actor = if entry.actor == "" then system_actor else entry.actor;
    })
