-- ===== src/Incidents/Catalog.antt =====
-- internal/incidents/catalog.go: the server-owned definition of every response action.
use griefer_security_platfor.Prelude.{
  not, ◌&&◌, ◌==◌, All, arith, String, ◌≡◌, Bool, true, false, none, some, List, [], ◌∷◌,
  if◌then◌else◌, text_lt,
}
use griefer_security_platfor.Prelude.Dict.{lookup, lookup-All, keys}
use griefer_security_platfor.Prelude.Result.{Result, ok, err}
use griefer_security_platfor.Prelude.Sort.{sort_by}

pub record ActionSpec : Type 0 where
  pub type_name : String
  pub title : String
  pub description : String
  pub destructive : Bool
  pub reversible : Bool
  pub rollback_action : String
  pub isolation : Bool
  pub simulation_template : String

-- ErrUnknownActionType
pub data CatalogError : Type 0 where
  unknown_action_type : String → CatalogError

-- Every entry stands under its own name.
unfoldable pub catalog : List (String × ActionSpec)
catalog =
    (
      "preserve_evidence",
      record {
        type_name = "preserve_evidence";
        title = "Preserve evidence";
        description =
            "Place a retention hold on the events, sessions and audit records linked to this incident.";
        destructive = false;
        reversible = true;
        rollback_action = "release_evidence_hold";
        isolation = false;
        simulation_template =
            "Would place a retention hold on %d linked entities; no access is changed.";
      },
    )
    ∷ (
      "require_mfa",
      record {
        type_name = "require_mfa";
        title = "Require step-up MFA";
        description = "Force a step-up authentication challenge on the identity's next sign-in.";
        destructive = false;
        reversible = true;
        rollback_action = "remove_mfa_requirement";
        isolation = false;
        simulation_template =
            "Would require step-up authentication for %d identity-linked entities on next sign-in.";
      },
    )
    ∷ (
      "temporarily_suspend_privileges",
      record {
        type_name = "temporarily_suspend_privileges";
        title = "Temporarily suspend elevated privileges";
        description = "Remove the identity's elevated role assignments for a bounded period.";
        destructive = false;
        reversible = true;
        rollback_action = "restore_privileges";
        isolation = false;
        simulation_template =
            "Would suspend elevated role assignments affecting %d entities until an analyst restores them.";
      },
    )
    ∷ (
      "isolate_endpoint",
      record {
        type_name = "isolate_endpoint";
        title = "Isolate endpoint";
        description = "Cut the endpoint's network access except for the management channel.";
        destructive = false;
        reversible = true;
        rollback_action = "release_endpoint_isolation";
        isolation = true;
        simulation_template =
            "Would place %d endpoint-linked entities into network isolation, management channel retained.";
      },
    )
    ∷ (
      "revoke_sessions",
      record {
        type_name = "revoke_sessions";
        title = "Revoke active sessions";
        description =
            "Invalidate the identity's refresh and access tokens, forcing re-authentication.";
        destructive = false;
        reversible = false;
        rollback_action = "";
        isolation = true;
        simulation_template =
            "Would invalidate active sessions across %d entities; affected users must re-authenticate.";
      },
    )
    ∷ (
      "rotate_exposed_secret",
      record {
        type_name = "rotate_exposed_secret";
        title = "Rotate exposed secret";
        description = "Generate a new value for the exposed secret and retire the current one.";
        destructive = false;
        reversible = false;
        rollback_action = "";
        isolation = false;
        simulation_template =
            "Would rotate the exposed secret and invalidate the current value for %d dependent entities.";
      },
    )
    ∷ (
      "delete_identity",
      record {
        type_name = "delete_identity";
        title = "Delete identity";
        description = "Permanently delete the identity object and its history.";
        destructive = true;
        reversible = false;
        rollback_action = "";
        isolation = false;
        simulation_template = "";
      },
    )
    ∷ (
      "wipe_endpoint",
      record {
        type_name = "wipe_endpoint";
        title = "Wipe endpoint";
        description = "Remotely erase the endpoint's storage.";
        destructive = true;
        reversible = false;
        rollback_action = "";
        isolation = false;
        simulation_template = "";
      },
    )
    ∷ (
      "purge_audit_records",
      record {
        type_name = "purge_audit_records";
        title = "Purge audit records";
        description = "Permanently delete audit records associated with the incident.";
        destructive = true;
        reversible = false;
        rollback_action = "";
        isolation = false;
        simulation_template = "";
      },
    )
    ∷ []

-- Lookup
unfoldable pub lookup_action : String → Result CatalogError ActionSpec
unfolding catalog lookup
lookup_action action_type = elim (lookup action_type catalog) [
  | none ↦ err (unknown_action_type action_type)
  | some spec ↦ ok spec
]

-- KnownActionTypes
unfoldable pub known_action_types : List String
unfolding catalog sort_by
known_action_types = sort_by text_lt (keys catalog)

non_destructive : List (String × ActionSpec) → List String
non_destructive [] = []
non_destructive ((k, spec) ∷ m) =
    let rest = non_destructive m in if spec.destructive then rest else k ∷ rest

-- RecommendableActionTypes
unfoldable pub recommendable_action_types : List String
unfolding catalog sort_by non_destructive
recommendable_action_types = sort_by text_lt (non_destructive catalog)

-- What the response engine relies on in an entry that stands under the name `k`: it bears that
-- name, it is reversible exactly if it names a rollback, and nothing destructive is reversible.
abbrev pub IsSound : String → ActionSpec → Type 0
IsSound k spec =
    (spec.type_name ≡ k)
    × (spec.reversible ≡ not (spec.rollback_action == ""))
    × ((spec.destructive && spec.reversible) ≡ false)

catalog-IsSound : All (λ e. IsSound e.0 e.1) catalog
unfolding catalog
catalog-IsSound = search

-- Every specification that a look-up returns bears the name that was asked for, is reversible
-- exactly if it names a rollback action, and is not both destructive and reversible.
pub lookup_action-IsSound :
    (k : String) (spec : ActionSpec) → lookup_action k ≡ ok spec → IsSound k spec
unfolding lookup_action
lookup_action-IsSound k spec h = lookup-All IsSound k catalog catalog-IsSound spec (ground arith)
