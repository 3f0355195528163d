-- ===== src/Api/Status.antt =====
-- The status, the conditions and the metadata of an AuthentikApplication:
-- api/v1alpha1/authentikapplication_types.go. Of the metadata the fields that the operator reads
-- are kept; a time is a number of seconds, and `finalizers` holds the finalizer names.
use authentik_operator.Prelude.{ℕ, String, Bool, Option, List}
use authentik_operator.Prelude.Int.{ℤ}
use authentik_operator.Api.Spec.{AuthentikApplicationSpec}

pub data ConditionType : Type 0 where
  ready unmanaged_bindings_present : ConditionType

pub data Reason : Type 0 where
  reconciled conflict unmanaged adoption_diff provider_type_mismatch : Reason
  unmanaged_bindings reference_not_found ambiguous_reference api_failure : Reason

pub record FieldDiff : Type 0 where
  pub field : String
  pub desired : String
  pub actual : String

pub record UnmanagedBinding : Type 0 where
  pub uuid : String
  pub target : String

pub record Condition : Type 0 where
  pub type : ConditionType
  pub status : Bool
  pub reason : Reason
  pub message : String
  pub observed_generation : ℕ

pub record AuthentikApplicationStatus : Type 0 where
  pub observed_generation : ℕ
  pub application_slug : String
  pub application_pk : String
  pub provider_pk : Option ℤ
  pub outpost_uuid : String
  pub binding_uuids : List String
  pub last_applied_hash : String
  pub adoption_diffs : List FieldDiff
  pub unmanaged_bindings : List UnmanagedBinding
  pub conditions : List Condition

pub record AuthentikApplication : Type 0 where
  pub namespace : String
  pub name : String
  pub uid : String
  pub generation : ℕ
  pub creation_timestamp : ℕ
  pub deletion_timestamp : Option ℕ
  pub finalizers : List String
  pub spec : AuthentikApplicationSpec
  pub status : AuthentikApplicationStatus
