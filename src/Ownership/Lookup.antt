-- ===== src/Ownership/Lookup.antt =====
-- The lookup of a marker: `IsManaged` of internal/ownership/marker.go.
use authentik_operator.Prelude.{
  String, ◌≡◌, refl, ◌↔◌, ◌⊎◌, Bool, true, false, ◌&&◌, ◌||◌, List, [], ◌∷◌, In, inl, inr, ==_refl,
  ==_sound, string_eq, arith,
}
use authentik_operator.Models.{ObjectPermission, RoleAssignment}
use authentik_operator.Effect.{Object}
use authentik_operator.Ownership.{model_of, has_permission, has_marker}

-- The permission is on the object.
pub record IsOn (o : Object) (p : ObjectPermission) : Type 0 where
  pub model : model_of p.app_label p.model ≡ o.model
  pub pk : p.object_pk ≡ o.pk

-- The role `uuid` has a permission on the object in the assignment.
pub record Grants (uuid : String) (o : Object) (a : RoleAssignment) : Type 0 where
  pub role : a.role_pk ≡ uuid
  pub permission : ObjectPermission
  pub listed : In permission a.object_permissions
  pub on : IsOn o permission

or_cases : (a b : Bool) → (a || b) ≡ true → (a ≡ true) ⊎ (b ≡ true)
or_cases true b h = inl refl
or_cases false b h = inr h

and_cases : (a b : Bool) → (a && b) ≡ true → (a ≡ true) × (b ≡ true)
and_cases a b h = ground arith

has_permission_sound :
    (o : Object) (ps : List ObjectPermission)
    → has_permission o ps ≡ true
    → (p : ObjectPermission) × In p ps × IsOn o p
unfolding has_permission
has_permission_sound o [] h = absurd cc
has_permission_sound o (p ∷ ps) h = elim (or_cases _ _ h) [
  | inl k ↦
      let (m, n) = and_cases _ _ k in
      (p, inl refl, record { model = ==_sound _ _ m; pk = ==_sound _ _ n })
  | inr k ↦ let (q, i, on) = has_permission_sound o ps k in (q, inr i, on)
]

has_permission_complete :
    (o : Object) (ps : List ObjectPermission) (p : ObjectPermission)
    → In p ps
    → IsOn o p
    → has_permission o ps ≡ true
unfolding has_permission
has_permission_complete o [] p i on = absurd i
has_permission_complete o (q ∷ ps) p (inl e) on =
    ground (arith, e, on.model, on.pk, ==_refl o.model, ==_refl o.pk)
has_permission_complete o (q ∷ ps) p (inr i) on =
    ground (arith, has_permission_complete o ps p i on)

has_marker_sound :
    (uuid : String) (o : Object) (assignments : List RoleAssignment)
    → has_marker uuid o assignments ≡ true
    → (a : RoleAssignment) × In a assignments × Grants uuid o a
unfolding has_marker
has_marker_sound uuid o [] h = absurd cc
has_marker_sound uuid o (a ∷ assignments) h = elim (or_cases _ _ h) [
  | inl k ↦
      let (r, n) = and_cases _ _ k in
      let (p, i, on) = has_permission_sound o a.object_permissions n in
      (a, inl refl, record { role = ==_sound _ _ r; permission = p; listed = i; on = on })
  | inr k ↦ let (b, i, g) = has_marker_sound uuid o assignments k in (b, inr i, g)
]

has_marker_complete :
    (uuid : String) (o : Object) (assignments : List RoleAssignment) (a : RoleAssignment)
    → In a assignments
    → Grants uuid o a
    → has_marker uuid o assignments ≡ true
unfolding has_marker
has_marker_complete uuid o [] a i g = absurd i
has_marker_complete uuid o (b ∷ assignments) a (inl e) g = ground (
  arith,
  e,
  g.role,
  ==_refl uuid,
  has_permission_complete o a.object_permissions g.permission g.listed g.on,
)
has_marker_complete uuid o (b ∷ assignments) a (inr i) g =
    ground (arith, has_marker_complete uuid o assignments a i g)

-- The lookup of a marker holds exactly when the role has a permission on the object, with the
-- model and the key of the object, in one of the assignments.
pub has_marker_iff :
    (uuid : String) (o : Object) (assignments : List RoleAssignment)
    → (has_marker uuid o assignments ≡ true)
      ↔ ((a : RoleAssignment) × In a assignments × Grants uuid o a)
has_marker_iff uuid o assignments =
    (has_marker_sound uuid o assignments, λ (a, i, g). has_marker_complete uuid o assignments a i g)
