-- ===== src/Controller/Deletion/Laws.antt =====
-- What the deletion of a resource may do: internal/controller/deletion.go.

use authentik_operator.Prelude.{
  String, ◌≡◌, refl, sym, Bool, true, false, Option, none, some, List, [], ◌∷◌, In, inl, inr,
  string_eq, if◌then◌else◌,
}
use authentik_operator.Prelude.Int.{ℤ, wrap32}
use authentik_operator.Api.{AuthentikApplication, NamedReference, ProviderSpec, ProxyProviderSpec}
use authentik_operator.Models.{Application, Outpost}
use authentik_operator.Effect.{
  Result, ok, err, Call, delete_application, delete_policy_binding, delete_proxy_provider,
  delete_oauth2_provider, set_outpost_providers, get_application, get_outpost,
  find_outposts_by_name, record_event, deleted, Object, call, note, pure, ignore_not_found,
}
use authentik_operator.Effect.Emits.{Emits, Emits-weaken, emits_rules, Emits-bind, Emits-pure}
use authentik_operator.Ownership.Cache.Quiet.{IsMarkerCall, Emits-remove}
use authentik_operator.Controller.Outpost.{
  remove_provider_from_outpost, leave_found, leave_outpost_by_uuid, leave_only, leave_referenced,
  leave_outpost, embedded_outpost_name,
}
use authentik_operator.Controller.Deletion.{
  is_delete, release_bindings, released_slug, delete_if_recorded, delete_application_of,
  release_application, delete_provider, release_known_provider, release_provider, remove_markers,
  release_app,
}

-- The calls that a release may make: those on markers, reads, and, when `removes` says that the
-- policy is Delete, writes that delete the objects recorded in the status of the resource.
pub data Releases (removes : Bool) (app : AuthentikApplication) : Call → Type 0 where
  on_markers : (c : Call) → IsMarkerCall c → Releases removes app c
  reads_application : (slug : String) → Releases removes app (get_application slug)
  reads_outpost : (uuid : String) → Releases removes app (get_outpost uuid)
  finds_outposts : (name : String) → Releases removes app (find_outposts_by_name name)
  leaves_outpost :
      (uuid : String) (pks : List ℤ)
      → removes ≡ true
      → Releases removes app (set_outpost_providers uuid pks)
  deletes_binding :
      (uuid : String)
      → removes ≡ true
      → In uuid app.status.binding_uuids
      → Releases removes app (delete_policy_binding uuid)
  deletes_application :
      removes ≡ true → Releases removes app (delete_application (released_slug app))
  deletes_proxy :
      (pk : ℤ)
      → removes ≡ true
      → app.status.provider_pk ≡ some pk
      → Releases removes app (delete_proxy_provider (wrap32 pk))
  deletes_oauth2 :
      (pk : ℤ)
      → removes ≡ true
      → app.status.provider_pk ≡ some pk
      → Releases removes app (delete_oauth2_provider (wrap32 pk))
  records : removes ≡ true → Releases removes app (record_event deleted)

Emits-remove_markers :
    {P : Call → Type 0}
    → ((c : Call) → IsMarkerCall c → P c)
    → (objects : List Object) → Emits P (remove_markers objects)
unfolding remove_markers
Emits-remove_markers f [] = search emits_rules
Emits-remove_markers f (o ∷ objects) =
    Emits-bind _ _ (Emits-weaken _ f (Emits-remove o)) (λ _. Emits-remove_markers f objects)

module _ (app : AuthentikApplication) where
  Emits-delete_if_recorded :
      (answer : Result Application)
      → Emits (Releases true app) (delete_if_recorded app (released_slug app) answer)
  unfolding delete_if_recorded
  Emits-delete_if_recorded (ok observed) = search (emits_rules, deletes_application)
  Emits-delete_if_recorded (err e) = search emits_rules

  Emits-delete_application_of : Emits (Releases true app) (delete_application_of app)
  unfolding delete_application_of
  Emits-delete_application_of = search (emits_rules, reads_application, Emits-delete_if_recorded)

  Emits-release_application :
      (removes : Bool) → Emits (Releases removes app) (release_application removes app)
  unfolding release_application
  Emits-release_application true = search (emits_rules, Emits-delete_application_of)
  Emits-release_application false = search emits_rules

  Emits-delete_binding :
      (removes : Bool) (u : String)
      → In u app.status.binding_uuids
      → Emits
          (Releases removes app)
          (if removes then ignore_not_found (call (delete_policy_binding u)) else pure tt)
  Emits-delete_binding true u i = search (emits_rules, deletes_binding, i)
  Emits-delete_binding false u i = search emits_rules

  Emits-release_bindings :
      (removes : Bool) (uuids : List String)
      → ((u : String) → In u uuids → In u app.status.binding_uuids)
      → Emits (Releases removes app) (release_bindings removes uuids)
  unfolding release_bindings
  Emits-release_bindings removes [] h = search emits_rules
  Emits-release_bindings removes (u ∷ uuids) h =
      Emits-bind _ _ (Emits-delete_binding removes u (h u (inl refl))) (λ _.
        Emits-bind _ _ (Emits-release_bindings removes uuids (λ v i. h v (inr i)))
          (λ rest. Emits-pure _))

  Emits-remove_provider_from_outpost :
      (outpost : Outpost) (pk : ℤ)
      → Emits (Releases true app) (remove_provider_from_outpost outpost pk)
  unfolding remove_provider_from_outpost
  Emits-remove_provider_from_outpost outpost pk = search (emits_rules, leaves_outpost)

  Emits-leave_found :
      (answer : Result Outpost) (pk : ℤ) → Emits (Releases true app) (leave_found answer pk)
  unfolding leave_found
  Emits-leave_found (ok outpost) pk = Emits-remove_provider_from_outpost outpost pk
  Emits-leave_found (err e) pk = search emits_rules

  Emits-leave_only :
      (found : List Outpost) (pk : ℤ) → Emits (Releases true app) (leave_only found pk)
  unfolding leave_only
  Emits-leave_only [] pk = search emits_rules
  Emits-leave_only (o ∷ []) pk = Emits-remove_provider_from_outpost o pk
  Emits-leave_only (o ∷ p ∷ rest) pk = search emits_rules

  Emits-leave_referenced :
      (uuid name : Option String) (pk : ℤ)
      → Emits (Releases true app) (leave_referenced uuid name pk)
  unfolding leave_referenced leave_outpost_by_uuid
  Emits-leave_referenced (some uuid) name pk =
      search (emits_rules, reads_outpost, Emits-leave_found)
  Emits-leave_referenced none none pk = search emits_rules
  Emits-leave_referenced none (some name) pk =
      search (emits_rules, finds_outposts, Emits-leave_only)

  Emits-leave_outpost :
      (reference : Option NamedReference) (pk : ℤ)
      → Emits (Releases true app) (leave_outpost reference pk)
  unfolding leave_outpost
  Emits-leave_outpost none pk = Emits-leave_referenced none (some embedded_outpost_name) pk
  Emits-leave_outpost (some reference) pk = Emits-leave_referenced reference.uuid _ pk

  module _ (pk : ℤ) (recorded : app.status.provider_pk ≡ some pk) where
    Emits-delete_provider :
        (proxy : Option ProxyProviderSpec)
        → Emits (Releases true app) (delete_provider proxy (wrap32 pk))
    unfolding delete_provider
    Emits-delete_provider (some proxy) =
        search (emits_rules, deletes_proxy, recorded, Emits-leave_outpost)
    Emits-delete_provider none = search (emits_rules, deletes_oauth2, recorded)

    Emits-release_known_provider :
        (removes : Bool) (provider : ProviderSpec)
        → Emits (Releases removes app) (release_known_provider removes provider (wrap32 pk))
    unfolding release_known_provider
    Emits-release_known_provider true provider = search (emits_rules, Emits-delete_provider)
    Emits-release_known_provider false provider = search emits_rules

  Emits-release_provider :
      (removes : Bool) (pk : Option ℤ) (provider : Option ProviderSpec)
      → pk ≡ app.status.provider_pk
      → Emits (Releases removes app) (release_provider removes pk provider)
  unfolding release_provider
  Emits-release_provider removes (some pk) (some provider) e =
      Emits-release_known_provider pk (sym e) removes provider
  Emits-release_provider removes (some pk) none e = search emits_rules
  Emits-release_provider removes none provider e = search emits_rules

  Emits-event :
      (removes : Bool)
      → Emits (Releases removes app) (if removes then note (record_event deleted) else pure tt)
  Emits-event true = search (emits_rules, records)
  Emits-event false = search emits_rules

-- The release of the objects of a resource, however the services answer, makes only calls on
-- markers and reads unless the policy is Delete; and with Delete it deletes only the Bindings
-- whose UUIDs the status records, the Application at the recorded slug (or at the slug of the spec
-- when none is recorded) and the Provider with the recorded key, and may write the providers of an
-- Outpost.
pub release_app-Releases :
    (app : AuthentikApplication)
    → Emits (Releases (is_delete app.spec.deletion_policy) app) (release_app app)
unfolding release_app
release_app-Releases app = Emits-bind _ _ (Emits-release_bindings app _ _ (λ u i. i)) (λ bindings.
    Emits-bind _ _ (Emits-release_application app _) (λ application.
      Emits-bind _ _ (Emits-release_provider app _ _ _ refl)
        (λ provider. Emits-bind _ _ (Emits-remove_markers on_markers _) (λ _. Emits-event app _))))
