-- ===== src/Lib.antt =====
-- authentik-operator: a Kubernetes controller that brings an Application of authentik, its Provider,
-- its policy Bindings and its Outpost to the state in an AuthentikApplication resource.
--
-- The parts and their files:
--   Api         the resource: api/v1alpha1/authentikapplication_types.go (Spec, Status).
--   Models      the objects and requests of the generated client goauthentik.io/api/v3, with the
--               fields that the operator reads or writes. A NullableString or NullableInt32 is an
--               option of an option: not set, or set to null or to a value.
--   Patch       internal/authentik/patch.go: the partial updates DiffApplication, DiffProxyProvider,
--               DiffOAuth2Provider and DiffPolicyBinding, with diffSet and sameSet (Sets), diffValue,
--               diffPointer and the nullable diffs (Fields) and diffRedirectURIs (RedirectUris). A
--               result (nil, false) is none.
--   Desired     internal/controller/desired.go: the desired objects and the create requests.
--   Reference   internal/reference: the resolved identifiers (resolver.go) and the failures
--               (error.go).
--   Resolver    internal/reference/resolver.go: the lookups (Lookup), the credentials of a Secret
--               (Credentials), the rules (Rules), Resolve (Resolve) and ResolveCreationDefaults
--               (Defaults). Resolves (Grows) is the rule on actions that add to the collector.
--   Bindings    matchBindings of internal/controller/bindings.go.
--   Conflict    internal/controller/conflict.go: conflictWinner, checkConflict's candidates and
--               decision, sameSlugRequests and conflictPredicate.
--   Effect      the calls of internal/authentik/interface.go and of the Kubernetes API (Calls), the
--               errors of internal/authentik/errors.go (Errors) and actions (Monad): an action takes
--               the services and the state, and returns a result or an error with the next state.
--               Emits, Keeps, Yields and Gives are rules on actions: the calls made, a part of the
--               state kept, what holds on success, and the calls with what holds of the value.
--   Ownership   internal/ownership/marker.go, and internal/controller/markers.go (Cache).
--   Controller  internal/controller: outpost.go (Outpost), setCondition, setReady and patchStatus of
--               authentikapplication_controller.go (Status), deletion.go (Deletion), bindings.go:
--               reconcileBindings (Bindings) and handleUnmanagedBindings (Unmanaged), adoption.go:
--               the tables and fieldDiffs (FieldDiffs) and adoptApplication (Adoption), provider.go
--               (Provider), application.go (Application), credentials.go (Credentials), and
--               checkConflict, Reconcile, reconcile and finish (Reconcile). The interface
--               providerHandler is a record of operations (Provider.Observed) with two values
--               (ProxyHandler, OAuth2Handler), and TameHandler is what its client relies on.
--   Client      internal/authentik: wrapError (Failure) and the redaction (Redaction) of errors.go,
--               and listAll of apiclient.go (Pages).
--   Tests       runs at concrete inputs.
--
-- A Go map is the list of its keys, a pointer an option, an error a value of Error, and a slice
-- that the code tells apart from nil is an option of a list. An int32 is an integer, and the int32
-- of a recorded provider key and of a new order wraps around (Prelude.Int.wrap32). Loops are
-- recursion on the slice. Fuel is used to print a number, one more than the number, which has at most
-- that many digits; and in listAll, where the number of the pages is enough. A value of any that
-- encoding/json decodes is Models.Json.Json. A nil dereference is the error nil_dereference, where the
-- source panics and controller-runtime ends the reconcile; a resolved rule has a subject, so the
-- subject of one without any, a policy with an empty key here, is not asked for. The tables of
-- mapEnum are functions on enumerations: a string outside of the enumeration, which the schema of the
-- resource excludes, is not a value of the model.
--
-- The services are a parameter (Effect.Env): an answer depends on all calls made before, so the
-- theorems hold whatever authentik and Kubernetes answer and whoever else changes their state. The
-- functions on conditions and finalizers of k8s.io/apimachinery and controller-runtime, the comparison
-- of two statuses, the clock, the hash of a spec, encoding/json on the models and
-- SetControllerReference are parameters there too. What authentik does
-- with a POST and with a PATCH is a hypothesis of the theorems that need it (Stores..., Patches...),
-- and so is how the JSON of an Application is written (WritesApplication).
--
-- Not modelled: the log lines and metrics; the HTTP client of internal/authentik/client.go and the
-- configuration (config.go); the version check (version.go); the in-memory client that the tests use
-- (fake/fake.go); the timer of gc.go and the events that it sends; the set-up of the controller with
-- its manager; internal/retry; cmd/main.go; generated code. The mutexes are not modelled: the
-- reconciles are serialized, and each operation of the marker cache is one action. A status patch
-- leaves the resource as it was written.
pub mod Prelude
pub mod Api
pub mod Models
pub mod Patch
pub mod Reference
pub mod Desired
pub mod Bindings
pub mod Conflict
pub mod Effect
pub mod Resolver
pub mod Ownership
pub mod Controller
pub mod Client
mod Tests
