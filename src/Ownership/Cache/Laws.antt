-- ===== src/Ownership/Cache/Laws.antt =====
-- internal/controller/markers.go: what the operations of the cache leave in it, and what a fresh
-- cache saves.
use authentik_operator.Prelude.{
  ◌+◌, ◌≡◌, ◌∙◌, refl, sym, Bool, true, false, none, some, List, [], ◌∷◌, ltb, contains, delete,
  arith, ==_refl,
}
use authentik_operator.Patch.Sets.{put}
use authentik_operator.Effect.{ok, Object, State, Env, now, pure, gets, asks, clock, ◌>>=◌}
use authentik_operator.Effect.Yields.{
  Yields, Yields-pure, Yields-gets, Yields-if, Yields-any, Yields-bind, Yields-modify,
}
use authentik_operator.Ownership.{object_eq}
use authentik_operator.Ownership.Cache.{
  objects_of, cached, cache_put, cache_delete, is_fresh, refresh, ensure, remove, read_markers,
}

contains-put : (objects : List Object) (o : Object) → contains (put objects o) o ≡ true
unfolding put contains
contains-put objects o = ground (arith, ==_refl o)

contains-delete : (objects : List Object) (o : Object) → contains (delete objects o) o ≡ false
unfolding delete contains
contains-delete [] o = refl
contains-delete (x ∷ objects) o = ground (arith, contains-delete objects o)

cached-cache_put : (o : Object) (s : State) → cached (cache_put o s) o ≡ true
unfolding cached cache_put objects_of
cached-cache_put o s = contains-put (objects_of s.objects) o

cached-cache_delete : (o : Object) (s : State) → cached (cache_delete o s) o ≡ false
unfolding cached cache_delete objects_of contains
cached-cache_delete o s =
    elim s.objects
      as (λ m.
        contains (objects_of (elim m [ none ↦ none | some objects ↦ some (delete objects o) ])) o
        ≡ false) [ none ↦ refl | some objects ↦ contains-delete objects o ]

abbrev Cached : Object → Unit {0} → State → Type 0
Cached o _ s = cached s o ≡ true

abbrev Known : Object → Bool → State → Type 0
Known o known s = known ≡ cached s o

Yields-ensure : (o : Object) → Yields (λ s. Unit) (ensure o) (Cached o)
unfolding ensure
Yields-ensure o = Yields-bind {R = λ _ s. Unit} _ _ (Yields-any _) (λ _.
    Yields-bind {R = Known o} _ _ (Yields-gets _ (λ s _. refl)) (λ known.
      Yields-if known _ _ (λ k. Yields-pure tt (λ s e. sym e ∙ k))
        (λ k.
          Yields-bind {R = λ _ s. Unit} _ _ (Yields-any _)
            (λ _. Yields-modify _ (λ s _. cached-cache_put o s)))))

-- After ensure succeeds for an object, whatever the services answered, the cache holds the object.
pub ensure-cached :
    (o : Object) (env : Env) (s : State)
    → (ensure o env s).0 ≡ ok tt
    → cached (ensure o env s).1 o ≡ true
ensure-cached o env s e = (Yields-ensure o).at env s tt tt e

Yields-remove : (o : Object) → Yields (λ s. Unit) (remove o) (λ _ s. cached s o ≡ false)
unfolding remove
Yields-remove o =
    Yields-bind {R = λ _ s. Unit} _ _ (Yields-any _)
      (λ _. Yields-modify _ (λ s _. cached-cache_delete o s))

-- After remove succeeds for an object, the cache does not hold it.
pub remove-cached :
    (o : Object) (env : Env) (s : State)
    → (remove o env s).0 ≡ ok tt
    → cached (remove o env s).1 o ≡ false
remove-cached o env s e = (Yields-remove o).at env s tt tt e

-- The cache is fresh in `s`: it holds a list that was read less than a resync interval ago.
pub record IsFresh (env : Env) (s : State) (objects : List Object) : Type 0 where
  pub read : s.objects ≡ some objects
  pub recent : ltb (env.clock s.trace) (s.fetched + env.resync_interval) ≡ true

refresh-fresh :
    (env : Env) (s : State) (objects : List Object)
    → IsFresh env s objects
    → refresh env s ≡ (ok tt, record s { trace = now ∷ s.trace })
unfolding refresh is_fresh ◌>>=◌ gets pure clock asks read_markers
refresh-fresh env s objects f = ground (arith, f.read, f.recent)

-- When the cache is fresh and holds the object, ensure calls nothing but the clock, succeeds, and
-- changes nothing else.
pub ensure-fresh :
    (o : Object) (env : Env) (s : State) (objects : List Object)
    → IsFresh env s objects
    → contains objects o ≡ true
    → ensure o env s ≡ (ok tt, record s { trace = now ∷ s.trace })
unfolding ensure ◌>>=◌ gets pure cached objects_of
ensure-fresh o env s objects f c = ground (arith, refresh-fresh env s objects f, f.read)
