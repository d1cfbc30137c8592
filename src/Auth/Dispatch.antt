-- ===== src/Auth/Dispatch.antt =====
-- A set that was built sends a credential to the one backend of its scheme.
use ranke_db.Base.{
  ◌≡◌, refl, inl, inr, Bool, true, false, not, ◌&&◌, Option, none, some, List, [], ◌∷◌, Text,
  text_eq, text_eq_iff, ok, err, bind-eq-ok, arith, Bool-cases, Result-cases, if◌then◌else◌,
  succeeds, all,
}
use ranke_db.Base.Dict.{lookup, lookup-insert}
use ranke_db.Errors.{fault, unauthenticated}
use ranke_db.Auth.{
  Credential, Backend, BackendSet, scheme_none, add_backend, add_backends, new_set, authenticate,
}

-- the first backend of a scheme
abbrev pub backend_of : Text → List Backend → Option Backend
backend_of s [] = none
backend_of s (a ∷ auths) =
    let rest = backend_of s auths in if text_eq a.scheme s then some a else rest

-- what the set holds for a scheme
abbrev holds_for : BackendSet → Text → Option Backend
holds_for b s = if text_eq s scheme_none then b.no_auth else lookup s b.by_scheme

abbrev or_else : Option Backend → Option Backend → Option Backend
or_else none b = b
or_else (some a) b = some a

holds_for-add_backend :
    (b b' : BackendSet) (a : Backend) (s : Text)
    → add_backend b a ≡ ok b'
    → (holds_for b' s ≡ (if text_eq a.scheme s then some a else holds_for b s))
      × (holds_for b a.scheme ≡ none)
unfolding add_backend
holds_for-add_backend b b' a s h = ground (
  arith,
  text_eq_iff a.scheme s,
  text_eq_iff a.scheme scheme_none,
  text_eq_iff s scheme_none,
  lookup-insert a.scheme s a b.by_scheme,
)

holds_for-add_backends :
    (auths : List Backend) (b b' : BackendSet) (s : Text)
    → add_backends b auths ≡ ok b'
    → holds_for b' s ≡ or_else (holds_for b s) (backend_of s auths)
unfolding add_backends
holds_for-add_backends [] b b' s h = ground arith
holds_for-add_backends (a ∷ auths) b b' s h =
    let (b₁, p, q) = bind-eq-ok (add_backend b a) (λ b₁. add_backends b₁ auths) h in
    let (now, fresh) = holds_for-add_backend b b₁ a s p in
    ground (arith, now, fresh, text_eq_iff a.scheme s, holds_for-add_backends auths b₁ b' s q)

abbrev empty_set : BackendSet
empty_set = record { by_scheme = []; no_auth = none }

lookup_empty : (s : Text) → lookup {V = Backend} s [] ≡ none
unfolding lookup
lookup_empty s = refl

-- A set that was built answers a credential by the backend configured for its scheme, the empty
-- scheme getting no token, and refuses a scheme that has none as unauthenticated.
pub authenticate-new_set :
    (auths : List Backend) (b : BackendSet) (cred : Credential)
    → new_set auths ≡ ok b
    → authenticate b cred ≡ elim (backend_of cred.scheme auths) [
      | none ↦ err (fault unauthenticated)
      | some a ↦ a.authenticate (if text_eq cred.scheme scheme_none then [] else cred.token)
    ]
unfolding new_set authenticate
authenticate-new_set auths b cred h = elim (Bool-cases (text_eq cred.scheme scheme_none)) [
  | inl e ↦
      ground
        (arith, holds_for-add_backends auths empty_set b cred.scheme h, lookup_empty cred.scheme)
  | inr e ↦
      ground
        (arith, holds_for-add_backends auths empty_set b cred.scheme h, lookup_empty cred.scheme)
]

abbrev is_free : Option Backend → Bool
is_free none = true
is_free (some _) = false

abbrev all_free : BackendSet → List Backend → Bool
all_free b = all (λ x. is_free (holds_for b x.scheme))

-- no two backends have one scheme
abbrev pub distinct_schemes : List Backend → Bool
distinct_schemes [] = true
distinct_schemes (a ∷ auths) =
    all (λ x. not (text_eq a.scheme x.scheme)) auths && distinct_schemes auths

all_free-add_backend :
    (auths : List Backend) (b b' : BackendSet) (a : Backend)
    → add_backend b a ≡ ok b'
    → all_free b' auths ≡ (all_free b auths && all (λ x. not (text_eq a.scheme x.scheme)) auths)
all_free-add_backend [] b b' a h = refl
all_free-add_backend (x ∷ auths) b b' a h =
    ground (arith, (holds_for-add_backend b b' a x.scheme h).0, all_free-add_backend auths b b' a h)

taken : (b : BackendSet) (a : Backend) → succeeds (add_backend b a) ≡ is_free (holds_for b a.scheme)
unfolding add_backend
taken b a = ground arith

succeeds-add_backends :
    (auths : List Backend) (b : BackendSet)
    → succeeds (add_backends b auths) ≡ (all_free b auths && distinct_schemes auths)
unfolding add_backends
succeeds-add_backends [] b = refl
succeeds-add_backends (a ∷ auths) b = elim (Result-cases (add_backend b a)) [
  | inl (e, p) ↦ ground (arith, taken b a)
  | inr (b', p) ↦
      ground (arith, taken b a, all_free-add_backend auths b b' a p, succeeds-add_backends auths b')
]

all_free_empty : (auths : List Backend) → all_free empty_set auths ≡ true
unfolding lookup
all_free_empty [] = refl
all_free_empty (a ∷ auths) = ground (arith, all_free_empty auths)

-- `NewSet` succeeds exactly when no two backends have one scheme, two without a scheme included.
pub succeeds-new_set : (auths : List Backend) → succeeds (new_set auths) ≡ distinct_schemes auths
unfolding new_set
succeeds-new_set auths = ground (arith, succeeds-add_backends auths empty_set, all_free_empty auths)
