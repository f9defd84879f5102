-- ===== src/Gateway/Order.antt =====
-- The routes of the proxy up to what clients can tell of them: the order in which the maps hold
-- their entries is forgotten.
use beamlit_controller.Base.{
  Bool, true, false, List, [], ◌∷◌, Text, Text_Eq, Option, none, some, ◌≡◌, refl, sym, ap, ◌∙◌,
  arith, if◌then◌else◌,
}
use mathlib.Core.Quot
use mathlib.Core.Quot.{Quot, Quot-set}
use beamlit_controller.Gateway.Types.{Route}
use beamlit_controller.Gateway.Proxy.{ProxyState, is_among, backend_hosts}
use beamlit_controller.Gateway.Refines.{
  Command, registering, updating, getting, deleting, perform, view, View, View-ext, spec,
  perform-spec,
}

abbrev SameView : ProxyState → ProxyState → Type 0
SameView p q = view p ≡ view q

abbrev pub Routes : Type 0
Routes = Quot SameView

after-SameView :
    (c : Command) (p q : ProxyState) → SameView p q → SameView (perform c p).1 (perform c q).1
after-SameView c p q h =
    (perform-spec c p).1 ∙ ap (λ v. (spec c v).1) h ∙ sym ((perform-spec c q).1)

-- What a request makes of the routes.
pub performed : Command → Routes → Routes
performed c =
    Quot.lift Quot-set (λ p. Quot.mk (perform c p).1) (λ p q h. Quot.sound (after-SameView c p q h))

abbrev pub AreApart : List Text → List Text → Type 0
AreApart xs ys = (h : Text) → is_among h xs ≡ true → is_among h ys ≡ false

-- Of two sets that share nothing, the order in which they are written does not matter.
either_first :
    {A : Type 0} (s t : Bool) (x y z : A)
    → (s ≡ true → t ≡ false)
    → (if s then x else if t then y else z) ≡ (if t then y else if s then x else z)
either_first true true x y z h = let e : true ≡ false = h refl in cc
either_first true false x y z h = refl
either_first false true x y z h = refl
either_first false false x y z h = refl

-- What a request writes: under which names, hostnames and hosts of backends, and which route and
-- name it writes there.
abbrev pub names_of : Command → List Text
names_of (registering route) = route.name ∷ []
names_of (updating route) = route.name ∷ []
names_of (getting name) = []
names_of (deleting name) = name ∷ []

abbrev pub hosts_of : Command → List Text
hosts_of (registering route) = route.hostnames
hosts_of (updating route) = route.hostnames
hosts_of (getting name) = []
hosts_of (deleting name) = []

abbrev pub behind_of : Command → List Text
behind_of (registering route) = backend_hosts route.backends
behind_of (updating route) = backend_hosts route.backends
behind_of (getting name) = []
behind_of (deleting name) = []

abbrev written_route : Command → Option Route
written_route (registering route) = some route
written_route (updating route) = some route
written_route (getting name) = none
written_route (deleting name) = none

abbrev written_name : Command → Option Text
written_name (registering route) = some route.name
written_name (updating route) = some route.name
written_name (getting name) = none
written_name (deleting name) = none

abbrev written : Command → View → View
written c v = record {
  route_named = λ n. if is_among n (names_of c) then written_route c else v.route_named n;
  name_at = λ h. if is_among h (hosts_of c) then written_name c else v.name_at h;
  name_behind = λ h. if is_among h (behind_of c) then written_name c else v.name_behind h;
}

spec-written : (c : Command) (v : View) → (spec c v).1 ≡ written c v
spec-written (registering route) v = View-ext _ _ (λ n. ground arith) (λ h. refl) (λ h. refl)
spec-written (updating route) v = View-ext _ _ (λ n. ground arith) (λ h. refl) (λ h. refl)
spec-written (getting name) v = refl
spec-written (deleting name) v = View-ext _ _ (λ n. ground arith) (λ h. refl) (λ h. refl)

-- Neither a name nor a hostname nor a host of a backend is written by both.
pub record AreIndependent (c d : Command) : Type 0 where
  pub names : AreApart (names_of c) (names_of d)
  pub hosts : AreApart (hosts_of c) (hosts_of d)
  pub behind : AreApart (behind_of c) (behind_of d)

written_comm :
    (c d : Command) (v : View)
    → AreIndependent c d
    → written c (written d v) ≡ written d (written c v)
written_comm c d v apart =
    View-ext (written c (written d v)) (written d (written c v))
      (λ n.
        either_first (is_among n (names_of c)) (is_among n (names_of d)) (written_route c)
          (written_route d) (v.route_named n) (apart.names n))
      (λ h.
        either_first (is_among h (hosts_of c)) (is_among h (hosts_of d)) (written_name c)
          (written_name d) (v.name_at h) (apart.hosts h))
      (λ h.
        either_first (is_among h (behind_of c)) (is_among h (behind_of d)) (written_name c)
          (written_name d) (v.name_behind h) (apart.behind h))

both_written :
    (c d : Command) (p : ProxyState)
    → view (perform c (perform d p).1).1 ≡ written c (written d (view p))
both_written c d p =
    (perform-spec c (perform d p).1).1
    ∙ spec-written c (view (perform d p).1)
    ∙ ap (written c) ((perform-spec d p).1 ∙ spec-written d (view p))

-- Two requests that write no name, hostname or host of a backend in common may come in any order:
-- the proxy ends with the same routes, up to the order of the entries of its maps.
pub requests_comm :
    (c d : Command) (q : Routes)
    → AreIndependent c d
    → performed c (performed d q) ≡ performed d (performed c q)
unfolding performed
requests_comm c d q apart =
    Quot.ind {β = λ q. performed c (performed d q) ≡ performed d (performed c q)}
      (λ q. Quot-set _ _)
      (λ p.
        Quot.sound
          (both_written c d p ∙ written_comm c d (view p) apart ∙ sym (both_written d c p)))
      q
