-- ===== src/Configurer/Fronted.antt =====
-- addPortToGatewayService: the gateway service as it is updated.
use beamlit_controller.Base.{
  All, Bool, true, false, not, List, [], ◌∷◌, ◌++◌, Text, Text_Eq, text_eq_iff, int_eq_iff,
  text_eq_iff, ap, ◌==◌, ℤ_Eq, ℤ, ℤ_Eq, ◌&&◌, ◌||◌, ◌⊎◌, inl, inr, ◌≡◌, ◌≢◌, refl, sym, ◌∙◌, arith,
  if◌then◌else◌,
}
use beamlit_controller.Deployment.{ServiceReference}
use beamlit_controller.Configurer.Cluster.{ServicePort, Service}
use beamlit_controller.Configurer.Gateway.{
  contains_text, without, find_port, has_port, port_to_add, with_port, fronted,
}

contains-without :
    (seen xs : List Text) (x : Text)
    → contains_text (without seen xs) x ≡ (contains_text xs x && not (contains_text seen x))
unfolding without
contains-without seen [] x = refl
contains-without seen (y ∷ ys) x = ground (arith, text_eq_iff y x, contains-without seen ys x)

has_port-append :
    (n : ℤ) (q : Text) (xs ys : List ServicePort)
    → has_port n q (xs ++ ys) ≡ (has_port n q xs || has_port n q ys)
unfolding has_port
has_port-append n q [] ys = refl
has_port-append n q (x ∷ xs) ys = ground (arith, has_port-append n q xs ys)

has_port-if :
    (n : ℤ) (q : Text) (b f : Bool) (xs ys : List ServicePort)
    → has_port n q ys ≡ (has_port n q xs || f)
    → (b ≡ true → f ≡ true → has_port n q xs ≡ true)
    → has_port n q (if b then xs else ys) ≡ (has_port n q xs || f)
has_port-if n q true f xs ys hy hx = ground (arith, hx)
has_port-if n q false f xs ys hy hx = hy

module _ (gateway ref : ServiceReference) (p : Text) where
  abbrev added : List ServicePort
  added = port_to_add gateway ref p ∷ []

  has_port-added :
      (n : ℤ) (q : Text)
      → has_port n q (port_to_add gateway ref p ∷ []) ≡ (ref.target_port == n && p == q)
  unfolding has_port
  has_port-added n q = ground arith

  has_port-same :
      (n : ℤ) (q : Text) (ports : List ServicePort)
      → has_port ref.target_port p ports ≡ true
      → (ref.target_port == n && p == q) ≡ true
      → has_port n q ports ≡ true
  has_port-same n q ports h e = ground (arith, int_eq_iff ref.target_port n, text_eq_iff p q)

  has_port-with_port :
      (n : ℤ) (q : Text) (ports : List ServicePort)
      → has_port n q (with_port gateway ref p ports)
        ≡ (has_port n q ports || ref.target_port == n && p == q)
  unfolding with_port
  has_port-with_port n q ports =
      has_port-if n q (has_port ref.target_port p ports) (ref.target_port == n && p == q) ports
        (ports ++ added)
        (has_port-append n q ports added ∙ ap (λ b. has_port n q ports || b) (has_port-added n q))
        (has_port-same n q ports)

-- The protocol of the first port with the number `n`, and no text where there is none.
abbrev pub IsProtocolOf : ℤ → List ServicePort → Text → Type 0
IsProtocolOf n ports t =
    ((before after : List ServicePort) × (port : ServicePort) × (ports ≡ before ++ port ∷ after)
      × All (λ x. x.port ≢ n) before
      × (port.port ≡ n)
      × (t ≡ port.protocol))
    ⊎ (All (λ x. x.port ≢ n) ports × (t ≡ []))

find_port-first :
    (n : ℤ) (before after : List ServicePort) (port : ServicePort)
    → All (λ x. x.port ≢ n) before
    → port.port ≡ n
    → find_port n (before ++ port ∷ after) ≡ port
unfolding find_port
find_port-first n [] after port h e = ground (arith, int_eq_iff port.port n)
find_port-first n (x ∷ xs) after port h e =
    ground (arith, int_eq_iff x.port n, find_port-first n xs after port h.1 e, h.0)

find_port-none :
    (n : ℤ) (ports : List ServicePort)
    → All (λ x. x.port ≢ n) ports
    → (find_port n ports).protocol ≡ []
unfolding find_port
find_port-none n [] h = refl
find_port-none n (x ∷ xs) h = ground (arith, int_eq_iff x.port n, find_port-none n xs h.1, h.0)

find_port_protocol :
    (n : ℤ) (ports : List ServicePort) (t : Text)
    → IsProtocolOf n ports t
    → (find_port n ports).protocol ≡ t
find_port_protocol n ports t (inl (before, after, port, split, none_before, here, is)) =
    rw (split, find_port-first n before after port none_before here) (sym is)
find_port_protocol n ports t (inr (none, is)) = find_port-none n ports none ∙ sym is

-- What addPortToGatewayService makes of the gateway service `g` for the service `s`, of which the
-- first port with the target port of the reference has the protocol `t`, or which has no such port
-- while `t` is empty: its external IPs are the cluster IPs of `s` that it did not have, and only
-- those; and it serves what it served before, and the target port of the reference with the
-- protocol `t`.
pub fronted-serves :
    (gateway ref : ServiceReference) (g s : Service) (t : Text)
    → IsProtocolOf ref.target_port s.ports t
    → ((x : Text)
        → contains_text (fronted gateway ref g s).external_ips x
          ≡ (contains_text s.cluster_ips x && not (contains_text g.external_ips x)))
      × ((n : ℤ) (q : Text)
          → has_port n q (fronted gateway ref g s).ports
            ≡ (has_port n q g.ports || ref.target_port == n && t == q))
unfolding fronted
fronted-serves gateway ref g s t is = rw (find_port_protocol ref.target_port s.ports t is) (
  contains-without g.external_ips s.cluster_ips,
  λ n q. has_port-with_port gateway ref t n q g.ports,
)
