-- ===== src/Gateway/Life/Traffic.antt =====
-- The requests that the gateway passes on leave its routes.
use beamlit_controller.Base.{
  ℕ, Option, none, some, List, Text, Text_Eq, ℤ, ℤ_Eq, Act, lookup, ◌≡◌, refl,
}
use beamlit_controller.Base.Keeps.{Keeps, keeps_rules}
use beamlit_controller.Gateway.Types.{AuthType, oauth, other, Auth, Backend, Route}
use beamlit_controller.Gateway.InMem
use beamlit_controller.Gateway.Proxy.{ProxyState, get_route}
use beamlit_controller.Gateway.Pick.{WeightedBackend}
use beamlit_controller.Gateway.Handler.{
  Net, Request, Response, Exchange, outside, in_proxy, change, authorize_by, authorize,
  handle_backend, answer_not_found, found_route, rewrite_route, rewrite_name, rewrite, write,
  write_head, write_body, pass_on, retry_with, attempt, pause, handle_error_of, error_handler,
}
use beamlit_controller.Gateway.Answer.{redirect, answer_for, answer_by, modify_response}

-- Looking a route up leaves the routes.
pub found-keeps : {S : Type 0} (o : Option Route) (s : S) → (InMem.found o s).1 ≡ s
found-keeps none s = refl
found-keeps (some route) s = refl

-- The proxy of an exchange.
pub record HasProxy {W : Type 0} (p : ProxyState) (e : Exchange W) : Type 0 where
  pub same : e.proxy ≡ p

pub proxy_kept :
    {W A : Type 0} {m : Act (Exchange W) A} {p : ProxyState}
    → Keeps (HasProxy p) m
    → (e : Exchange W) → e.proxy ≡ p
    → (m e).1.proxy ≡ p
proxy_kept k e h = let after = k.at e (record { same = h }) in after.same

module _ {W : Type 0} (net : Net W) (p : ProxyState) where
  outside-HasProxy : {A : Type 0} (m : Act W A) → Keeps (HasProxy p) (outside m)
  outside-HasProxy m = record { at = λ e h. record { same = h.same } }

  change-HasProxy : (f : Request → Request) → Keeps (HasProxy {W = W} p) (change f)
  change-HasProxy f = record { at = λ e h. record { same = h.same } }

  write-HasProxy : (c : ℤ) (t : Text) → Keeps (HasProxy p) (write net c t)
  write-HasProxy c t = record { at = λ e h. record { same = h.same } }

  write_head-HasProxy : (r : Response) → Keeps (HasProxy p) (write_head net r)
  write_head-HasProxy r = record { at = λ e h. record { same = h.same } }

  write_body-HasProxy : (t : Text) → Keeps (HasProxy p) (write_body net t)
  write_body-HasProxy t = record { at = λ e h. record { same = h.same } }

  pause-HasProxy : (n : ℕ) → Keeps (HasProxy p) (pause net n)
  pause-HasProxy n = record { at = λ e h. record { same = h.same } }

  get_route-HasProxy : (name : Text) → Keeps (HasProxy {W = W} p) (in_proxy (get_route name))
  unfolding get_route InMem.get_route
  get_route-HasProxy name = record {
    at = λ e h. record {
      same = rw (found-keeps (lookup name e.proxy.routes) e.proxy.routes) (h.same);
    };
  }

  ruleset proxy_rules = (
    keeps_rules, outside-HasProxy, change-HasProxy, write-HasProxy, write_head-HasProxy,
    write_body-HasProxy, pause-HasProxy, get_route-HasProxy,
  )

  authorize_by-HasProxy : (t : AuthType) (a : Auth) → Keeps (HasProxy p) (authorize_by net t a)
  unfolding authorize_by
  authorize_by-HasProxy oauth a = search proxy_rules depth 12
  authorize_by-HasProxy (other s) a = search proxy_rules

  authorize-HasProxy : (o : Option Auth) → Keeps (HasProxy p) (authorize net o)
  unfolding authorize
  authorize-HasProxy none = search proxy_rules
  authorize-HasProxy (some a) = authorize_by-HasProxy a.type a

  handle_backend-HasProxy : (b : Backend) → Keeps (HasProxy p) (handle_backend net b)
  unfolding handle_backend
  handle_backend-HasProxy b = search (proxy_rules, authorize-HasProxy)

  answer_not_found-HasProxy : Keeps (HasProxy p) (answer_not_found net)
  unfolding answer_not_found
  answer_not_found-HasProxy = search proxy_rules depth 12

  found_route-HasProxy : (name : Text) → Keeps (HasProxy p) (found_route net name)
  found_route-HasProxy name = search proxy_rules depth 12

  rewrite_route-HasProxy :
      (r : Request) (o : Option Route) → Keeps (HasProxy p) (rewrite_route net r o)
  unfolding rewrite_route
  rewrite_route-HasProxy r none = answer_not_found-HasProxy
  rewrite_route-HasProxy r (some route) = search (proxy_rules, handle_backend-HasProxy) depth 16

  rewrite_name-HasProxy :
      (r : Request) (o : Option Text) → Keeps (HasProxy p) (rewrite_name net r o)
  rewrite_name-HasProxy r none = answer_not_found-HasProxy
  rewrite_name-HasProxy r (some name) =
      search (proxy_rules, found_route-HasProxy, rewrite_route-HasProxy) depth 12

  pub rewrite-HasProxy : (r : Request) → Keeps (HasProxy p) (rewrite net r)
  unfolding rewrite
  rewrite-HasProxy r = search (proxy_rules, rewrite_name-HasProxy) depth 12

  redirect-HasProxy :
      (r : Response) (bs : List WeightedBackend) → Keeps (HasProxy p) (redirect net r bs)
  unfolding redirect
  redirect-HasProxy r bs = search (proxy_rules, handle_backend-HasProxy) depth 20

  answer_for-HasProxy : (r : Response) (o : Option Route) → Keeps (HasProxy p) (answer_for net r o)
  answer_for-HasProxy r none = search proxy_rules
  answer_for-HasProxy r (some route) = search (proxy_rules, redirect-HasProxy) depth 12

  answer_by-HasProxy : (r : Response) (o : Option Text) → Keeps (HasProxy p) (answer_by net r o)
  answer_by-HasProxy r none = search proxy_rules
  answer_by-HasProxy r (some name) =
      search (proxy_rules, found_route-HasProxy, answer_for-HasProxy) depth 12

  pub modify_response-HasProxy : (r : Response) → Keeps (HasProxy p) (modify_response net r)
  unfolding modify_response
  modify_response-HasProxy r = search (proxy_rules, answer_by-HasProxy) depth 12

  pass_on-HasProxy : (r : Response) → Keeps (HasProxy p) (pass_on net r)
  unfolding pass_on
  pass_on-HasProxy r = search proxy_rules depth 12

  retry_with-HasProxy : (bs : List WeightedBackend) → Keeps (HasProxy p) (retry_with net bs)
  unfolding retry_with
  retry_with-HasProxy bs = search (proxy_rules, handle_backend-HasProxy, pass_on-HasProxy) depth 20

  attempt-HasProxy : (name : Text) → Keeps (HasProxy p) (attempt net name)
  unfolding attempt
  attempt-HasProxy name = search (proxy_rules, retry_with-HasProxy) depth 16

  handle_error_of-HasProxy : (o : Option Text) → Keeps (HasProxy p) (handle_error_of net o)
  handle_error_of-HasProxy none = search proxy_rules
  handle_error_of-HasProxy (some name) = search (proxy_rules, attempt-HasProxy) depth 30

  pub error_handler-HasProxy : Keeps (HasProxy p) (error_handler net)
  unfolding error_handler
  error_handler-HasProxy = search (proxy_rules, handle_error_of-HasProxy) depth 12
