-- ===== src/Gateway/Retries.antt =====
-- What the client gets when a backend cannot be reached.
use beamlit_controller.Base.{
  Option, none, some, List, [], ◌∷◌, ◌++◌, Text, Text_Eq, bytes, ℤ, ℤ_Eq, pos, Act, Result, Error,
  ok, err, panic, lookup, ◌==◌, ◌≡◌, ◌↔◌, ◌≢◌, failure, refl, arith, catch, handle_error,
  Bool-cases, inl, inr, text_eq_iff,
}
use beamlit_controller.Base.Keeps.{Keeps, Ends, Ends-bind, Ends-Keeps, keeps_rules}
use beamlit_controller.Gateway.Types.{Backend}
use beamlit_controller.Gateway.InMem
use beamlit_controller.Gateway.Proxy.{extract_host, get_route}
use beamlit_controller.Gateway.Pick.{WeightedBackend}
use beamlit_controller.Gateway.Handler.{
  Net, Request, Response, Exchange, outside, candidates, total_weight, pass_on, direct, write_head,
  write_body, retry_with, attempt, try_then, pause, write, written_status, handle_error_of,
  error_handler,
}

-- A status was written to the client.
pub record IsAnswered {W : Type 0} (e : Exchange W) : Type 0 where
  pub code : ℤ
  pub written : e.writer.status ≡ some code

written_status-some : (o : Option ℤ) (c : ℤ) → (code : ℤ) × (written_status o c ≡ some code)
written_status-some none c = (c, refl)
written_status-some (some a) c = (a, refl)

Ends-catch :
    {S A : Type 0} {Q : S → Type 0} (m : Act S A) (h : Error → Act S A)
    → Ends Q m
    → ((e : Error) → Ends Q (h e))
    → Ends Q (catch m h)
Ends-catch {S} {A} {Q} m h em eh = record { at = λ s a p. by_result (m s).0 (m s).1 a (em.at s) p }
  where
    by_result :
        (r : Result A) (s : S) (a : A)
        → ((b : A) → r ≡ ok b → Q s)
        → (handle_error r h s).0 ≡ ok a
        → Q (handle_error r h s).1
    by_result (ok b) s a q p = q b refl
    by_result (err c) s a q p = (eh c).at s a p
    by_result panic s a q p = cc

module _ {W : Type 0} (net : Net W) where
  outside-IsAnswered : {A : Type 0} (m : Act W A) → Keeps IsAnswered (outside m)
  outside-IsAnswered m = record { at = λ e h. record { code = h.code; written = h.written } }

  write-IsAnswered : (c : ℤ) (t : Text) → Ends IsAnswered (write net c t)
  write-IsAnswered c t = record {
    at = λ e a h.
        let (code, p) = written_status-some e.writer.status c in
        record { code = code; written = p };
  }

  write_head-IsAnswered : (r : Response) → Ends IsAnswered (write_head net r)
  write_head-IsAnswered r = record {
    at = λ e a h.
        let (code, p) = written_status-some e.writer.status r.status_code in
        record { code = code; written = p };
  }

  write_body-IsAnswered : (t : Text) → Keeps IsAnswered (write_body net t)
  write_body-IsAnswered t = record { at = λ e h. record { code = h.code; written = h.written } }

  pass_on-IsAnswered : (r : Response) → Ends IsAnswered (pass_on net r)
  unfolding pass_on
  pass_on-IsAnswered r =
      search
        (Ends-Keeps, keeps_rules, write_head-IsAnswered, outside-IsAnswered, write_body-IsAnswered)
        depth 12

  retry_with-IsAnswered : (bs : List WeightedBackend) → Ends IsAnswered (retry_with net bs)
  unfolding retry_with
  retry_with-IsAnswered bs = elim (Bool-cases (total_weight bs == pos 0)) [
    | inl p ↦ rw p (record { at = λ e a h. ground arith })
    | inr p ↦ rw p (search (Ends-bind, pass_on-IsAnswered) depth 16)
  ]

  attempt-IsAnswered : (name : Text) → Ends IsAnswered (attempt net name)
  unfolding attempt
  attempt-IsAnswered name = search (Ends-bind, retry_with-IsAnswered) depth 16

  try_then-IsAnswered :
      (name : Text) (delay : _) (rest : Act (Exchange W) (Unit {0}))
      → Ends IsAnswered rest
      → Ends IsAnswered (try_then net name delay rest)
  try_then-IsAnswered name delay rest h =
      Ends-catch _ _ (attempt-IsAnswered name) λ _. Ends-bind (pause net delay) (λ _. rest) (λ _. h)

  handle_error_of-IsAnswered : (o : Option Text) → Ends IsAnswered (handle_error_of net o)
  handle_error_of-IsAnswered none = write-IsAnswered _ _
  handle_error_of-IsAnswered (some name) = try_then-IsAnswered name _ _ (
      try_then-IsAnswered name _ _
        (try_then-IsAnswered name _ _ (try_then-IsAnswered name _ _ (write-IsAnswered _ _))))

  never_fails : (o : Option Text) (e : Exchange W) (c : Error) → (handle_error_of net o e).0 ≢ err c
  never_fails none e c h = cc
  never_fails (some name) e c h = ground arith

  -- ErrorHandler returns no error, and when it returns, a status was written to the client:
  -- whatever the routes are, and whatever the retries lead to.
  pub error_handler-IsAnswered :
      (e : Exchange W)
      → ((c : Error) → (error_handler net e).0 ≢ err c)
        × ((error_handler net e).0 ≡ ok tt → IsAnswered (error_handler net e).1)
  unfolding error_handler
  error_handler-IsAnswered e =
      let name = lookup e.request.host e.proxy.backend_host_to_route in
      (λ c. never_fails name e c, λ h. (handle_error_of-IsAnswered name).at e tt h)

  attempt-stale :
      (name : Text) (e : Exchange W)
      → lookup name e.proxy.routes ≡ none
      → attempt net name e ≡ (err (failure "not found"), e)
  unfolding attempt get_route InMem.get_route
  attempt-stale name e gone = rw gone refl

  -- If the host of a backend still leads to a route that was deleted, ErrorHandler tries four
  -- times, sends nothing, and answers that the service is unavailable. The pauses between the
  -- tries are 10, 11, 8 and 9 milliseconds, not powers of ten.
  pub stale_route_unavailable :
      (name : Text) (e : Exchange W)
      → lookup e.request.host e.proxy.backend_host_to_route ≡ some name
      → lookup name e.proxy.routes ≡ none
      → error_handler net e ≡ (
        ok tt,
        record e {
          writer = record e.writer {
            status = written_status e.writer.status (pos 503);
            body = e.writer.body ++ bytes "service unavailable";
          };
          world = net.sleep 9 (net.sleep 8 (net.sleep 11 (net.sleep 10 e.world)));
        },
      )
  unfolding error_handler
  stale_route_unavailable name e host gone =
      let w0 = e.world in
      let w1 = net.sleep 10 w0 in
      let w2 = net.sleep 11 w1 in
      let w3 = net.sleep 8 w2 in
      rw
        (
          host,
          attempt-stale name e gone,
          attempt-stale name (record e { world = w1 }) gone,
          attempt-stale name (record e { world = w2 }) gone,
          attempt-stale name (record e { world = w3 }) gone,
        )
        refl

-- A retry of the request that went to a backend leaves that backend out exactly if its host has no
-- port: the request carries the host without the port, and is compared with the host as it is
-- given.
pub failing_left_out :
    {W : Type 0} (net : Net W) (b : Backend) (r : Request)
    → (candidates (λ c. c.host == (direct net b r).host) (b ∷ []) ≡ [])
      ↔ (extract_host b.host ≡ b.host)
unfolding candidates direct
failing_left_out net b r = ground (arith, text_eq_iff b.host (extract_host b.host))
