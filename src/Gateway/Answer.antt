-- ===== src/Gateway/Answer.antt =====
-- ModifyResponse of gateway/internal/proxy/handler.go: an answer that reports an error is replaced
-- by the answer of another backend.
use beamlit_controller.Base.{
  true, ◌&&◌, Option, none, some, List, Text, Text_Eq, lookup, ℤ_Eq, pos, ltb_ℤ, Act, Result, ok,
  err, panic, pure, lift, gets, ◌>>=◌, ◌>>◌, ◌==◌, ◌≡◌, ◌⊎◌, inl, inr, refl, arith, if◌then◌else◌,
  continue, Bool-cases,
}
use beamlit_controller.Gateway.Types.{Route}
use beamlit_controller.Gateway.Pick.{WeightedBackend, weighted_random_backend}
use beamlit_controller.Gateway.Handler.{
  Response, Net, Exchange, outside, change, candidates, strip_prefixes, total_weight, found_route,
  handle_backend, copy_headers,
}

abbrev pub not_found_answer : Response → Response
not_found_answer response = record response { status_code = pos 404 }

module _ {W : Type 0} (net : Net W) where
  -- The answer of the other backend; its body is closed by the deferred call.
  abbrev pub replaced : Response → Response → Response
  replaced response answer = record answer {
    header = copy_headers net answer.header response.header;
    closed = true;
  }

  unfoldable pub redirect : Response → List WeightedBackend → Act (Exchange W) Response
  redirect response bs = if total_weight bs == pos 0 then pure response else do
    backend ← outside (weighted_random_backend net.intn bs (total_weight bs))
    handle_backend net backend
    r ← gets (λ e. e.request)
    made ← lift (net.new_request r)
    answer ← outside (net.send (record made { header = r.header }))
    pure (replaced response answer)

  abbrev pub answer_for : Response → Option Route → Act (Exchange W) Response
  answer_for response none = pure (not_found_answer response)
  answer_for response (some route) = do
    request ← gets (λ e. e.request)
    change (λ r. record r {
      path =
          strip_prefixes (λ b. b.host == request.host && b.scheme == request.scheme) route.backends
            r.path;
    })
    redirect response
        (candidates (λ b. b.host == request.host && b.scheme == request.scheme) route.backends)

  abbrev pub answer_by : Response → Option Text → Act (Exchange W) Response
  answer_by response none = pure (not_found_answer response)
  answer_by response (some name) = do route ← found_route net name; answer_for response route

  unfoldable pub modify_response : Response → Act (Exchange W) Response
  unfolding redirect
  modify_response response = if ltb_ℤ response.status_code (pos 399) then pure response else do
    name ← gets (λ e. lookup e.request.host e.proxy.backend_host_to_route)
    answer_by response name

  -- What an answer may be in the end.
  abbrev pub IsOutcome : Response → Response → Type 0
  IsOutcome response x = (x.body ≡ response.body) × (x.closed ≡ response.closed) ⊎ (x.closed ≡ true)

  -- An action that can only return such an answer.
  record Yields (response : Response) (m : Act (Exchange W) Response) : Type 0 where
    at : (e : Exchange W) (x : Response) → (m e).0 ≡ ok x → IsOutcome response x

  yielded :
      {A : Type 0} (response : Response) (r : Result A) (f : A → Act (Exchange W) Response)
      (e : Exchange W) (x : Response)
      → ((a : A) → Yields response (f a))
      → (continue r f e).0 ≡ ok x
      → IsOutcome response x
  yielded response (ok a) f e x y h = (y a).at e x h
  yielded response (err c) f e x y h = cc
  yielded response panic f e x y h = cc

  Yields-bind :
      {A : Type 0} (response : Response) (m : Act (Exchange W) A)
      (f : A → Act (Exchange W) Response)
      → ((a : A) → Yields response (f a))
      → Yields response (m >>= f)
  Yields-bind response m f y = record { at = λ e x h. yielded response (m e).0 f (m e).1 x y h }

  Yields-pure : (response x : Response) → IsOutcome response x → Yields response (pure x)
  Yields-pure response x o = record { at = λ e y h. ground (arith, o) }

  redirect-Yields :
      (response : Response) (bs : List WeightedBackend) → Yields response (redirect response bs)
  unfolding redirect
  redirect-Yields response bs = elim (Bool-cases (total_weight bs == pos 0)) [
    | inl p ↦ rw p (Yields-pure response response (inl (refl, refl)))
    | inr p ↦ rw p (search (Yields-bind, redirected) depth 12)
  ]
    where
      redirected : (answer : Response) → Yields response (pure (replaced response answer))
      redirected answer = Yields-pure response (replaced response answer) (inr refl)

  unchanged : (response : Response) → Yields response (pure (not_found_answer response))
  unchanged response = Yields-pure response (not_found_answer response) (inl (refl, refl))

  answer_for-Yields :
      (response : Response) (o : Option Route) → Yields response (answer_for response o)
  answer_for-Yields response none = unchanged response
  answer_for-Yields response (some route) = search (Yields-bind, redirect-Yields) depth 12

  answer_by-Yields :
      (response : Response) (o : Option Text) → Yields response (answer_by response o)
  answer_by-Yields response none = unchanged response
  answer_by-Yields response (some name) = search (Yields-bind, answer_for-Yields) depth 12

  modify_response-Yields : (response : Response) → Yields response (modify_response response)
  unfolding modify_response
  modify_response-Yields response = elim (Bool-cases (ltb_ℤ response.status_code (pos 399))) [
    | inl p ↦ rw p (Yields-pure response response (inl (refl, refl)))
    | inr p ↦ rw p (search (Yields-bind, answer_by-Yields) depth 12)
  ]

  -- If ModifyResponse returns an answer, then its body is that of the answer it was called with, as
  -- open or closed as it was, or the body is closed already when it returns.
  pub replaced_body_closed :
      (response x : Response) (e : Exchange W)
      → (modify_response response e).0 ≡ ok x
      → IsOutcome response x
  replaced_body_closed response x e h = (modify_response-Yields response).at e x h
