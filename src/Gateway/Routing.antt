-- ===== src/Gateway/Routing.antt =====
-- A request that is routed.
use beamlit_controller.Base.{
  ℕ, ◌+◌, ◌≤◌, ◌<◌, ◌^◌, false, none, some, List, [], ◌∷◌, ◌++◌, map, Dict, Bool-cases, inl, inr,
  ◌==◌, text_eq, text_eq_iff, All, Text, Text_Eq, ℤ_Eq, int_eq, int_eq_iff, pos, pos_part, total64,
  add64-pos, lookup, ok, ◌≡◌, ◌∙◌, ap, refl, arith,
}
use mathlib.Core.List.{foldl}
use beamlit_controller.Gateway.Types.{Backend, Route}
use beamlit_controller.Gateway.InMem
use beamlit_controller.Gateway.Proxy.{extract_host, get_route}
use beamlit_controller.Gateway.Pick.{WeightedBackend, IsCounted, weights, picked_by_weight}
use beamlit_controller.Gateway.Handler.{
  Net, Request, Exchange, authorize, add_headers, direct, handle_backend, rewrite, rewrite_route,
  weigh,
}

total64-weights :
    (a : ℕ) (bs : List WeightedBackend)
    → All IsCounted bs
    → a + weights bs < 2 ^ 63
    → total64 (pos a) (map (λ b. b.weight) bs) ≡ pos (a + weights bs)
unfolding total64
total64-weights a [] c small = ground arith
total64-weights a (b ∷ bs) c small =
    rw (c.0, add64-pos a (pos_part b.weight) (omega arith))
      (total64-weights (a + pos_part b.weight) bs c.1 (omega arith) ∙ ap pos (omega arith))

weights-append :
    (xs ys : List WeightedBackend) (b : WeightedBackend)
    → weights (xs ++ b ∷ ys) ≡ weights xs + pos_part b.weight + weights ys
weights-append [] ys b = omega arith
weights-append (x ∷ xs) ys b = let rest = weights-append xs ys b in omega (arith, rest)

All-left :
    (xs ys : List WeightedBackend) (b : WeightedBackend)
    → All IsCounted (xs ++ b ∷ ys)
    → All IsCounted xs × IsCounted b
All-left [] ys b h = (tt, h.0)
All-left (x ∷ xs) ys b h = let rest = All-left xs ys b h.1 in ((h.0, rest.0), rest.1)

-- The headers of a backend, added one after another.
abbrev pub with_headers :
    {W : Type 0} → Net W → Dict Text Text → Dict Text (List Text) → Dict Text (List Text)
with_headers net d h = foldl (λ g kv. net.add_header (kv.0) (kv.1) g) h d

add_headers_lem :
    {W : Type 0} (net : Net W) (d : Dict Text Text) (h : Dict Text (List Text))
    → add_headers net d h ≡ with_headers net d h
add_headers_lem net [] h = refl
add_headers_lem net ((k, v) ∷ d) h = add_headers_lem net d (net.add_header k v h)

direct_lem :
    {W : Type 0} (net : Net W) (b : Backend) (r : Request)
    → direct net b r ≡ record r {
      scheme = b.scheme;
      url_host = b.host;
      host = extract_host b.host;
      header = with_headers net b.headers_to_add r.header;
      path = b.path_prefix ++ r.path;
    }
unfolding direct text_eq
direct_lem net b r =
    rw (add_headers_lem net b.headers_to_add r.header) (elim (Bool-cases (b.path_prefix == [])) [
      | inl e ↦ rw ((text_eq_iff b.path_prefix []).0 e) refl
      | inr e ↦ rw e refl
    ])

-- A request whose host is that of a route goes to the backend whose share of the weights the draw
-- falls into: with its scheme and host, its prefix before the path, its headers added in their order,
-- and then those of the forwarding, and nothing else changes. It supposes that no weight is negative, that their sum is
-- below 2 ^ 63, and that the backend asks for no authorization.
pub rewrite_routed :
    {W : Type 0} (net : Net W) (e : Exchange W) (in_request : Request) (name : Text) (route : Route)
    (xs ys : List WeightedBackend) (b : WeightedBackend) (r : ℕ) (v : W)
    → lookup (extract_host in_request.host) e.proxy.routes_per_host ≡ some name
    → lookup name e.proxy.routes ≡ some route
    → map weigh route.backends ≡ xs ++ b ∷ ys
    → b.backend.auth ≡ none
    → All IsCounted (xs ++ b ∷ ys)
    → weights (xs ++ b ∷ ys) < 2 ^ 63
    → net.intn (pos (weights (xs ++ b ∷ ys))) e.world ≡ (ok (pos r), v)
    → weights xs ≤ r
    → r < weights xs + pos_part b.weight
    → rewrite net in_request e ≡ (
      ok tt,
      record e {
        request = record e.request {
          scheme = b.backend.scheme;
          url_host = b.backend.host;
          host = extract_host b.backend.host;
          header =
              net.x_forwarded in_request
                (with_headers net b.backend.headers_to_add e.request.header);
          path = b.backend.path_prefix ++ e.request.path;
        };
        world = v;
      },
    )
unfolding rewrite rewrite_route get_route InMem.get_route handle_backend authorize
rewrite_routed net e in_request name route xs ys b r v host stored backends bare counted small drawn
      low high =
    let size = weights-append xs ys b in
    let (left, here) = All-left xs ys b counted in
    let zero_more : 0 + weights (xs ++ b ∷ ys) ≡ weights (xs ++ b ∷ ys) = omega arith in
    let total = total64-weights 0 (xs ++ b ∷ ys) counted (omega arith) ∙ ap pos zero_more in
    let nonzero : int_eq (pos (weights (xs ++ b ∷ ys))) (pos 0) ≡ false =
      ground (arith, size, int_eq_iff (pos (weights (xs ++ b ∷ ys))) (pos 0)) in
    let chosen =
      picked_by_weight net.intn e.world v xs ys b r (pos (weights (xs ++ b ∷ ys))) drawn left here
        (omega (arith, size)) low high in
    rw (host, stored, backends, total, nonzero, chosen, bare) refl
    ∙ ap
        (λ (q : Request). (
          ok tt,
          record e {
            request = record q { header = net.x_forwarded in_request q.header };
            world = v;
          },
        ))
        (direct_lem net b.backend e.request)
