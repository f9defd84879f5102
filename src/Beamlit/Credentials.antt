-- ===== src/Beamlit/Credentials.antt =====
-- The credentials that a token holds.
use beamlit_controller.Base.{
  ℕ, All, List, [], ◌∷◌, ◌++◌, Text, Text_Eq, bytes, Result, ok, nat_eq, Bool-cases, ◌==◌, ◌⊎◌, ◌≡◌,
  ◌≢◌, ◌↔◌, refl, sym, ap, text_eq_iff, ◌∙◌, arith, inl, inr,
}
use mathlib.Core.Path.{subst}
use beamlit_controller.Beamlit.Token.{
  Environment, Credentials, base_url_of, split, onto_first, credentials, retrieve_info_from_env,
}

abbrev pub HasNo : ℕ → Text → Type 0
HasNo separator t = All (λ b. b ≢ separator) t

abbrev join : ℕ → List Text → Text
join separator [] = []
join separator (p ∷ []) = p
join separator (p ∷ q ∷ ps) = p ++ separator ∷ join separator (q ∷ ps)

module _ (separator : ℕ) where
  onto_first-parts :
      (b : ℕ) (ps : List Text)
      → b ≢ separator
      → All (HasNo separator) ps
      → All (HasNo separator) (onto_first b ps)
  onto_first-parts b [] n h = ((n, tt), tt)
  onto_first-parts b (p ∷ ps) n h = ((n, h.0), h.1)

  split-parts : (t : Text) → All (HasNo separator) (split separator t)
  unfolding split
  split-parts [] = (tt, tt)
  split-parts (b ∷ bs) = elim (Bool-cases (nat_eq b separator)) [
    | inl e ↦ rw e (tt, split-parts bs)
    | inr e ↦ rw e (onto_first-parts b (split separator bs) (ground arith) (split-parts bs))
  ]

  join-onto_first :
      (b : ℕ) (ps : List Text) → join separator (onto_first b ps) ≡ b ∷ join separator ps
  join-onto_first b [] = refl
  join-onto_first b (p ∷ []) = refl
  join-onto_first b (p ∷ q ∷ ps) = refl

  split-ne-nil : (t : Text) → split separator t ≢ []
  unfolding split
  split-ne-nil [] h = cc
  split-ne-nil (b ∷ bs) h = ground (arith, split-ne-nil bs)

  join-split : (t : Text) → join separator (split separator t) ≡ t
  unfolding split
  join-split [] = refl
  join-split (b ∷ bs) = elim (Bool-cases (nat_eq b separator)) [
    | inl e ↦
        rw e (join_nil (split separator bs) (split-ne-nil bs) ∙ ground (arith, join-split bs, e))
    | inr e ↦ rw e (join-onto_first b (split separator bs) ∙ ap (λ t. b ∷ t) (join-split bs))
  ]
    where
      join_nil :
          (ps : List Text) → ps ≢ [] → join separator ([] ∷ ps) ≡ separator ∷ join separator ps
      join_nil [] h = absurd (h refl)
      join_nil (p ∷ ps) h = refl

  split-append :
      (i s : Text)
      → HasNo separator i
      → split separator (i ++ separator ∷ s) ≡ i ∷ split separator s
  unfolding split
  split-append [] s h = ground arith
  split-append (b ∷ bs) s h = ground (arith, split-append bs s h.1, h.0)

  split-whole : (s : Text) → HasNo separator s → split separator s ≡ s ∷ []
  unfolding split
  split-whole [] h = refl
  split-whole (b ∷ bs) h = ground (arith, split-whole bs h.1, h.0)

-- The two parts of a text with a colon.
abbrev pub IsPair : Credentials → Text → Type 0
IsPair c t =
    (c.client_id ++ 58 ∷ c.client_secret ≡ t) × HasNo 58 c.client_id × HasNo 58 c.client_secret

parts_of :
    (url : Text) (c : Credentials) (ps : List Text)
    → credentials url ps ≡ ok c
    → (ps ≡ c.client_id ∷ c.client_secret ∷ []) × (c.base_url ≡ url)
parts_of url c [] h = cc
parts_of url c (p ∷ []) h = cc
parts_of url c (p ∷ q ∷ []) h = ground arith
parts_of url c (p ∷ q ∷ r ∷ ps) h = cc

-- The URL that the environment gives, or else the default one.
abbrev pub IsUrl : Environment → Text → Type 0
IsUrl e u =
    ((e.base_url ≡ []) × (u ≡ bytes "https://api.beamlit.com/v0"))
    ⊎ ((e.base_url ≢ []) × (u ≡ e.base_url))

url_lem : (e : Environment) (u : Text) → (u ≡ base_url_of e) ↔ IsUrl e u
url_lem e u = elim (Bool-cases (e.base_url == [])) [
  | inl p ↦ rw p (
    λ h. inl ((text_eq_iff e.base_url []).0 p, h),
    λ h. ground (arith, h, text_eq_iff e.base_url [], p),
  )
  | inr p ↦ rw p (
    λ h. inr (λ x. ground (arith, text_eq_iff e.base_url [], p, x), h),
    λ h. ground (arith, h, text_eq_iff e.base_url [], p),
  )
]

module _ (decode : Text → Result Text) (e : Environment) (t : Text) (given : e.token ≢ [])
    (decodes : decode e.token ≡ ok t) where
  retrieved : retrieve_info_from_env decode e ≡ credentials (base_url_of e) (split 58 t)
  unfolding retrieve_info_from_env
  retrieved = ground (arith, text_eq_iff e.token [], decodes)

  -- From a token that decodes to the text `t`, the client reads the credentials `c` exactly if `t`
  -- is the identifier and the secret of `c` with one colon between them, and the URL of `c` is
  -- that of the environment, or https://api.beamlit.com/v0 where the environment gives none. It
  -- supposes that the environment gives a token.
  pub credentials_read :
      (c : Credentials)
      → (retrieve_info_from_env decode e ≡ ok c) ↔ (IsPair c t × IsUrl e c.base_url)
  credentials_read c = (
    λ h.
        let (parts, url) = parts_of (base_url_of e) c (split 58 t) (sym retrieved ∙ h) in
        let free = subst (All (HasNo 58)) parts (split-parts 58 t) in
        (
          (sym (ap (join 58) parts) ∙ join-split 58 t, free.0, free.1.0),
          (url_lem e c.base_url).0 url,
        ),
    λ h.
        let ((whole, no_id, no_secret), url) = h in
        let same_url = (url_lem e c.base_url).1 url in
        retrieved
        ∙ rw (sym whole) (
            rw
              (
                split-append 58 c.client_id c.client_secret no_id,
                split-whole 58 c.client_secret no_secret,
              )
              (ground arith)),
  )
