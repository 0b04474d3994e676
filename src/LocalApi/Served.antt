-- ===== src/LocalApi/Served.antt =====
-- localapi/server.go with the origins of config/config.go: to whom the code of the computer is told.
use freedesk.Prelude.{
  ◌≡◌, refl, ◌∙◌, sym, ap, subst, Bool, true, false, not, ◌&&◌, ◌||◌, List, [], ◌∷◌, ◌++◌, ◌↔◌,
  Text, text, any, any-append, eq_text, eq_text_iff, is_empty, trim_space, if◌then◌else◌,
  Bool-cases, inl, inr,
}
use freedesk.Config.Origins.{
  split_commas, trim_slashes, extra_origins, site_origins, dev_origins, web_origins,
}
use freedesk.LocalApi.{
  Identity, Reply, found, forbidden, is_allowed, handle, Event, request, update, serve,
}

abbrev pub is_origin_of : Text → Text → Bool
is_origin_of site o = any (λ s. eq_text s o) (site_origins site)

-- A piece of the setting, but for spaces around it and slashes at its end.
abbrev pub is_piece : Text → Text → Bool
is_piece o p = not (is_empty (trim_space p)) && eq_text (trim_slashes (trim_space p)) o

-- The two sites, the server of the developers, and what the setting adds.
abbrev pub is_trusted : (project_id hosting_site extra : Text) → Text → Bool
is_trusted project_id hosting_site extra o =
    is_origin_of project_id o
    || ((not (is_empty (trim_space hosting_site)) && is_origin_of (trim_space hosting_site) o)
        || (any (λ s. eq_text s o) dev_origins || any (is_piece o) (split_commas extra)))

any-extra_origins :
    (o : Text) (ps : List Text) → any (λ s. eq_text s o) (extra_origins ps) ≡ any (is_piece o) ps
unfolding extra_origins
any-extra_origins o [] = refl
any-extra_origins o (p ∷ ps) = elim (Bool-cases (is_empty (trim_space p))) [
  | inl e ↦ rw e (any-extra_origins o ps)
  | inr e ↦ rw (e, any-extra_origins o ps) refl
]

or_same : (b : Bool) → (b || false) ≡ (b || b)
or_same true = refl
or_same false = refl

or_swap : (a b c d : Bool) → (a || b) ≡ (a || c) → (a || (b || d)) ≡ (a || (c || d))
or_swap true b c d e = refl
or_swap false b c d e = ap (λ x. x || d) e

own_origins :
    (project_id site o : Text)
    → (is_origin_of project_id o
        || any
            (λ s. eq_text s o)
            (if not (is_empty site) && not (eq_text site project_id)
              then site_origins site
              else []))
      ≡ (is_origin_of project_id o || (not (is_empty site) && is_origin_of site o))
own_origins project_id site o = elim (Bool-cases (is_empty site)) [
  | inl e ↦ rw e refl
  | inr e ↦ elim (Bool-cases (eq_text site project_id)) [
    | inl s ↦
        rw (e, s)
          (subst
            (λ t.
              (is_origin_of project_id o || false)
              ≡ (is_origin_of project_id o || is_origin_of t o))
            (sym ((eq_text_iff site project_id).0 s)) (or_same (is_origin_of project_id o)))
    | inr s ↦ rw (e, s) refl
  ]
]

allowed-is_trusted :
    (project_id hosting_site extra o : Text)
    → is_allowed (web_origins project_id hosting_site extra) o
      ≡ is_trusted project_id hosting_site extra o
unfolding is_allowed web_origins
allowed-is_trusted project_id hosting_site extra o =
    let site = trim_space hosting_site in
    let f = λ (s : Text). eq_text s o in
    let own =
      if not (is_empty site) && not (eq_text site project_id) then site_origins site else [] in
    let more = extra_origins (split_commas extra) in
    any-append f (site_origins project_id) (own ++ (dev_origins ++ more))
    ∙ (ap (λ b. is_origin_of project_id o || b) (any-append f own (dev_origins ++ more))
        ∙ (or_swap (is_origin_of project_id o) (any f own) _ (any f (dev_origins ++ more))
              (own_origins project_id site o)
            ∙ ap
                (λ b.
                  is_origin_of project_id o || ((not (is_empty site) && is_origin_of site o) || b))
                (any-append f dev_origins more
                  ∙ ap (λ b. any f dev_origins || b) (any-extra_origins o (split_commas extra)))))

-- What is stored after the events.
abbrev pub latest : Identity → List Event → Identity
latest id [] = id
latest id (request origin method ∷ es) = latest id es
latest id (update new ∷ es) = latest new es

serve-append :
    (allowed : List Text) (id : Identity) (es fs : List Event)
    → serve allowed id (es ++ fs) ≡ serve allowed id es ++ serve allowed (latest id es) fs
unfolding serve
serve-append allowed id [] fs = refl
serve-append allowed id (request origin method ∷ es) fs =
    ap (λ rs. handle allowed id origin method ∷ rs) (serve-append allowed id es fs)
serve-append allowed id (update new ∷ es) fs = serve-append allowed new es fs

abbrev Answers : Bool → Reply → Text → Text → Identity → Type 0
Answers b reply origin method id =
    ((reply ≡ forbidden) ↔ (b ≡ false))
    × ((reply ≡ found origin id) ↔ ((b ≡ true) × (method ≡ text "GET")))

handle-Answers :
    (allowed : List Text) (id : Identity) (origin method : Text) (b : Bool)
    → is_allowed allowed origin ≡ b
    → Answers b (handle allowed id origin method) origin method id
unfolding handle
handle-Answers allowed id origin method false e =
    rw e ((λ h. refl, λ h. refl), (λ h. absurd (cc), λ h. absurd (cc)))
handle-Answers allowed id origin method true e =
    elim (Bool-cases (eq_text method (text "OPTIONS"))) [
      | inl o ↦
          rw (e, o)
            (
              (λ h. absurd (cc), λ h. absurd (cc)),
              (λ h. absurd (cc), λ h. let z : false ≡ true = rw h.1 at o in absurd (cc)),
            )
      | inr o ↦ elim (Bool-cases (eq_text method (text "GET"))) [
        | inl y ↦
            rw (e, o, y)
              (
                (λ h. absurd (cc), λ h. absurd (cc)),
                (λ h. (refl, (eq_text_iff method (text "GET")).0 y), λ h. refl),
              )
        | inr n ↦
            rw (e, o, n)
              (
                (λ h. absurd (cc), λ h. absurd (cc)),
                (λ h. absurd (cc), λ h. let z : true ≡ false = rw h.1 at n in absurd (cc)),
              )
      ]
    ]

-- After any requests and updates, a request is refused exactly if its origin is not a trusted one: of the
-- project's site or of the other site, of the developers' server, or named by the setting; and it gets
-- the identity that was stored last exactly if its origin is trusted and its method is GET.
pub serve_trusted :
    (project_id hosting_site extra : Text) (id : Identity) (es : List Event) (origin method : Text)
    → let allowed = web_origins project_id hosting_site extra in
      let reply = handle allowed (latest id es) origin method in
      (serve allowed id (es ++ (request origin method ∷ [])) ≡ serve allowed id es ++ (reply ∷ []))
      × (((reply ≡ forbidden) ↔ (is_trusted project_id hosting_site extra origin ≡ false))
          × ((reply ≡ found origin (latest id es))
              ↔ ((is_trusted project_id hosting_site extra origin ≡ true) × (method ≡ text "GET"))))
serve_trusted project_id hosting_site extra id es origin method =
    let allowed = web_origins project_id hosting_site extra in
    (
      unfold serve in serve-append allowed id es (request origin method ∷ []),
      handle-Answers allowed (latest id es) origin method
          (is_trusted project_id hosting_site extra origin)
          (allowed-is_trusted project_id hosting_site extra origin),
    )
