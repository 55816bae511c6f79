-- ===== src/Mcp/Listing/Visible.antt =====
-- sapl_fastmcp/src/sapl_fastmcp/middleware.py: who sees a stealth component in a listing.
use sapl_python.Prelude.{
  ◌≡◌, refl, ap, sym, ◌∙◌, String, true, false, List, [], ◌∷◌, ◌++◌, Option, none, some, map, ◌⊎◌,
  inl, inr, All, Bool-cases, Option-cases, Bool, Memᴰ, str_eq,
}
use sapl_python.Python.Exception.{AuthorizationDecision, has_resource}
use sapl_python.Python.Action.{Result, ok, raised, Action}
use sapl_python.Python.Action.Laws.{continue-eq-ok}
use sapl_python.Signal.{Provider}
use sapl_python.Enforce.{is_permit}
use sapl_python.Subscription.{AuthorizationSubscription, Multi}
use sapl_python.Mcp.Subscription.{AccessToken, SaplConfig, Component}
use sapl_python.Mcp.Gate.{enforce_decision_gate-opens}
use sapl_python.Mcp.Listing.{
  component_id, configured_stealth, put, put_built, built, always_visible, Entry, decision_at,
  stealth_entries, gated, included, with_entries, hide_unauthorized_stealth_components,
  authorize_listing,
}

module _ {W : Type 0} where
  -- A component whose configuration asks for stealth.
  abbrev pub HasStealth : Component W → Type 0
  HasStealth c = (config : SaplConfig W) × (c.config ≡ some config) × (config.stealth ≡ true)

  -- `shown` has the components that are not stealth, in their order.
  abbrev pub Unhidden : List (Component W) → List (Component W) → Type 0
  Unhidden [] shown = shown ≡ []
  Unhidden (c ∷ cs) shown =
      (HasStealth c × Unhidden cs shown)
      ⊎ ((HasStealth c → ⊥) × (rest : List (Component W)) × (shown ≡ c ∷ rest) × Unhidden cs rest)

  configured : (c : Component W) → configured_stealth c.config ≡ true → HasStealth c
  configured c h = elim (Option-cases c.config) [
    | inl e ↦ let absurd : false ≡ true = rw e at h in cc
    | inr (config, e) ↦ (config, e, rw e at h)
  ]

  unconfigured : (c : Component W) → configured_stealth c.config ≡ false → HasStealth c → ⊥
  unconfigured c h (config, e, stealth) = let plain : config.stealth ≡ false = rw e at h in cc

  always_visible-Unhidden :
      (components : List (Component W)) → Unhidden components (always_visible components)
  always_visible-Unhidden [] = refl
  always_visible-Unhidden (c ∷ cs) = elim (Bool-cases (configured_stealth c.config)) [
    | inl e ↦ inl (configured c e, rw e (always_visible-Unhidden cs))
    | inr e ↦ inr (unconfigured c e, always_visible cs, rw e refl, always_visible-Unhidden cs)
  ]

  module _ (P : Component W → Type 0) where
    abbrev Each : List (Entry W) → Type 0
    Each entries = All (λ (entry : Entry W). P entry.1) entries

    put-Each :
        (s : AuthorizationSubscription) (c : Component W) (entries : List (Entry W))
        → P c
        → Each entries
        → Each (put (s, c) entries)
    put-Each s c [] h each = (h, tt)
    put-Each s c ((s', c') ∷ rest) h each =
        elim (Bool-cases (str_eq (component_id c') (component_id c))) [
          | inl e ↦ rw e (h, each.1)
          | inr e ↦ rw e (each.0, put-Each s c rest h each.1)
        ]

    put_built-Each :
        (r : Result AuthorizationSubscription) (c : Component W) (entries : List (Entry W))
        → P c
        → Each entries
        → Each (put_built r c entries)
    put_built-Each (raised e) c entries h each = each
    put_built-Each (ok s) c entries h each = put-Each s c entries h each

    built-Each :
        (token : Option AccessToken) (operation : String) (o : Option (SaplConfig W))
        (c : Component W) (entries : List (Entry W))
        → c.config ≡ o
        → (HasStealth c → P c)
        → Each entries
        → Each (built token operation o c entries)
    built-Each token operation none c entries is h each = each
    built-Each token operation (some config) c entries is h each =
        elim (Bool-cases config.stealth) [
          | inl e ↦ rw e (put_built-Each _ c entries (h (config, is, e)) each)
          | inr e ↦ rw e each
        ]

    stealth_entries-Each :
        (token : Option AccessToken) (operation : String) (cs : List (Component W))
        (entries : List (Entry W))
        → ((c : Component W) → Memᴰ c cs → HasStealth c → P c)
        → Each entries
        → Each (stealth_entries token operation cs entries)
    unfolding stealth_entries
    stealth_entries-Each token operation [] entries h each = each
    stealth_entries-Each token operation (c ∷ cs) entries h each =
        stealth_entries-Each token operation cs (built token operation c.config c entries)
          (λ c' m. h c' (Memᴰ.tail m))
          (built-Each token operation c.config c entries refl (h c (Memᴰ.head refl)) each)

module _ {W : Type 0} (providers : List (Provider W)) where
  -- The PDP's decision on a component is a PERMIT without a resource.
  abbrev pub IsGranted : List (String × AuthorizationDecision) → Component W → Type 0
  IsGranted decisions c =
      (d : AuthorizationDecision) × (decision_at (component_id c) decisions ≡ some d)
      × (is_permit d.decision ≡ true)
      × (has_resource d ≡ false)

  gated-IsGranted :
      (decisions : List (String × AuthorizationDecision)) (c : Component W)
      (o : Option AuthorizationDecision) (w : W)
      → decision_at (component_id c) decisions ≡ o
      → (gated providers o w).0 ≡ true
      → IsGranted decisions c
  gated-IsGranted decisions c none w e h = cc
  gated-IsGranted decisions c (some d) w e h =
      let (no_resource, permitted, _) = enforce_decision_gate-opens providers d w h in
      (d, e, permitted, no_resource)

  included-IsGranted :
      (P : Component W → Type 0) (decisions : List (String × AuthorizationDecision))
      (entries : List (Entry W)) (w : W)
      → Each P entries
      → All (λ c. P c × IsGranted decisions c) (included providers decisions entries w).0
  unfolding included
  included-IsGranted P decisions [] w each = tt
  included-IsGranted P decisions ((s, c) ∷ entries) w each =
      let o = decision_at (component_id c) decisions in
      let rest = included-IsGranted P decisions entries (gated providers o w).1 each.1 in
      elim (Bool-cases (gated providers o w).0) [
        | inl opens ↦ rw opens ((each.0, gated-IsGranted decisions c o w refl opens), rest)
        | inr closed ↦ rw closed rest
      ]

  module _ (multi_decide_all_once : Multi → Action W (List (String × AuthorizationDecision))) where
    abbrev pub asked : List (Entry W) → Multi
    asked entries = map (λ (s, c). (component_id c, s)) entries

    -- What is shown behind the visible components: stealth components of the listing on which the
    -- PDP, asked about the entries, decided PERMIT without a resource; none if there are no entries.
    abbrev pub ShowsGranted :
        List (Component W) → List (Component W) → List (Entry W) → List (Component W) → W → Type 0
    ShowsGranted components visible entries shown w =
        (stealth : List (Component W)) × (shown ≡ visible ++ stealth)
        × ((stealth ≡ [])
            ⊎ ((decisions : List (String × AuthorizationDecision)) × ((multi_decide_all_once
                    (asked entries) w).0
                  ≡ ok decisions)
                × All (λ c. (Memᴰ c components × HasStealth c) × IsGranted decisions c) stealth))

    append-nil : {A : Type 0} (xs : List A) → xs ≡ xs ++ []
    append-nil [] = refl
    append-nil (x ∷ xs) = ap (x ∷◌) (append-nil xs)

    with_entries-ShowsGranted :
        (components visible shown : List (Component W)) (entries : List (Entry W)) (w w' : W)
        → Each (λ c. Memᴰ c components × HasStealth c) entries
        → with_entries providers multi_decide_all_once visible entries w ≡ (ok shown, w')
        → ShowsGranted components visible entries shown w
    with_entries-ShowsGranted components visible shown [] w w' each h =
        let same : visible ≡ shown = cc in ([], sym same ∙ append-nil visible, inl refl)
    with_entries-ShowsGranted components visible shown (entry ∷ entries) w w' each h =
        let run = multi_decide_all_once (asked (entry ∷ entries)) w in
        let (decisions, decided, returned) = continue-eq-ok run.0 _ run.1 h in
        let stealth = (included providers decisions (entry ∷ entries) run.1).0 in
        let same : visible ++ stealth ≡ shown = cc in
        (
          stealth,
          sym same,
          inr (
            decisions,
            decided,
            included-IsGranted (λ c. Memᴰ c components × HasStealth c) decisions (entry ∷ entries)
                run.1 each,
          ),
        )

    -- Over a transport other than stdio and with listings enforced, a listing that returns shows
    -- every listed component that is not stealth, in their order, and behind them only listed
    -- components that are stealth and on which the PDP, asked about the stealth components by their
    -- ids, decided PERMIT without a resource.
    pub authorize_listing-ok :
        (is_stdio enforce_listing : Bool) (get_access_token : Action W (Option AccessToken))
        (call_next : Action W (List (Component W))) (operation : String)
        (shown : List (Component W)) (w w' : W)
        → is_stdio ≡ false
        → enforce_listing ≡ true
        → authorize_listing providers multi_decide_all_once is_stdio enforce_listing
            get_access_token call_next operation w
          ≡ (ok shown, w')
        → (components : List (Component W)) × ((call_next w).0 ≡ ok components)
          × (token : Option AccessToken) × ((get_access_token (call_next w).1).0 ≡ ok token)
          × (visible : List (Component W)) × Unhidden components visible
          × ShowsGranted components visible
              (stealth_entries token operation components [])
              shown
              (get_access_token (call_next w).1).1
    unfolding authorize_listing hide_unauthorized_stealth_components
    authorize_listing-ok is_stdio enforce_listing get_access_token call_next operation shown w w'
          remote enforced h =
        let (components, listed, after) =
          continue-eq-ok (call_next w).0 _ (call_next w).1 (rw (remote, enforced) at h) in
        let next = get_access_token (call_next w).1 in
        let (token, got, hidden) = continue-eq-ok next.0 _ next.1 after in
        (
          components,
          listed,
          token,
          got,
          always_visible components,
          always_visible-Unhidden components,
          with_entries-ShowsGranted components (always_visible components) shown
              (stealth_entries token operation components []) next.1 w'
              (stealth_entries-Each (λ c. Memᴰ c components × HasStealth c) token operation
                components [] (λ c m stealth. (m, stealth)) tt)
              hidden,
        )
