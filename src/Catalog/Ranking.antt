-- ===== src/Catalog/Ranking.antt =====
-- What `filter_with_scores` of crates/node/src/planner/catalog.rs keeps.
use mathlib.Core.Path.{subst}
use n3ur0n.Prelude.{
  ltb, eqb, if◌then◌else◌, Bool-cases, length, take, filter, length-append, In, In-append_left,
  In-append_cases, In-filter_sound, In-filter_complete, length-take, In-take, In-map, sort, In-sort,
  ℕ, zero, suc, ◌+◌, ◌≤◌, ◌≡◌, refl, sym, ap, ◌∙◌, inl, inr, Bool, true, false, not, ◌||◌, List, [],
  ◌∷◌, map, arith,
}
use n3ur0n.Catalog.{
  ToolDef, Catalog, local_top_k, is_none, Scored, is_local, ranked, with_scores, rank_tools,
  filter_with_scores,
}

length-map_of {ℓ κ} :
    {A : Type ℓ} {B : Type κ} (f : A → B) (xs : List A) → length (map f xs) ≡ length xs
length-map_of f [] = refl
length-map_of f (x ∷ xs) = omega (arith, length-map_of f xs)

take_all {ℓ} : {A : Type ℓ} (k : ℕ) (xs : List A) → length xs ≤ k → take k xs ≡ xs
take_all zero [] h = refl
take_all zero (x ∷ xs) h = absurd (omega (arith, h))
take_all (suc k) [] h = refl
take_all (suc k) (x ∷ xs) h = ap (λ ys. x ∷ ys) (take_all k xs (omega (arith, h)))

module _ (Score : Type 0) (at_least : Score → Score → Bool) where
  In-with_scores :
      (tools : Catalog) (scores : List Score) (x : Scored Score at_least)
      → In x (with_scores Score at_least tools scores)
      → In x.0 tools
  In-with_scores [] scores x m = elim m [ ]
  In-with_scores (t ∷ tools) [] x m = elim m [ ]
  In-with_scores (t ∷ tools) (s ∷ scores) x (inl e) =
      inl (ap (λ (y : Scored Score at_least). y.0) e)
  In-with_scores (t ∷ tools) (s ∷ scores) x (inr m) = inr (In-with_scores tools scores x m)

  either_sort :
      (b : Bool) (le : Scored Score at_least → Scored Score at_least → Bool)
      (xs : List (Scored Score at_least)) (x : Scored Score at_least)
      → In x (if b then sort le xs else xs)
      → In x xs
  either_sort true le xs x m = In-sort le xs x m
  either_sort false le xs x m = m

  ranked-In :
      (k : ℕ) (xs : List (Scored Score at_least)) (x : Scored Score at_least)
      → In x (ranked Score at_least k xs)
      → In x xs
  unfolding ranked
  ranked-In k xs x m =
      either_sort (ltb k (length xs)) (λ a b. at_least a.1 b.1) xs x (In-take k _ x m)

  length-ranked :
      (k : ℕ) (xs : List (Scored Score at_least)) → length (ranked Score at_least k xs) ≤ k
  unfolding ranked
  length-ranked k xs = omega (
    arith,
    length-take k (
        if ltb k (length xs)
        then sort (λ (a b : Scored Score at_least). at_least a.1 b.1) xs
        else xs),
  )

  -- What is no longer than its bound keeps all it has, in its order.
  ranked_fits :
      (k : ℕ) (xs : List (Scored Score at_least)) → length xs ≤ k → ranked Score at_least k xs ≡ xs
  unfolding ranked
  ranked_fits k xs h =
      let short : ltb k (length xs) ≡ false = ground (arith, h) in rw short (take_all k xs h)

  ranked-fst :
      (p : Scored Score at_least → Bool) (tools : Catalog) (scores : List Score) (k : ℕ)
      (t : ToolDef)
      → In t (
          map
            (λ (x : Scored Score at_least). x.0)
            (ranked Score at_least k (filter p (with_scores Score at_least tools scores))))
      → In t tools
  ranked-fst p tools scores k t m =
      let (x, mx, e) = In-map (λ (y : Scored Score at_least). y.0) _ t m in
      subst (λ z. In z tools) e
        (In-with_scores tools scores x
          (In-filter_sound p (with_scores Score at_least tools scores) x (ranked-In k _ x mx)).0)

  rank_tools_sound :
      (tools : Catalog) (scores : List Score) (k : ℕ) (t : ToolDef)
      → In t (rank_tools Score at_least (with_scores Score at_least tools scores) k)
      → In t tools
  unfolding rank_tools
  rank_tools_sound tools scores k t m = elim (In-append_cases t _ _ m) [
    | inl local_one ↦ ranked-fst (is_local Score at_least) tools scores local_top_k t local_one
    | inr remote_one ↦ ranked-fst (λ x. not (is_local Score at_least x)) tools scores k t remote_one
  ]

  length-rank_tools :
      (pairs : List (Scored Score at_least)) (k : ℕ)
      → length (rank_tools Score at_least pairs k) ≤ local_top_k + k
  unfolding rank_tools
  length-rank_tools pairs k =
      let locals = ranked Score at_least local_top_k (filter (is_local Score at_least) pairs) in
      let remotes = ranked Score at_least k (filter (λ x. not (is_local Score at_least x)) pairs) in
      omega (
        arith,
        length-append (map (λ (x : Scored Score at_least). x.0) locals)
            (map (λ (x : Scored Score at_least). x.0) remotes),
        length-map_of (λ (x : Scored Score at_least). x.0) locals,
        length-map_of (λ (x : Scored Score at_least). x.0) remotes,
        length-ranked local_top_k (filter (is_local Score at_least) pairs),
        length-ranked k (filter (λ x. not (is_local Score at_least x)) pairs),
      )

  -- The local ones among the scored tools are the local tools.
  locals-zip :
      (tools : Catalog) (scores : List Score)
      → length scores ≡ length tools
      → map
          (λ (x : Scored Score at_least). x.0)
          (filter (is_local Score at_least) (with_scores Score at_least tools scores))
        ≡ filter (λ (t : ToolDef). is_none t.peer_endpoint) tools
  locals-zip [] scores e = refl
  locals-zip (t ∷ tools) [] e = absurd (omega (arith, e))
  locals-zip (t ∷ tools) (s ∷ scores) e =
      let later = locals-zip tools scores (omega (arith, e)) in
      elim (Bool-cases (is_none t.peer_endpoint)) [
        | inl here ↦ rw here (ap (λ ts. t ∷ ts) later)
        | inr there ↦ rw there later
      ]

  rank_tools-local :
      (tools : Catalog) (scores : List Score) (k : ℕ) (t : ToolDef)
      → length scores ≡ length tools
      → length (filter (λ (x : ToolDef). is_none x.peer_endpoint) tools) ≤ local_top_k
      → In t tools
      → is_none t.peer_endpoint ≡ true
      → In t (rank_tools Score at_least (with_scores Score at_least tools scores) k)
  unfolding rank_tools
  rank_tools-local tools scores k t e few m here =
      let locals = filter (is_local Score at_least) (with_scores Score at_least tools scores) in
      let zip = locals-zip tools scores e in
      let fits : length locals ≤ local_top_k =
        omega
          (arith, length-map_of (λ (x : Scored Score at_least). x.0) locals, ap length zip, few) in
      In-append_left t _ _ (
        subst (In t)
          (sym (
            ap (map (λ (x : Scored Score at_least). x.0)) (ranked_fits local_top_k locals fits)
            ∙ zip))
          (In-filter_complete (λ (x : ToolDef). is_none x.peer_endpoint) tools t m here))

  -- Ranking by scores invents no tool, and where there is a score for each tool and a positive bound on
  -- the remote ones, it leaves at most 12 tools and that bound.
  pub filter_with_scores_bounded :
      (tools : Catalog) (scores : List Score) (remote_top_k : ℕ)
      → ((t : ToolDef)
          → In t (filter_with_scores Score at_least tools scores remote_top_k)
          → In t tools)
        × (1 ≤ remote_top_k
            → length scores ≡ length tools
            → length (filter_with_scores Score at_least tools scores remote_top_k)
              ≤ local_top_k + remote_top_k)
  unfolding filter_with_scores
  filter_with_scores_bounded tools scores k =
      elim (Bool-cases (eqb k 0 || not (eqb (length scores) (length tools)))) [
        | inl whole ↦ rw whole (λ t m. m, λ pos same. absurd (ground (arith, whole, pos, same)))
        | inr cut ↦ rw cut (
          rank_tools_sound tools scores k,
          λ pos same. length-rank_tools (with_scores Score at_least tools scores) k,
        )
      ]

  -- Where there are at most 12 local tools, ranking drops none of the local ones.
  pub filter_with_scores-local :
      (tools : Catalog) (scores : List Score) (remote_top_k : ℕ) (t : ToolDef)
      → length (filter (λ (x : ToolDef). is_none x.peer_endpoint) tools) ≤ local_top_k
      → In t tools
      → is_none t.peer_endpoint ≡ true
      → In t (filter_with_scores Score at_least tools scores remote_top_k)
  unfolding filter_with_scores
  filter_with_scores-local tools scores k t few m here =
      elim (Bool-cases (eqb k 0 || not (eqb (length scores) (length tools)))) [
        | inl whole ↦ rw whole m
        | inr cut ↦ rw cut (rank_tools-local tools scores k t (ground (arith, cut)) few m here)
      ]
