-- ===== src/Failover/Regions.antt =====
-- `nextRegion` of failover.go: the region that is tried next.
use server_sdk_go.Prelude.{
  ℕ, ◌≡◌, ◌⊎◌, inl, inr, refl, true, false, ◌||◌, List, [], ◌∷◌, ◌++◌, Option, none, some, ◌==◌,
  length, All, Bool-cases, Option-cases, arith,
}
use server_sdk_go.Failover.{Target, untried, next_region}
use server_sdk_go.Failover.Hosts.{to_lower, to_http_url, tried_contains}

module _ (parse : List ℕ → Option Target) (tried : List (List ℕ)) where
  -- The URL is of a region with a host that was not attempted.
  abbrev pub IsUntried : List ℕ → Target → Type 0
  IsUntried url u =
      (parse (to_http_url url) ≡ some u)
      × ((length u.host == 0) ≡ false)
      × (tried_contains tried (to_lower u.host) ≡ false)

  abbrev pub IsUseless : List ℕ → Type 0
  IsUseless url = (u : Target) → ¬ IsUntried url u

  skipped :
      (url : List ℕ) (urls : List (List ℕ))
      → parse (to_http_url url) ≡ none
      → (untried parse (url ∷ urls) tried ≡ untried parse urls tried) × IsUseless url
  unfolding untried
  skipped url urls e = (rw (e, untried) refl, λ u h. ground arith)

  refused :
      (url : List ℕ) (urls : List (List ℕ)) (u : Target)
      → parse (to_http_url url) ≡ some u
      → ((length u.host == 0) || tried_contains tried (to_lower u.host)) ≡ true
      → (untried parse (url ∷ urls) tried ≡ untried parse urls tried) × IsUseless url
  unfolding untried
  refused url urls u e bad = (rw (e, untried, bad) refl, λ v h. ground arith)

  taken :
      (url : List ℕ) (urls : List (List ℕ)) (u : Target)
      → parse (to_http_url url) ≡ some u
      → ((length u.host == 0) || tried_contains tried (to_lower u.host)) ≡ false
      → (untried parse (url ∷ urls) tried ≡ some u) × IsUntried url u
  unfolding untried
  taken url urls u e good = (rw (e, untried, good) refl, (e, ground arith, ground arith))

  -- Either no region is left, or the answer is that of a region behind useless ones.
  abbrev pub IsFirst : List (List ℕ) → Option Target → Type 0
  IsFirst urls found =
      ((found ≡ none) × All IsUseless urls)
      ⊎ ((before : List (List ℕ)) × (url : List ℕ) × (after : List (List ℕ)) × (u : Target) × (found
            ≡ some u)
          × (urls ≡ before ++ (url ∷ after))
          × All IsUseless before
          × IsUntried url u)

  further :
      (url : List ℕ) (urls : List (List ℕ)) (found : Option Target)
      → IsUseless url
      → IsFirst urls found
      → IsFirst (url ∷ urls) found
  further url urls found useless (inl (e, all)) = inl (e, (useless, all))
  further url urls found useless (inr (before, at_url, after, u, e, split, all, good)) =
      inr (url ∷ before, at_url, after, u, e, ground arith, (useless, all), good)

  untried-IsFirst : (urls : List (List ℕ)) → IsFirst urls (untried parse urls tried)
  unfolding untried
  untried-IsFirst [] = inl (refl, tt)
  untried-IsFirst (url ∷ urls) = elim (Option-cases (parse (to_http_url url))) [
    | inl e ↦
        let (same, useless) = skipped url urls e in
        rw same (further url urls (untried parse urls tried) useless (untried-IsFirst urls))
    | inr (u, e) ↦
        elim (Bool-cases ((length u.host == 0) || tried_contains tried (to_lower u.host))) [
          | inl bad ↦
              let (same, useless) = refused url urls u e bad in
              rw same (further url urls (untried parse urls tried) useless (untried-IsFirst urls))
          | inr good ↦
              let (same, eligible) = taken url urls u e good in
              inr ([], url, urls, u, same, refl, tt, eligible)
        ]
  ]

  -- `nextRegion` gives the first region, in the order of the settings, whose URL parses, has a host,
  -- and has one that was not attempted; it gives none only where there is no such region.
  pub next_region-IsFirst :
      (urls : List (List ℕ)) → IsFirst urls (next_region parse (some urls) tried)
  unfolding next_region
  next_region-IsFirst urls = untried-IsFirst urls
