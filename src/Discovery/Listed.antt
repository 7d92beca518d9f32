-- ===== src/Discovery/Listed.antt =====
-- What a scan report of src/uniden_r8/discovery.py lists, and in which order.
use unidenr8_bluetooth.Prelude.{
  ℕ, suc, ◌≤◌, ◌≡◌, refl, ap, ◌⊎◌, inl, inr, Bool, true, false, List, [], ◌∷◌, map, Option, if-each,
  length, keep, All, Any, arith,
}
use unidenr8_bluetooth.Runtime.Text.{Text}
use unidenr8_bluetooth.Runtime.Unicode.{Unicode}
use unidenr8_bluetooth.Discovery.{
  Advertisement, Candidate, ScanReport, Tier, strong, possible, unnamed, other, classify,
  candidate_of, is_listed, is_random_static, lists_tier, rank, key_before, insert_candidate,
  sort_candidates, summarise,
}

-- some element of the list is `c`
abbrev Lists : Candidate → List Candidate → Type 0
Lists c candidates = Any (λ d. d ≡ c) candidates

All-map :
    (P Q : Candidate → Type 0)
    → ((c : Candidate) → P c → Q c)
    → (candidates : List Candidate) → All P candidates
    → All Q candidates
All-map P Q f [] all = tt
All-map P Q f (c ∷ candidates) (p, all) = (f c p, All-map P Q f candidates all)

-- no candidate is of a better tier than one before it
abbrev pub IsGraded : List Candidate → Type 0
IsGraded [] = Unit {0}
IsGraded (c ∷ candidates) = All (λ d. rank c.tier ≤ rank d.tier) candidates × IsGraded candidates

key_before-rank : (d c : Candidate) → key_before d c ≡ true → rank d.tier ≤ rank c.tier
unfolding key_before
key_before-rank d c h = ground arith

key_after-rank : (d c : Candidate) → key_before d c ≡ false → rank c.tier ≤ rank d.tier
unfolding key_before
key_after-rank d c h = ground arith

All-insert :
    (P : Candidate → Type 0) (c : Candidate) (candidates : List Candidate)
    → P c
    → All P candidates
    → All P (insert_candidate c candidates)
unfolding insert_candidate
All-insert P c [] p all = (p, tt)
All-insert P c (d ∷ candidates) p (q, all) =
    if-each (All P) (key_before d c) _ _ (λ _. (q, All-insert P c candidates p all))
      (λ _. (p, (q, all)))

insert-Graded :
    (c : Candidate) (candidates : List Candidate)
    → IsGraded candidates
    → IsGraded (insert_candidate c candidates)
unfolding insert_candidate
insert-Graded c [] g = (tt, tt)
insert-Graded c (d ∷ candidates) (low, g) =
    if-each IsGraded (key_before d c) _ _
      (λ h. (
        All-insert (λ e. rank d.tier ≤ rank e.tier) c candidates (key_before-rank d c h) low,
        insert-Graded c candidates g,
      ))
      (λ h.
        let k = key_after-rank d c h in
        ((k, All-map _ _ (λ e m. omega arith) candidates low), (low, g)))

sort-Graded : (candidates : List Candidate) → IsGraded (sort_candidates candidates)
unfolding sort_candidates
sort-Graded [] = tt
sort-Graded (c ∷ candidates) = insert-Graded c (sort_candidates candidates) (sort-Graded candidates)

All-sort :
    (P : Candidate → Type 0) (candidates : List Candidate)
    → All P candidates
    → All P (sort_candidates candidates)
unfolding sort_candidates
All-sort P [] all = tt
All-sort P (c ∷ candidates) (p, all) =
    All-insert P c (sort_candidates candidates) p (All-sort P candidates all)

-- an insertion lists its candidate, and keeps those that are listed
insert-Lists :
    (x c : Candidate) (candidates : List Candidate)
    → (c ≡ x) ⊎ Lists x candidates
    → Lists x (insert_candidate c candidates)
unfolding insert_candidate
insert-Lists x c [] h = h
insert-Lists x c (d ∷ candidates) (inl e) =
    if-each (Lists x) (key_before d c) _ _ (λ _. inr (insert-Lists x c candidates (inl e)))
      (λ _. inl e)
insert-Lists x c (d ∷ candidates) (inr (inl e)) =
    if-each (Lists x) (key_before d c) _ _ (λ _. inl e) (λ _. inr (inl e))
insert-Lists x c (d ∷ candidates) (inr (inr h)) =
    if-each (Lists x) (key_before d c) _ _ (λ _. inr (insert-Lists x c candidates (inr h)))
      (λ _. inr (inr h))

sort-Lists :
    (x : Candidate) (candidates : List Candidate)
    → Lists x candidates
    → Lists x (sort_candidates candidates)
unfolding sort_candidates
sort-Lists x [] h = h
sort-Lists x (c ∷ candidates) (inl e) = insert-Lists x c (sort_candidates candidates) (inl e)
sort-Lists x (c ∷ candidates) (inr h) =
    insert-Lists x c (sort_candidates candidates) (inr (sort-Lists x candidates h))

length-insert :
    (c : Candidate) (candidates : List Candidate)
    → length (insert_candidate c candidates) ≡ suc (length candidates)
unfolding insert_candidate
length-insert c [] = refl
length-insert c (d ∷ candidates) =
    if-each {A = List Candidate} (λ cs. length cs ≡ suc (suc (length candidates))) (key_before d c)
      _ _ (λ _. ap suc (length-insert c candidates)) (λ _. refl)

length-sort :
    (candidates : List Candidate) → length (sort_candidates candidates) ≡ length candidates
unfolding sort_candidates
length-sort [] = refl
length-sort (c ∷ candidates) =
    omega (arith, length-insert c (sort_candidates candidates), length-sort candidates)

-- the tiers that a report lists: a device without a name is one only with a random static address
abbrev IsWorth : Tier → Bool → Type 0
IsWorth t random_static = (t ≡ strong) ⊎ ((t ≡ possible) ⊎ ((t ≡ unnamed) × (random_static ≡ true)))

abbrev IsIdle : Tier → Bool → Type 0
IsIdle t random_static = (t ≡ other) ⊎ ((t ≡ unnamed) × (random_static ≡ false))

lists_tier-Worth : (t : Tier) (b : Bool) → lists_tier t b ≡ true → IsWorth t b
lists_tier-Worth strong b h = inl refl
lists_tier-Worth possible b h = inr (inl refl)
lists_tier-Worth unnamed b h = inr (inr (refl, h))
lists_tier-Worth other b h = absurd (cc h)

lists_tier-Idle : (t : Tier) (b : Bool) → lists_tier t b ≡ false → IsIdle t b
lists_tier-Idle strong b h = absurd (cc h)
lists_tier-Idle possible b h = absurd (cc h)
lists_tier-Idle unnamed b h = inr (refl, h)
lists_tier-Idle other b h = inl refl

module _ ⦃u : Unicode⦄ (int_16 : Text → Option ℕ) (digest : Text → Text) where
  -- the candidate stands for an advertisement that is to be listed
  abbrev Stands : Candidate → Advertisement → Type 0
  Stands c a = (candidate_of int_16 digest a ≡ c) × IsWorth c.tier c.random_static

  abbrev Told : List Candidate → Advertisement → Type 0
  Told candidates a =
      let c = candidate_of int_16 digest a in Lists c candidates ⊎ IsIdle c.tier c.random_static

  abbrev pub IsReport : List Advertisement → ScanReport → Type 0
  IsReport seen r =
      (r.total_seen ≡ length seen)
      × ((length r.candidates ≤ length seen)
          × (All (λ c. Any (Stands c) seen) r.candidates
              × (All (Told r.candidates) seen × IsGraded r.candidates)))

  abbrev kept : List Advertisement → List Candidate
  kept seen = map (candidate_of int_16 digest) (keep (is_listed int_16 digest) seen)

  length-kept : (seen : List Advertisement) → length (kept seen) ≤ length seen
  length-kept [] = omega arith
  length-kept (a ∷ seen) =
      if-each {A = List Advertisement}
        (λ l. length (map (candidate_of int_16 digest) l) ≤ suc (length seen))
        (is_listed int_16 digest a) _ _ (λ _. omega (arith, length-kept seen))
        (λ _. omega (arith, length-kept seen))

  stand-All : (seen : List Advertisement) → All (λ c. Any (Stands c) seen) (kept seen)
  unfolding is_listed candidate_of
  stand-All [] = tt
  stand-All (a ∷ seen) =
      let later =
        All-map (λ c. Any (Stands c) seen) (λ c. Any (Stands c) (a ∷ seen)) (λ c h. inr h)
          (kept seen) (stand-All seen) in
      let b = is_random_static int_16 a.address in
      if-each {A = List Advertisement}
        (λ l. All (λ c. Any (Stands c) (a ∷ seen)) (map (candidate_of int_16 digest) l))
        (is_listed int_16 digest a) _ _
        (λ h. (inl (refl, lists_tier-Worth (classify a.name) b h), later)) (λ _. later)

  Told-map :
      (c : Candidate) (candidates : List Candidate) (seen : List Advertisement)
      → All (Told candidates) seen
      → All (Told (c ∷ candidates)) seen
  Told-map c candidates [] all = tt
  Told-map c candidates (a ∷ seen) (inl h, all) = (inl (inr h), Told-map c candidates seen all)
  Told-map c candidates (a ∷ seen) (inr h, all) = (inr h, Told-map c candidates seen all)

  tell-All : (seen : List Advertisement) → All (Told (kept seen)) seen
  unfolding is_listed candidate_of
  tell-All [] = tt
  tell-All (a ∷ seen) =
      let b = is_random_static int_16 a.address in
      if-each {A = List Advertisement}
        (λ l. All (Told (map (candidate_of int_16 digest) l)) (a ∷ seen))
        (is_listed int_16 digest a) _ _
        (λ _. (
          inl (inl refl),
          Told-map (candidate_of int_16 digest a) (kept seen) seen (tell-All seen),
        ))
        (λ h. (inr (lists_tier-Idle (classify a.name) b h), tell-All seen))

  tell-sorted :
      (candidates : List Candidate) (seen : List Advertisement)
      → All (Told candidates) seen
      → All (Told (sort_candidates candidates)) seen
  tell-sorted candidates [] all = tt
  tell-sorted candidates (a ∷ seen) (inl h, all) = (
    inl (sort-Lists (candidate_of int_16 digest a) candidates h),
    tell-sorted candidates seen all,
  )
  tell-sorted candidates (a ∷ seen) (inr h, all) = (inr h, tell-sorted candidates seen all)

  -- Whatever advertisements were seen, a report counts them all, and lists at most as many: each
  -- candidate stands for one that was seen, of a tier other than `other` and with a random static
  -- address if it has no name; each one that was seen is listed unless that excludes it; and no
  -- candidate is of a better tier than one before it.
  pub summarise-IsReport :
      (seen : List Advertisement) (timed_out : Bool)
      → IsReport seen (summarise int_16 digest seen timed_out)
  unfolding summarise
  summarise-IsReport seen timed_out = (
    refl,
    (
      omega (arith, length-sort (kept seen), length-kept seen),
      (
        All-sort (λ c. Any (Stands c) seen) (kept seen) (stand-All seen),
        (tell-sorted (kept seen) seen (tell-All seen), sort-Graded (kept seen)),
      ),
    ),
  )
