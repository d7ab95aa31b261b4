-- ===== src/Directory/Claims/Guards.antt =====
-- The table of guards as a function of the pair (directory/claim_review.py `lock_guard`).
use osds.Prelude.{
  ℕ, ◌≡◌, refl, Bool, true, false, ◌&&◌, none, some, List, [], ◌∷◌, ◌++◌, any, ◌==◌, inl, inr,
  Option-cases, any_of_find, any-append_last, arith, if◌then◌else◌, ==_iff,
}
use osds.Directory.Claims.State.{Guard}
use osds.Directory.Claims.Tables.{is_guard_of, guard_of, new_guard, lock_guard, save_guard}

-- the guard of a pair, which is a new one where there is none yet
abbrev pub guard_at : List Guard → ℕ → ℕ → Guard
guard_at guards l u = elim (guard_of guards l u) [ none ↦ new_guard l u | some g ↦ g ]

abbrev pub is_pair : ℕ → ℕ → Guard → Bool
is_pair l u g = g.listing == l && g.claimant == u

find_append :
    (l u : ℕ) (guards : List Guard) (g : Guard)
    → guard_of guards l u ≡ none
    → guard_of (guards ++ g ∷ []) l u ≡ (if is_guard_of l u g then some g else none)
find_append l u [] g h = refl
find_append l u (row ∷ guards) g h = ground (arith, find_append l u guards g)

find_append_some :
    (l u : ℕ) (guards : List Guard) (g : Guard) {row : Guard}
    → guard_of guards l u ≡ some row
    → guard_of (guards ++ g ∷ []) l u ≡ some row
find_append_some l u [] g h = ground arith
find_append_some l u (row ∷ guards) g {row = r} h =
    ground (arith, find_append_some l u guards g {row = r})

found_pair :
    (l u : ℕ) (guards : List Guard) {g : Guard}
    → guard_of guards l u ≡ some g
    → is_pair l u g ≡ true
found_pair l u [] h = ground arith
found_pair l u (row ∷ guards) {g = g} h = ground (arith, found_pair l u guards {g = g})

found_listing :
    (l u : ℕ) (guards : List Guard) {g : Guard} → guard_of guards l u ≡ some g → g.listing ≡ l
found_listing l u guards {g = g} h = ground (arith, found_pair l u guards h, ==_iff g.listing l)

found_claimant :
    (l u : ℕ) (guards : List Guard) {g : Guard} → guard_of guards l u ≡ some g → g.claimant ≡ u
found_claimant l u guards {g = g} h = ground (arith, found_pair l u guards h, ==_iff g.claimant u)

-- a new row is the guard that a pair without a row has already
guard_at_new :
    (guards : List Guard) (l u l' u' : ℕ)
    → guard_of guards l u ≡ none
    → guard_at (guards ++ new_guard l u ∷ []) l' u' ≡ guard_at guards l' u'
guard_at_new guards l u l' u' e = elim (Option-cases (guard_of guards l' u')) [
  | inr (g, f) ↦ rw (f, find_append_some l' u' guards (new_guard l u) f, guard_at)
  | inl f ↦
      rw (f, find_append l' u' guards (new_guard l u) f, guard_at)
        (ground (arith, ==_iff l l', ==_iff u u'))
]

-- Locking the guard of a pair gives the pair's guard, leaves a row for it, and changes no pair's guard.
pub record Locked (guards : List Guard) (l u : ℕ) : Type 0 where
  pub gives : (lock_guard guards l u).1 ≡ guard_at guards l u
  pub there : any (is_guard_of l u) (lock_guard guards l u).0 ≡ true
  pub keeps : (l' u' : ℕ) → guard_at (lock_guard guards l u).0 l' u' ≡ guard_at guards l' u'
  pub listed : (lock_guard guards l u).1.listing ≡ l
  pub of_claimant : (lock_guard guards l u).1.claimant ≡ u

pub lock_guard-Locked : (guards : List Guard) (l u : ℕ) → Locked guards l u
unfolding lock_guard
lock_guard-Locked guards l u = elim (Option-cases (guard_of guards l u)) [
  | inr (g, e) ↦ record {
    gives = rw (e, lock_guard, guard_at);
    there = rw (e, lock_guard) (any_of_find (is_guard_of l u) guards e);
    keeps = λ l' u'. rw (e, lock_guard);
    listed = rw (e, lock_guard) (found_listing l u guards e);
    of_claimant = rw (e, lock_guard) (found_claimant l u guards e);
  }
  | inl e ↦ record {
    gives = rw (e, lock_guard, guard_at);
    there =
        rw (e, lock_guard)
          (any-append_last (is_guard_of l u) guards (new_guard l u) (ground arith));
    keeps = λ l' u'. rw (e, lock_guard) (guard_at_new guards l u l' u' e);
    listed = rw (e, lock_guard);
    of_claimant = rw (e, lock_guard);
  }
]

pub save_guard_same :
    (g : Guard) (guards : List Guard)
    → any (is_guard_of g.listing g.claimant) guards ≡ true
    → guard_at (save_guard g guards) g.listing g.claimant ≡ g
unfolding save_guard
save_guard_same g [] h = ground arith
save_guard_same g (row ∷ guards) h = ground (arith, save_guard_same g guards)

pub save_guard_other :
    (g : Guard) (guards : List Guard) (l u : ℕ)
    → is_pair l u g ≡ false
    → guard_at (save_guard g guards) l u ≡ guard_at guards l u
unfolding save_guard
save_guard_other g [] l u h = refl
save_guard_other g (row ∷ guards) l u h = ground (arith, save_guard_other g guards l u)
