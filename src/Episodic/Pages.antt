-- ===== src/Episodic/Pages.antt =====
-- The loops over pages and batches of `cleanup_expired` in src/engram/episodic/episodic_maintenance.py.
use engram_mem.Base.{
  dec_lt, lt→ltb, not_lt→ltb, ℕ, zero, suc, ◌+◌, ◌-◌, ◌/◌, ◌≤◌, ◌<◌, ◌≡◌, refl, sym, ◌∙◌, String,
  Bool, not, ◌&&◌, ◌||◌, List, [], ◌∷◌, filter_by, take, drop, length, arith, All,
}
use engram_mem.Base.Members.{filter_by-all}
use engram_mem.Episodic.{contains, delete_points}
use engram_mem.Episodic.Maintenance.{EpisodicStore, page_size, page_offsets, delete_batches}

page_offsets_from :
    (fuel offset total : ℕ)
    → total ≤ offset + fuel
    → (length (page_offsets fuel page_size offset total) ≡ (total - offset + 999) / 1000)
      × All (λ o. o < total) (page_offsets fuel page_size offset total)
unfolding page_offsets
page_offsets_from zero offset total enough = (omega (arith, enough), tt)
page_offsets_from (suc fuel) offset total enough =
    let next = page_offsets_from fuel (offset + 1000) total (omega (arith, enough)) in
    elim (dec_lt offset total) [
      | yes lt ↦ rw (lt→ltb offset total lt) (omega (arith, next.0, lt), (lt, next.1))
      | no ge ↦ rw (not_lt→ltb offset total ge) (omega (arith, ge), tt)
    ]

-- The loop of `cleanup_expired` over the pages ends: with fuel for one round per memory, or more, it
-- makes a round for each started thousand of memories, at an offset inside the collection.
pub length-page_offsets :
    (fuel total : ℕ)
    → total ≤ fuel
    → (length (page_offsets fuel page_size 0 total) ≡ (total + 999) / 1000)
      × All (λ o. o < total) (page_offsets fuel page_size 0 total)
length-page_offsets fuel total h =
    let (rounds, inside) = page_offsets_from fuel 0 total (omega (arith, h)) in
    (omega (arith, rounds), inside)

filter_by-filter_by {ℓ} :
    {A : Type ℓ} (p q r : A → Bool) (xs : List A)
    → ((x : A) → (q x && p x) ≡ r x)
    → filter_by p (filter_by q xs) ≡ filter_by r xs
filter_by-filter_by p q r [] h = refl
filter_by-filter_by p q r (x ∷ xs) h = ground (arith, filter_by-filter_by p q r xs h, h x)

pub contains-take-drop :
    (x : String) (n : ℕ) (xs : List String)
    → (contains x (take n xs) || contains x (drop n xs)) ≡ contains x xs
contains-take-drop x zero xs = refl
contains-take-drop x (suc n) [] = refl
contains-take-drop x (suc n) (y ∷ xs) = ground (arith, contains-take-drop x n xs)

length-drop {ℓ} :
    {A : Type ℓ} (n : ℕ) (x : A) (xs : List A) → 1 ≤ n → length (drop n (x ∷ xs)) ≤ length xs
length-drop zero x xs h = absurd (omega arith)
length-drop (suc zero) x xs h = omega arith
length-drop (suc (suc n)) x [] h = omega arith
length-drop (suc (suc n)) x (y ∷ xs) h = omega (arith, length-drop (suc n) y xs (omega arith))

contains-split :
    (x : String) (n : ℕ) (xs : List String)
    → (not (contains x (take n xs)) && not (contains x (drop n xs))) ≡ not (contains x xs)
contains-split x n xs = ground (arith, contains-take-drop x n xs)

-- Batch by batch, everything is deleted.
pub points-delete_batches :
    (fuel page : ℕ) (ids : List String) (s : EpisodicStore)
    → 1 ≤ page
    → length ids ≤ fuel
    → (delete_batches fuel page ids s).points ≡ delete_points ids s.points
unfolding delete_batches delete_points
points-delete_batches zero page [] s h enough = sym (filter_by-all _ s.points (λ p. refl))
points-delete_batches zero page (id ∷ ids) s h enough = absurd (omega (arith, enough))
points-delete_batches (suc fuel) page [] s h enough = sym (filter_by-all _ s.points (λ p. refl))
points-delete_batches (suc fuel) page (id ∷ ids) s h enough =
    points-delete_batches fuel page (drop page (id ∷ ids)) _ h
      (omega (arith, length-drop page id ids h, enough))
    ∙ filter_by-filter_by _ _ _ s.points (λ p. contains-split p.id page (id ∷ ids))
