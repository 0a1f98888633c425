-- ===== src/Net/Select/Slots.antt =====
-- The slot of an accepted connection.
use nerv_fs.Base.{ℕ, ◌≡◌, ◌≢◌, refl, ap, ◌⊎◌, inl, inr, Option, none, some, [], ◌∷◌, ◌++◌, All}
use nerv_fs.Os.{close}
use nerv_fs.Net.Select.{Slots, Loop, place, client_placed, client_accepted}

-- The first free slot is taken, and there is none only if all are taken.
abbrev pub Taken : Option ℕ → Type 0
Taken slot = slot ≢ none

pub place-cases :
    (fd : ℕ) (slots : Slots)
    → ((place fd slots ≡ none) × All Taken slots)
      ⊎ ((front : Slots) × (back : Slots) × (slots ≡ front ++ none ∷ back)
          × All Taken front
          × (place fd slots ≡ some (front ++ some fd ∷ back)))
unfolding place
place-cases fd [] = inl (refl, tt)
place-cases fd (none ∷ slots) = inr ([], slots, refl, tt, refl)
place-cases fd (some a ∷ slots) = elim (place-cases fd slots) [
  | inl (full, all_taken) ↦ inl (rw full refl, ((λ e. absurd (cc e)), all_taken))
  | inr (front, back, split, taken, placed) ↦
      inr (
        some a ∷ front,
        back,
        ap (◌∷◌ (some a)) split,
        ((λ e. absurd (cc e)), taken),
        rw placed refl,
      )
]

-- An accepted connection goes into the first free slot and changes no other, or all slots are taken
-- and it is closed.
pub client_accepted_lem :
    (fd : ℕ) (s : Loop)
    → (All Taken s.slots × (client_accepted (some fd) s ≡ record s { calls = close fd ∷ s.calls }))
      ⊎ ((front : Slots) × (back : Slots) × (s.slots ≡ front ++ none ∷ back)
          × All Taken front
          × (client_accepted (some fd) s ≡ record s { slots = front ++ some fd ∷ back }))
unfolding client_accepted client_placed
client_accepted_lem fd s = elim (place-cases fd s.slots) [
  | inl (full, all_taken) ↦ inl (all_taken, ap (λ x. client_placed fd x s) full)
  | inr (front, back, split, taken, placed) ↦
      inr (front, back, split, taken, ap (λ x. client_placed fd x s) placed)
]
