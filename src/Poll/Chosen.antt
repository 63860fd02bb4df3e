-- ===== src/Poll/Chosen.antt =====
-- The card that was clicked last is the chosen one.
use lso_project.Prelude.{
  ℕ, zero, suc, ◌≡◌, refl, ap, ◌∙◌, true, Option, none, some, List, [], ◌∷◌, map, Text,
}
use lso_project.Poll.{Card, Poll, unselect, add_selected, answer_of, choose, click}

abbrev pub clicks : List ℕ → Poll → Poll
clicks [] p = p
clicks (i ∷ is) p = clicks is (click i p)

-- The card i alone is selected.
abbrev pub only : ℕ → List Card → List Card
only i [] = []
only zero (c ∷ cs) = record c { selected = true } ∷ map unselect cs
only (suc i) (c ∷ cs) = unselect c ∷ only i cs

add_selected-unselect : (i : ℕ) (cs : List Card) → add_selected i (map unselect cs) ≡ only i cs
add_selected-unselect i [] = refl
add_selected-unselect zero (c ∷ cs) = refl
add_selected-unselect (suc i) (c ∷ cs) = ap (λ cs. unselect c ∷ cs) (add_selected-unselect i cs)

unselect-unselect : (cs : List Card) → map unselect (map unselect cs) ≡ map unselect cs
unselect-unselect [] = refl
unselect-unselect (c ∷ cs) = ap (λ cs. unselect c ∷ cs) (unselect-unselect cs)

only-only : (i j : ℕ) (cs : List Card) → only i (only j cs) ≡ only i cs
only-only i j [] = refl
only-only zero zero (c ∷ cs) = ap (λ cs. record c { selected = true } ∷ cs) (unselect-unselect cs)
only-only zero (suc j) (c ∷ cs) = ap (λ cs. record c { selected = true } ∷ cs) (unselect-only j cs)
  where
    unselect-only : (j : ℕ) (cs : List Card) → map unselect (only j cs) ≡ map unselect cs
    unselect-only j [] = refl
    unselect-only zero (c ∷ cs) = ap (λ cs. unselect c ∷ cs) (unselect-unselect cs)
    unselect-only (suc j) (c ∷ cs) = ap (λ cs. unselect c ∷ cs) (unselect-only j cs)
only-only (suc i) zero (c ∷ cs) = ap (λ cs. unselect c ∷ cs) (only-unselect i cs)
  where
    only-unselect : (i : ℕ) (cs : List Card) → only i (map unselect cs) ≡ only i cs
    only-unselect i [] = refl
    only-unselect zero (c ∷ cs) =
        ap (λ cs. record c { selected = true } ∷ cs) (unselect-unselect cs)
    only-unselect (suc i) (c ∷ cs) = ap (λ cs. unselect c ∷ cs) (only-unselect i cs)
only-only (suc i) (suc j) (c ∷ cs) = ap (λ cs. unselect c ∷ cs) (only-only i j cs)

answer_of-unselect : (i : ℕ) (cs : List Card) → answer_of i (map unselect cs) ≡ answer_of i cs
answer_of-unselect i [] = refl
answer_of-unselect zero (c ∷ cs) = refl
answer_of-unselect (suc i) (c ∷ cs) = answer_of-unselect i cs

answer_of-only : (i j : ℕ) (cs : List Card) → answer_of i (only j cs) ≡ answer_of i cs
answer_of-only i j [] = refl
answer_of-only zero zero (c ∷ cs) = refl
answer_of-only zero (suc j) (c ∷ cs) = refl
answer_of-only (suc i) zero (c ∷ cs) = answer_of-unselect i cs
answer_of-only (suc i) (suc j) (c ∷ cs) = answer_of-only i j cs

-- A click keeps what a later one makes of the cards.
click-Keeps :
    (i j : ℕ) (p : Poll)
    → (only i (click j p).cards ≡ only i p.cards)
      × (answer_of i (click j p).cards ≡ answer_of i p.cards)
unfolding click
click-Keeps i j p = by_answer (answer_of j p.cards)
  where
    by_answer :
        (o : Option Text)
        → (only i (choose j o p).cards ≡ only i p.cards)
          × (answer_of i (choose j o p).cards ≡ answer_of i p.cards)
    by_answer none = (refl, refl)
    by_answer (some answer) = (
      ap (only i) (add_selected-unselect j p.cards) ∙ only-only i j p.cards,
      ap (answer_of i) (add_selected-unselect j p.cards) ∙ answer_of-only i j p.cards,
    )

-- After any clicks on cards and one on the card i, this card alone is selected, all answers
-- are as before, and the field holds the answer of the card i.
pub clicks-last :
    (js : List ℕ) (i : ℕ) (answer : Text) (p : Poll)
    → answer_of i p.cards ≡ some answer
    → click i (clicks js p) ≡ record { cards = only i p.cards; selected_answer = answer }
unfolding click
clicks-last [] i answer p h =
    ap (λ o. choose i o p) h
    ∙ ap (λ cs. record { cards = cs; selected_answer = answer }) (add_selected-unselect i p.cards)
clicks-last (j ∷ js) i answer p h =
    let (cards, answers) = click-Keeps i j p in
    clicks-last js i answer (click j p) (answers ∙ h)
    ∙ ap (λ cs. record { cards = cs; selected_answer = answer }) cards
