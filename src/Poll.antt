-- ===== src/Poll.antt =====
-- The poll of FIGC_Script.js: a click on a card selects it and puts its answer into `#selectedAnswer`, the field of the
-- form.
pub mod Chosen
use lso_project.Prelude.{
  ℕ, zero, suc, Bool, true, false, Option, none, some, List, [], ◌∷◌, map, Text,
}

-- A card: its attribute `data-answer`, and its class `selected`.
pub record Card : Type 0 where
  pub answer : Option Text
  pub selected : Bool

pub record Poll : Type 0 where
  pub cards : List Card
  pub selected_answer : Text

abbrev pub unselect : Card → Card
unselect c = record c { selected = false }

abbrev pub add_selected : ℕ → List Card → List Card
add_selected i [] = []
add_selected zero (c ∷ cs) = record c { selected = true } ∷ cs
add_selected (suc i) (c ∷ cs) = c ∷ add_selected i cs

-- `val` of a value that is not there empties the field.
abbrev pub val_of : Option Text → Text
val_of none = []
val_of (some answer) = answer

-- What a card puts into the field, if there is such a card.
abbrev pub answer_of : ℕ → List Card → Option Text
answer_of i [] = none
answer_of zero (c ∷ cs) = some (val_of c.answer)
answer_of (suc i) (c ∷ cs) = answer_of i cs

abbrev pub choose : ℕ → Option Text → Poll → Poll
choose i none p = p
choose i (some answer) p = record {
  cards = add_selected i (map unselect p.cards);
  selected_answer = answer;
}

-- A click on the card i, of those that there are.
unfoldable pub click : ℕ → Poll → Poll
click i p = choose i (answer_of i p.cards) p
