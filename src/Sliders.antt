-- ===== src/Sliders.antt =====
-- The sliders of FIGC_Script.js: the settings that the page passes to lightSlider, one table for each
-- widget. A setting that is left out is `none`.
pub mod Fits
use lso_project.Prelude.{
  ℕ, Bool, true, false, Option, none, some, List, [], ◌∷◌, ◌==◌, if◌then◌else◌,
}

-- An entry of `responsive`: the settings for windows narrower than `breakpoint`.
pub record Breakpoint : Type 0 where
  pub breakpoint : ℕ
  pub item : ℕ
  pub slide_move : Option ℕ
  pub slide_margin : Option ℕ

pub record Slider : Type 0 where
  pub item : ℕ
  pub slide_move : Option ℕ
  pub controls : Bool
  pub auto : Bool
  pub loop : Bool
  pub responsive : List Breakpoint

abbrev pub at : ℕ → ℕ → ℕ → Breakpoint
at width n move = record {
  breakpoint = width;
  item = n;
  slide_move = some move;
  slide_margin = none;
}

-- The two e-commerce widgets differ in the number of items alone.
abbrev pub e_commerce_of : ℕ → Slider
e_commerce_of n = record {
  item = n;
  slide_move = some 2;
  controls = false;
  auto = false;
  loop = true;
  responsive =
      record { breakpoint = 1200; item = 3; slide_move = some 2; slide_margin = some 6 }
      ∷ at 991 2 1
      ∷ at 768 1 1
      ∷ [];
}

abbrev pub widget_slider : ℕ → List Breakpoint → Slider
widget_slider n bs = record {
  item = n;
  slide_move = none;
  controls = true;
  auto = false;
  loop = true;
  responsive = bs;
}

abbrev pub calciatori_slider : Slider
calciatori_slider =
    widget_slider 4
      (at 1186 3 1 ∷ at 976 3 1 ∷ at 768 4 1 ∷ at 650 3 1 ∷ at 470 2 1 ∷ at 300 1 1 ∷ [])

abbrev pub calciatori_col8_slider : Slider
calciatori_col8_slider = widget_slider 4 (at 1186 4 1 ∷ at 976 2 1 ∷ at 750 3 1 ∷ at 470 2 1 ∷ [])

abbrev pub content_int_slider : Slider
content_int_slider = widget_slider 5 (at 1186 3 1 ∷ at 976 2 1 ∷ at 750 3 1 ∷ at 470 2 1 ∷ [])

-- `data-figc-items` of the coaches' widget, a number where the attribute is there.
abbrev pub items_number : Option ℕ → ℕ
items_number none = 5
items_number (some n) = n

abbrev pub tecnici_slider : ℕ → Slider
tecnici_slider n = widget_slider n (
    at 1200 (if n == 3 then 2 else 4) 1
    ∷ at 992 (if n == 3 then 2 else 3) 1
    ∷ at 768 2 1
    ∷ at 470 1 1
    ∷ [])

pub data Widget : Type 0 where
  e_commerce : Widget
  e_commerce2 : Widget
  calciatori : Widget
  calciatori_col8 : Widget
  tecnici : Option ℕ → Widget
  content_int : Widget

unfoldable pub slider_of : Widget → Slider
slider_of e_commerce = e_commerce_of 4
slider_of e_commerce2 = e_commerce_of 3
slider_of calciatori = calciatori_slider
slider_of calciatori_col8 = calciatori_col8_slider
slider_of (tecnici attribute) = tecnici_slider (items_number attribute)
slider_of content_int = content_int_slider
