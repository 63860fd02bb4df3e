-- ===== src/Tests/Pages.antt =====
-- Lazy.antt at a page of two images.
use lso_project.Prelude.{ℕ, ◌≡◌, refl, true, none, some, List, [], ◌∷◌, codes}
use lso_project.Lazy.{View, is_in_viewport, Image, Page}
use lso_project.Lazy.Seen.{scrolled_all, seen, AllLoad, scrolled_all-AllLoad}

abbrev image : ℕ → Image
image y = record { image_top = y; image_height = 200; lazy = codes "a.jpg"; src = none }

abbrev page : Page
page = record {
  images = image 100 ∷ image 5000 ∷ [];
  wall = record { wall_top = 3000; wall_height = 400; query = some (codes "w=1"); loaded = [] };
}

abbrev views : List View
views =
    record { view_top = 0; view_height = 800 } ∷ record { view_top = 2500; view_height = 800 } ∷ []

wall_seen : seen views 3000 400 ≡ true
unfolding is_in_viewport
wall_seen = refl

scrolled_all-AllLoad_example : AllLoad views page.images (scrolled_all views page).images
scrolled_all-AllLoad_example = scrolled_all-AllLoad views page
