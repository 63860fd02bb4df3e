-- ===== src/Carousel.antt =====
-- The carousels of FIGC_Script.js, at Bootstrap's event `slide.bs.carousel`: the handler of the video widget, which
-- pauses the item that goes, and the one that moves the class `active` of the posts.
pub mod Quiet
use lso_project.Prelude.{ℕ, zero, suc, Bool, true, false, List, [], ◌∷◌, ◌++◌, map, Text, codes}

-- An item: whether each of its videos plays, and the messages that each of its iframes was sent.
pub record Item : Type 0 where
  pub videos : List Bool
  pub iframes : List (List Text)

-- The items, the class `active` of the posts, and the item that Bootstrap shows.
pub record Carousel : Type 0 where
  pub items : List Item
  pub posts : List Bool
  pub current : ℕ

abbrev pub pause_video : Text
pause_video = codes "{\"event\":\"command\",\"func\":\"pauseVideo\",\"args\":\"\"}"

abbrev pub post_message : List (List Text) → List (List Text)
post_message [] = []
post_message (sent ∷ iframes) = (sent ++ pause_video ∷ []) ∷ iframes

abbrev pub pause_by : List Bool → Item → Item
pause_by [] x = record x { iframes = post_message x.iframes }
pause_by (v ∷ vs) x = record x { videos = false ∷ vs }

-- The first video of an item is paused, or else its first iframe gets the message.
unfoldable pub pause : Item → Item
pause x = pause_by x.videos x

abbrev pub on_item : (Item → Item) → ℕ → List Item → List Item
on_item f i [] = []
on_item f zero (x ∷ xs) = f x ∷ xs
on_item f (suc i) (x ∷ xs) = x ∷ on_item f i xs

abbrev pub inactive : Bool → Bool
inactive b = false

abbrev pub add_active : ℕ → List Bool → List Bool
add_active i [] = []
add_active zero (b ∷ bs) = true ∷ bs
add_active (suc i) (b ∷ bs) = b ∷ add_active i bs

abbrev pub activate : ℕ → List Bool → List Bool
activate i bs = add_active i (map inactive bs)

-- Bootstrap slides to an item.
unfoldable pub slide : ℕ → Carousel → Carousel
unfolding pause
slide to c = record {
  items = on_item pause c.current c.items;
  posts = activate to c.posts;
  current = to;
}
