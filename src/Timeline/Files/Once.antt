-- ===== src/Timeline/Files/Once.antt =====
-- How often a page loads a file, and who is told.
use lso_project.Prelude.{
  ℕ, suc, ◌+◌, ◌≤◌, ◌≡◌, refl, ap, ◌∙◌, ◌⊎◌, inl, inr, Bool, true, false, not, ◌&&◌, ◌||◌, Option,
  none, some, List, [], ◌∷◌, ◌++◌, arith, Bool-cases, All, if◌then◌else◌, Text, codes, text_eq,
  text_eq_iff, strip_prefix,
}
use lso_project.Timeline.{Settings, ◌>>=◌}
use lso_project.Timeline.Life.{in_array}
use lso_project.Timeline.Files.{
  FileType, js, css, Files, library_name, behind, ahead, file_exists, called, fetched, or_empty,
  add_named, add_file, font_awesome, mouse_wheel, touch_swipe, asks_if, required_files, add_files,
  start_all,
}

-- How often an address stands in a list.
unfoldable pub count : Text → List Text → ℕ
count u [] = 0
count u (x ∷ xs) = if text_eq u x then suc (count u xs) else count u xs

-- How often a script is asked for with a callback.
unfoldable pub asked : Text → List (FileType × Text) → ℕ
asked u [] = 0
asked u ((css, url) ∷ rs) = asked u rs
asked u ((js, url) ∷ rs) = if text_eq u url then suc (asked u rs) else asked u rs

unfoldable pub asked_by_all : Text → List Settings → ℕ
asked_by_all u [] = 0
asked_by_all u (s ∷ ss) = asked u (required_files s) + asked_by_all u ss

abbrev one_if : Bool → ℕ
one_if b = if b then 1 else 0

count-append :
    (u url : Text) (xs : List Text) → count u (xs ++ url ∷ []) ≡ count u xs + one_if (text_eq u url)
unfolding count
count-append u url [] = ground arith
count-append u url (x ∷ xs) = ground (arith, count-append u url xs)

in_array-append :
    (u url : Text) (xs : List Text) → in_array u (xs ++ url ∷ []) ≡ (in_array u xs || text_eq u url)
in_array-append u url [] = ground arith
in_array-append u url (x ∷ xs) = ground (arith, in_array-append u url xs)

-- A script that was fetched is noted.
Noted : Text → Files → Type 0
Noted u f = count u f.fetches ≤ one_if (in_array u (or_empty f.loaded_file))

told : Text → Files → ℕ
told u f = count u f.fetches + count u f.ran

module _ (u : Text) where
  request : FileType → Text → ℕ
  request css url = 0
  request js url = one_if (text_eq u url)

  told-called :
      (type : FileType) (url : Text) (f : Files)
      → told u (called type url f) ≡ told u f + request type url
  unfolding told request
  told-called js url f = omega (arith, count-append u url f.ran)
  told-called css url f = omega arith

  told-fetched :
      (type : FileType) (url : Text) (f : Files)
      → told u (fetched type url f) ≡ told u f + request type url
  unfolding told request
  told-fetched js url f = omega (arith, count-append u url f.fetches)
  told-fetched css url f = omega arith

  told-add_named :
      (name url : Text) (type : FileType) (f : Files)
      → told u (add_named name type url f) ≡ told u f + request type url
  unfolding add_named told
  told-add_named name url type f =
      elim (Bool-cases
        (not (in_array url (or_empty f.loaded_file)) && not (file_exists type name f))) [
          | inl new ↦ rw new (told-fetched type url f)
          | inr old ↦
              elim (Bool-cases
                (file_exists type name f && not (in_array url (or_empty f.loaded_file)))) [
                  | inl there ↦ rw (old, there) (told-called type url f)
                  | inr noted ↦ rw (old, noted) (told-called type url f)
                ]
        ]

  in_array-same :
      (url : Text) (l : List Text) → text_eq u url ≡ true → in_array u l ≡ in_array url l
  in_array-same url l h = ap (λ s. in_array s l) ((text_eq_iff u url).0 h)

  -- The address is noted, and fetched only where it was not noted before.
  Noted-more :
      (url : Text) (f g : Files)
      → Noted u f
      → (g.fetches ≡ f.fetches)
        ⊎ ((g.fetches ≡ f.fetches ++ url ∷ []) × (in_array url (or_empty f.loaded_file) ≡ false))
      → g.loaded_file ≡ some (or_empty f.loaded_file ++ url ∷ [])
      → Noted u g
  unfolding Noted
  Noted-more url f g n (inl kept) l =
      rw (kept, l, in_array-append u url (or_empty f.loaded_file)) (ground (arith, n))
  Noted-more url f g n (inr (more, new)) l =
      rw (more, l, in_array-append u url (or_empty f.loaded_file), count-append u url f.fetches)
        (elim (Bool-cases (text_eq u url)) [
          | inl same ↦
              let old = in_array-same url (or_empty f.loaded_file) same in
              ground (arith, n, same, old, new)
          | inr differs ↦ ground (arith, n, differs)
        ])

  fetches-called :
      (type : FileType) (url : Text) (f : Files) → (called type url f).fetches ≡ f.fetches
  fetches-called js url f = refl
  fetches-called css url f = refl

  fetches-fetched :
      (type : FileType) (url : Text) (f : Files)
      → in_array url (or_empty f.loaded_file) ≡ false
      → ((fetched type url f).fetches ≡ f.fetches)
        ⊎ (((fetched type url f).fetches ≡ f.fetches ++ url ∷ [])
            × (in_array url (or_empty f.loaded_file) ≡ false))
  fetches-fetched js url f h = inr (refl, h)
  fetches-fetched css url f h = inl refl

  Noted-add_named :
      (name url : Text) (type : FileType) (f : Files)
      → Noted u f
      → Noted u (add_named name type url f)
  unfolding add_named
  Noted-add_named name url type f n =
      elim (Bool-cases
        (not (in_array url (or_empty f.loaded_file)) && not (file_exists type name f))) [
          | inl new ↦
              let unknown : in_array url (or_empty f.loaded_file) ≡ false = ground (arith, new) in
              rw new (
                Noted-more url f
                  (record (fetched type url f) {
                    loaded_file = some (or_empty f.loaded_file ++ url ∷ []);
                  })
                  n (fetches-fetched type url f unknown) refl)
          | inr old ↦
              elim (Bool-cases
                (file_exists type name f && not (in_array url (or_empty f.loaded_file)))) [
                  | inl there ↦
                      rw (old, there)
                        (Noted-more url f
                          (record (called type url f) {
                            loaded_file = some (or_empty f.loaded_file ++ url ∷ []);
                          })
                          n (inl (fetches-called type url f)) refl)
                  | inr noted ↦ rw (old, noted) (unfold Noted in rw (fetches-called type url f) n)
                ]
        ]

  -- What a call leaves: it succeeds, tells of as many scripts more as it was asked for, and notes what
  -- it fetches.
  Tells : ℕ → Files → Option Files → Type 0
  Tells n f o = (f' : Files) × (o ≡ some f') × (told u f' ≡ told u f + n) × Noted u f'

  Noted-called :
      (type : FileType) (url : Text) (f : Files) → Noted u f → Noted u (called type url f)
  unfolding Noted
  Noted-called js url f n = n
  Noted-called css url f n = n

  add_file-Tells :
      (required : Bool) (type : FileType) (url name : Text) (f : Files)
      → library_name url ≡ some name
      → Noted u f
      → Tells (request type url) f (add_file required type url f)
  unfolding add_file Tells
  add_file-Tells true type url name f named n = (
    add_named name type url f,
    ap (λ o. o >>= λ m. some (add_named m type url f)) named,
    told-add_named name url type f,
    Noted-add_named name url type f n,
  )
  add_file-Tells false type url name f named n =
      (called type url f, refl, told-called type url f, Noted-called type url f n)

  add_files-Tells :
      (required : Bool) (rs : List (FileType × Text)) (f : Files)
      → All (λ r. (name : Text) × (library_name r.1 ≡ some name)) rs
      → Noted u f
      → Tells (asked u rs) f (add_files required rs f)
  unfolding Tells asked request
  add_files-Tells required [] f named n = (f, refl, omega arith, n)
  add_files-Tells required ((css, url) ∷ rs) f named n =
      let (g, p, a, b) = add_file-Tells required css url named.0.0 f named.0.1 n in
      let (h, q, c, d) = add_files-Tells required rs g named.1 b in
      (h, ap (λ o. o >>= λ g. add_files required rs g) p ∙ q, omega (arith, a, c), d)
  add_files-Tells required ((js, url) ∷ rs) f named n =
      let (g, p, a, b) = add_file-Tells required js url named.0.0 f named.0.1 n in
      let (h, q, c, d) = add_files-Tells required rs g named.1 b in
      (h, ap (λ o. o >>= λ g. add_files required rs g) p ∙ q, ground (arith, a, c), d)

  required_files-named :
      (wheel swipe : Bool)
      → All
          (λ r. (name : Text) × (library_name r.1 ≡ some name))
          ((css, font_awesome) ∷ asks_if wheel mouse_wheel ++ asks_if swipe touch_swipe)
  unfolding library_name behind ahead strip_prefix
  required_files-named true true = (
    (codes "font-awesome", refl),
    ((codes "jquery-mousewheel", refl), ((codes "jquery.touchswipe", refl), tt)),
  )
  required_files-named true false =
      ((codes "font-awesome", refl), ((codes "jquery-mousewheel", refl), tt))
  required_files-named false true =
      ((codes "font-awesome", refl), ((codes "jquery.touchswipe", refl), tt))
  required_files-named false false = ((codes "font-awesome", refl), tt)

  start_all-Tells :
      (ss : List Settings) (f : Files) → Noted u f → Tells (asked_by_all u ss) f (start_all ss f)
  unfolding Tells asked_by_all
  start_all-Tells [] f n = (f, refl, omega arith, n)
  start_all-Tells (s ∷ ss) f n =
      let (g, p, a, b) =
        add_files-Tells s.add_required_file (required_files s) f
          (required_files-named s.use_scroll_wheel s.use_touch_swipe) n in
      let (h, q, c, d) = start_all-Tells ss g b in
      (h, ap (λ o. o >>= λ g. start_all ss g) p ∙ q, omega (arith, a, c), d)

-- On a page where nothing was loaded yet, the start of any number of timelines, with any settings,
-- succeeds: no script is fetched twice, and each timeline that asks for a script is told of it once,
-- by a callback at once or by that of a fetch.
pub start_all-once :
    (u : Text) (ss : List Settings) (scripts links : List Text)
    → (f : Files) × (start_all ss
          (record { loaded_file = none; scripts = scripts; links = links; fetches = []; ran = [] })
        ≡ some f)
      × (count u f.fetches ≤ 1)
      × (count u f.fetches + count u f.ran ≡ asked_by_all u ss)
unfolding Tells Noted told count
start_all-once u ss scripts links =
    let start : Files = record {
      loaded_file = none;
      scripts = scripts;
      links = links;
      fetches = [];
      ran = [];
    } in
    let (f, p, a, b) = start_all-Tells u ss start (omega arith) in
    (f, p, ground (arith, b), omega (arith, a))
