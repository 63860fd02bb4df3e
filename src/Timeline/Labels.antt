-- ===== src/Timeline/Labels.antt =====
-- `_create.date`: the links that are made from the contents, with their texts. A text stands for the
-- value of `data-date` where jQuery's `data` gives it as a string. Of the parts of a date only
-- digits count as a number.
pub mod Dates
pub mod Suffix
use lso_project.Prelude.{
  read_number, ℕ, ◌-◌, ◌%◌, Bool, false, ◌&&◌, ◌||◌, Option, none, some, List, [], ◌∷◌, ◌++◌, ltb,
  ◌==◌, if◌then◌else◌, get_elem?, Text, codes, text_eq, split,
}
use lso_project.Timeline.{
  date_time, date, time, day_month, month_year, year, DateDisplay, Event, Content, ◌>>=◌,
}

-- `.replace(/^0+/, '')`
unfoldable pub strip_zeros : Text → Text
strip_zeros [] = []
strip_zeros (c ∷ s) = if c == b'0' then strip_zeros s else c ∷ s

-- `numSuffix`
abbrev pub by_last_digit : ℕ → Text
by_last_digit n =
    if n == 1
    then codes "st"
    else if n == 2
    then codes "nd"
    else if n == 3
    then codes "rd"
    else codes "th"

unfoldable pub num_suffix : Option ℕ → Text
num_suffix none = codes "th"
num_suffix (some n) = if ltb 3 n && ltb n 21 then codes "th" else by_last_digit (n % 10)

abbrev pub months : List Text
months =
    codes "January"
    ∷ codes "February"
    ∷ codes "March"
    ∷ codes "April"
    ∷ codes "May"
    ∷ codes "June"
    ∷ codes "July"
    ∷ codes "August"
    ∷ codes "September"
    ∷ codes "October"
    ∷ codes "November"
    ∷ codes "December"
    ∷ []

-- A missing value in a text.
abbrev pub or_undefined : Option Text → Text
or_undefined none = codes "undefined"
or_undefined (some s) = s

-- `monthName[monthPart]`, for a month part without leading zeros.
abbrev pub month_at : Text → Option ℕ → Option Text
month_at [] n = none
month_at (c ∷ s) none = none
month_at (c ∷ s) (some n) = get_elem? months (n - 1)

unfoldable pub month_name : Text → Text
unfolding read_number
month_name part = or_undefined (month_at part (read_number 0 part))

-- `dateParts[1].replace` throws where the date has no '/'.
pub record Parts : Type 0 where
  pub day_part : Text
  pub month_part : Text
  pub year_part : Option Text

abbrev pub parts_from : List Text → Option Parts
parts_from [] = none
parts_from (d ∷ []) = none
parts_from (d ∷ m ∷ []) =
    some (record { day_part = strip_zeros d; month_part = strip_zeros m; year_part = none })
parts_from (d ∷ m ∷ y ∷ ps) =
    some (record { day_part = strip_zeros d; month_part = strip_zeros m; year_part = some y })

unfoldable pub parts_of : Text → Option Parts
unfolding strip_zeros split
parts_of d = parts_from (split b'/' d)

abbrev pub br : Text
br = codes "<br>"

unfoldable pub day_month_text : Parts → Text
unfolding num_suffix read_number month_name
day_month_text p =
    p.day_part ++ num_suffix (read_number 0 p.day_part) ++ br ++ month_name p.month_part

unfoldable pub month_year_text : Parts → Text
unfolding month_name
month_year_text p = month_name p.month_part ++ br ++ or_undefined p.year_part

-- A custom text comes first, where it is not empty.
abbrev pub or_custom : Option Text → Option Text → Option Text
or_custom none text = text
or_custom (some []) text = text
or_custom (some (c ∷ s)) text = some (c ∷ s)

-- The three kinds of dates: DD/MM/YYYYTHH:MM, HH:MM and DD/MM/YYYY.
abbrev pub date_time_text : Text → Text → Parts → DateDisplay → Text
date_time_text d h p date_time = d ++ br ++ h
date_time_text d h p date = d
date_time_text d h p time = h
date_time_text d h p day_month = day_month_text p
date_time_text d h p month_year = month_year_text p
date_time_text d h p year = or_undefined p.year_part

unfoldable pub label_date_time : Text → Text → DateDisplay → Option Text → Option (Option Text)
unfolding parts_of day_month_text month_year_text
label_date_time d h display custom = do
  p ← parts_of d
  some (or_custom custom (some (date_time_text d h p display)))

abbrev pub time_text : Text → DateDisplay → Option Text
time_text h date_time = some h
time_text h time = some h
time_text h display = none

unfoldable pub label_time : Text → DateDisplay → Option Text → Option (Option Text)
label_time h display custom = some (or_custom custom (time_text h display))

abbrev pub date_text : Text → Parts → DateDisplay → Option Text
date_text d p date_time = some d
date_text d p date = some d
date_text d p time = none
date_text d p day_month = some (day_month_text p)
date_text d p month_year = some (month_year_text p)
date_text d p year = some (or_undefined p.year_part)

unfoldable pub label_date : Text → DateDisplay → Option Text → Option (Option Text)
unfolding parts_of day_month_text month_year_text
label_date d display custom = do p ← parts_of d; some (or_custom custom (date_text d p display))

abbrev pub contains : ℕ → Text → Bool
contains c [] = false
contains c (d ∷ s) = d == c || contains c s

abbrev pub label_pieces : Text → List Text → DateDisplay → Option Text → Option (Option Text)
label_pieces s (d ∷ h ∷ ps) display custom = label_date_time d h display custom
label_pieces s ps display custom =
    if contains b':' s then label_time s display custom else label_date s display custom

-- The text of a content's link: `none` where the code throws, `some none` where it makes no link.
unfoldable pub label_of : DateDisplay → Content → Option (Option Text)
unfolding label_date_time label_time label_date split
label_of display c = label_pieces c.date (split b'T' c.date) display c.custom_display

-- The link, before the layout gives it a place; `measure` is the width of a text.
abbrev pub link : (Text → ℕ) → Text → Text → Event
link measure d text = record {
  date = d;
  label = text;
  selected = false;
  older_event = false;
  first = false;
  last = false;
  left = 0;
  width = measure text;
}

pub data InsertMethod : Type 0 where
  append : InsertMethod
  after : Text → InsertMethod
  before : Text → InsertMethod

-- A new element after each element of a date, or before it.
abbrev pub insert_after {ℓ} : {A : Type ℓ} → (A → Text) → Text → A → List A → List A
insert_after date_of d x [] = []
insert_after date_of d x (y ∷ ys) =
    if text_eq d (date_of y)
    then y ∷ x ∷ insert_after date_of d x ys
    else y ∷ insert_after date_of d x ys

abbrev pub insert_before {ℓ} : {A : Type ℓ} → (A → Text) → Text → A → List A → List A
insert_before date_of d x [] = []
insert_before date_of d x (y ∷ ys) =
    if text_eq d (date_of y)
    then x ∷ y ∷ insert_before date_of d x ys
    else y ∷ insert_before date_of d x ys

unfoldable pub insert : InsertMethod → Event → List Event → List Event
insert append x es = es ++ x ∷ []
insert (after d) x es = insert_after (λ (e : Event). e.date) d x es
insert (before d) x es = insert_before (λ (e : Event). e.date) d x es

abbrev pub date_exists : Text → List Event → Bool
date_exists d [] = false
date_exists d (e ∷ es) = text_eq d e.date || date_exists d es

abbrev pub insert_label : (Text → ℕ) → InsertMethod → Text → Option Text → List Event → List Event
insert_label measure method d none es = es
insert_label measure method d (some text) es = insert method (link measure d text) es

-- `eventDateDisplay`, for one content.
unfoldable pub event_date_display :
    (Text → ℕ) → DateDisplay → InsertMethod → Content → List Event → Option (List Event)
event_date_display measure display method c es =
    if date_exists c.date es
    then some es
    else (do text ← label_of display c; some (insert_label measure method c.date text es))

-- `createDate`, for the contents in order.
unfoldable pub create_date :
    (Text → ℕ) → DateDisplay → InsertMethod → List Content → List Event → Option (List Event)
create_date measure display method [] es = some es
create_date measure display method (c ∷ cs) es = do
  es' ← event_date_display measure display method c es
  create_date measure display method cs es'
