-- ===== src/Measurement.antt =====
-- crates/euledb-storage/src/measurement.rs: sets of row ids, and how many rows a plan examined. The bitmaps
-- of the crate roaring are the parameter `Bitmap`, the floats of 64 bits the parameter `Float64`; a row id
-- is the number that it wraps.
use eule_db.Common.{
  ℕ, ◌-◌, ◌*◌, ◌^◌, min, max, List, [], ◌∷◌, ◌++◌, drop, length, Bool, true, false,
}
use eule_db.Common.{◌&&◌, ◌||◌, leb, ◌==◌, Option, some, none, eq_bytes, if◌then◌else◌, ◌≡◌}
use eule_db.Common.Text.{Text, codes, starts_with}
use eule_db.Audit.Line.{parse_u64}

abbrev pub is_member : ℕ → List ℕ → Bool
is_member r [] = false
is_member r (x ∷ xs) = x == r || is_member r xs

pub record Bitmap : Type 1 where
  pub Rows : Type 0
  pub from_rows : List ℕ → Rows
  pub both : Rows → Rows → Rows
  pub either : Rows → Rows → Rows
  pub contains : Rows → ℕ → Bool
  pub len : Rows → ℕ
  -- In ascending order
  pub elements : Rows → List ℕ

-- What the crate documents of its sets.
pub record IsBitmap (b : Bitmap) : Type 0 where
  pub contains_from_rows :
      (rows : List ℕ) (r : ℕ) → b.contains (b.from_rows rows) r ≡ is_member r rows
  pub contains_both :
      (s t : b.Rows) (r : ℕ) → b.contains (b.both s t) r ≡ b.contains s r && b.contains t r
  pub contains_either :
      (s t : b.Rows) (r : ℕ) → b.contains (b.either s t) r ≡ b.contains s r || b.contains t r

module _ (b : Bitmap) where
  unfoldable pub intersect_all : b.Rows → List b.Rows → b.Rows
  intersect_all kept [] = kept
  intersect_all kept (next ∷ rest) = intersect_all (b.both kept next) rest

  unfoldable pub union_all : b.Rows → List b.Rows → b.Rows
  union_all all [] = all
  union_all all (next ∷ rest) = union_all (b.either all next) rest

pub record Measured (A : Type 0) : Type 0 where
  pub value : A
  pub rows_examined : ℕ

-- `str::parse`, a comparison with 0, a product with a whole number, and a cast to 64 bits.
pub record Float64 : Type 1 where
  pub F64 : Type 0
  pub parse_f64 : Text → Option F64
  pub at_least_zero : F64 → Bool
  pub times : F64 → ℕ → F64
  pub to_u64 : F64 → ℕ

-- "rows_scanned="
abbrev pub metric : Text
metric = codes "rows_scanned="

-- `u64::saturating_mul`
abbrev pub saturating_mul : ℕ → ℕ → ℕ
saturating_mul a c = min (a * c) (2 ^ 64 - 1)

abbrev pub is_ascii_alphanumeric : ℕ → Bool
is_ascii_alphanumeric c =
    leb b'0' c && leb c b'9' || (leb b'a' c && leb c b'z' || leb b'A' c && leb c b'Z')

abbrev pub is_in_value : ℕ → Bool
is_in_value c = c == b'.' || (c == b' ' || is_ascii_alphanumeric c)

-- The text up to the first character that no value has.
unfoldable pub value_of : Text → Text
value_of [] = []
value_of (c ∷ cs) = if is_in_value c then c ∷ value_of cs else []

-- `str::trim` of a text whose only white space is the blank.
unfoldable pub trim_start : Text → Text
trim_start [] = []
trim_start (c ∷ cs) = if c == b' ' then trim_start cs else c ∷ cs

unfoldable pub trim_end : Text → Text
trim_end [] = []
trim_end (c ∷ cs) = let rest = trim_end cs in if c == b' ' && is_nil rest then [] else c ∷ rest
  where
    is_nil : Text → Bool
    is_nil [] = true
    is_nil (d ∷ ds) = false

-- `str::split_once(' ')`, from what is before the text.
unfoldable pub split_blank : Text → Text → Option (Text × Text)
split_blank before [] = none
split_blank before (c ∷ cs) =
    if c == b' ' then some (before, cs) else split_blank (before ++ (c ∷ [])) cs

unfoldable pub scale_of : Text → Option ℕ
scale_of suffix =
    if eq_bytes suffix (codes "K")
    then some 1000
    else if eq_bytes suffix (codes "M")
    then some 1000000
    else if eq_bytes suffix (codes "G")
    then some 1000000000
    else none

module _ (f : Float64) where
  -- The digits, at a scale.
  abbrev pub non_negative : ℕ → Option f.F64 → Option ℕ
  non_negative scale none = none
  non_negative scale (some v) =
      if f.at_least_zero v then some (f.to_u64 (f.times v scale)) else none

  abbrev pub count_at : Text → ℕ → Option ℕ → Option ℕ
  count_at digits scale (some exact) = some (saturating_mul exact scale)
  count_at digits scale none = non_negative scale (f.parse_f64 digits)

  abbrev pub scaled_count : Text → Option ℕ → Option ℕ
  scaled_count digits none = none
  scaled_count digits (some scale) = count_at digits scale (parse_u64 digits)

  abbrev pub count_parts : Text → Option (Text × Text) → Option ℕ
  count_parts text none = count_at text 1 (parse_u64 text)
  count_parts text (some (digits, suffix)) = scaled_count digits (scale_of suffix)

  unfoldable pub parse_human_count : Text → Option ℕ
  unfolding split_blank scale_of
  parse_human_count text = count_parts text (split_blank [] text)

  abbrev pub wider : Option ℕ → ℕ → ℕ
  wider none widest = widest
  wider (some rows) widest = max rows widest

  -- The metric does not overlap itself, so that every place is looked at.
  unfoldable pub widest_scan : Text → ℕ
  unfolding value_of trim_start trim_end parse_human_count
  widest_scan [] = 0
  widest_scan (c ∷ cs) =
      let rest = widest_scan cs in
      if starts_with (c ∷ cs) metric
      then wider
          (parse_human_count (trim_end (trim_start (value_of (drop (length metric) (c ∷ cs))))))
          rest
      else rest
