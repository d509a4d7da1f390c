-- ===== src/Discover/Instance.antt =====
-- `sanitize_instance` of core/src/discover.rs: the mDNS instance label made of a device's name.
use dropwire.Prelude.{
  ℕ, zero, suc, if_both, ◌≤◌, Bool, true, ◌&&◌, ◌||◌, [], ◌∷◌, map, if◌then◌else◌, leb, ◌==◌,
  nat_eq, Text, code_points, take, length, All, ◌≡◌, ◌≢◌, refl, arith,
}

pub is_label_char : ℕ → Bool
is_label_char c =
    (leb b'0' c && leb c b'9')
    || (leb b'A' c && leb c b'Z')
    || (leb b'a' c && leb c b'z')
    || (c == b'-')
    || (c == b'.')

cleaned : ℕ → ℕ
unfolding is_label_char
cleaned c = if is_label_char c then c else b'-'

trim_start : ℕ → Text → Text
trim_start sep [] = []
trim_start sep (c ∷ cs) = if c == sep then trim_start sep cs else c ∷ cs

keep_before : ℕ → ℕ → Text → Text
keep_before sep c [] = if c == sep then [] else c ∷ []
keep_before sep c (d ∷ ds) = c ∷ d ∷ ds

trim_end : ℕ → Text → Text
unfolding keep_before
trim_end sep [] = []
trim_end sep (c ∷ cs) = keep_before sep c (trim_end sep cs)

-- `trim_matches` of one character.
trim_matches : ℕ → Text → Text
unfolding trim_start trim_end
trim_matches sep s = trim_end sep (trim_start sep s)

shortened : Text → Text
shortened [] = code_points "device"
shortened (c ∷ cs) = take 40 (c ∷ cs)

pub sanitize_instance : Text → Text
unfolding cleaned trim_matches shortened
sanitize_instance name = shortened (trim_matches b'-' (trim_matches b'.' (map cleaned name)))

IsLabel : Text → Type 0
unfolding is_label_char
IsLabel = All (λ c. is_label_char c ≡ true)

dash-IsLabel : is_label_char b'-' ≡ true
unfolding is_label_char
dash-IsLabel = refl

cleaned_ok : (c : ℕ) → is_label_char (cleaned c) ≡ true
unfolding cleaned
cleaned_ok c = ground (arith, dash-IsLabel)

map-cleaned-IsLabel : (s : Text) → IsLabel (map cleaned s)
unfolding IsLabel
map-cleaned-IsLabel [] = tt
map-cleaned-IsLabel (c ∷ cs) = (cleaned_ok c, map-cleaned-IsLabel cs)

trim_start-IsLabel : (sep : ℕ) (s : Text) → IsLabel s → IsLabel (trim_start sep s)
unfolding IsLabel trim_start
trim_start-IsLabel sep [] l = tt
trim_start-IsLabel sep (c ∷ cs) l = if_both IsLabel (c == sep) (trim_start-IsLabel sep cs l.1) l

keep_before-IsLabel :
    (sep c : ℕ) (s : Text) → is_label_char c ≡ true → IsLabel s → IsLabel (keep_before sep c s)
unfolding IsLabel keep_before
keep_before-IsLabel sep c [] h l = if_both IsLabel (c == sep) tt (h, tt)
keep_before-IsLabel sep c (d ∷ ds) h l = (h, l)

trim_end-IsLabel : (sep : ℕ) (s : Text) → IsLabel s → IsLabel (trim_end sep s)
unfolding IsLabel trim_end
trim_end-IsLabel sep [] l = tt
trim_end-IsLabel sep (c ∷ cs) l =
    keep_before-IsLabel sep c (trim_end sep cs) l.0 (trim_end-IsLabel sep cs l.1)

trim_matches-IsLabel : (sep : ℕ) (s : Text) → IsLabel s → IsLabel (trim_matches sep s)
unfolding trim_matches
trim_matches-IsLabel sep s l = trim_end-IsLabel sep (trim_start sep s) (trim_start-IsLabel sep s l)

take-IsLabel : (n : ℕ) (s : Text) → IsLabel s → IsLabel (take n s)
unfolding IsLabel
take-IsLabel zero s l = tt
take-IsLabel (suc n) [] l = tt
take-IsLabel (suc n) (c ∷ cs) l = (l.0, take-IsLabel n cs l.1)

length-take : (n : ℕ) (s : Text) → length (take n s) ≤ n
length-take zero s = omega arith
length-take (suc n) [] = omega arith
length-take (suc n) (c ∷ cs) = omega (arith, length-take n cs)

-- What a DNS label may be: friendly characters, at least one, at most forty.
pub IsInstance : Text → Type 0
unfolding IsLabel
IsInstance s = IsLabel s × (s ≢ []) × (length s ≤ 40)

shortened-IsInstance : (s : Text) → IsLabel s → IsInstance (shortened s)
unfolding IsInstance IsLabel shortened is_label_char
shortened-IsInstance [] l =
    ((refl, (refl, (refl, (refl, (refl, (refl, tt)))))), (λ e. ground arith), omega arith)
shortened-IsInstance (c ∷ cs) l =
    (take-IsLabel 40 (c ∷ cs) l, (λ e. ground arith), length-take 40 (c ∷ cs))

-- Whatever a device is called, its instance name consists of letters, digits, dashes and dots, is
-- not empty and has at most forty characters.
pub sanitize_instance-IsInstance : (name : Text) → IsInstance (sanitize_instance name)
unfolding sanitize_instance
sanitize_instance-IsInstance name =
    shortened-IsInstance (trim_matches b'-' (trim_matches b'.' (map cleaned name))) (
      trim_matches-IsLabel b'-' (trim_matches b'.' (map cleaned name))
        (trim_matches-IsLabel b'.' (map cleaned name) (map-cleaned-IsLabel name)))
