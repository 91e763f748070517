-- ===== src/Wal/Directory.antt =====
-- The names of the segments in the directory of pkg/wal/wal.go: what rotate writes with fmt.Sprintf("%016d.log"), and what
-- discoverSegments reads back with fmt.Sscanf.
use observe_x.Prelude.{
  ℕ, zero, suc, ◌+◌, ◌-◌, ◌*◌, ◌/◌, ◌%◌, ◌<◌, ◌≡◌, ◌∙◌, ap, refl, Bool, true, false, not, ◌&&◌,
  ◌||◌, Option, none, some, [], ◌∷◌, ◌++◌, length, drop, take, ltb, leb, ◌==◌, if◌then◌else◌,
  append_assoc, arith, length-append, drop-append,
}
use observe_x.Prelude.Text.{Text, codes, text_eq, text_eq_refl, is_digit, digits}
use observe_x.Auth.{is_space}

-- The ids from here on have more than 16 digits.
abbrev pub id_limit : ℕ
id_limit = 10000000000000000

-- The lowest decimal digits, with leading zeros.
unfoldable pub fixed_digits : ℕ → ℕ → Text
fixed_digits zero n = []
fixed_digits (suc w) n = fixed_digits w (n / 10) ++ (b'0' + n % 10) ∷ []

unfoldable pub segment_name : ℕ → Text
unfolding fixed_digits
segment_name id =
    if ltb id id_limit then fixed_digits 16 id ++ codes ".log" else digits id id ++ codes ".log"

pub record DirEntry : Type 0 where
  pub name : Text
  pub is_dir : Bool

unfoldable pub has_suffix : Text → Text → Bool
has_suffix s suffix =
    leb (length suffix) (length s) && text_eq (drop (length s - length suffix) s) suffix

-- The white space in front of a number; a line break is an error.
unfoldable pub skip_space : Text → Option Text
skip_space [] = some []
skip_space (c ∷ cs) =
    let rest = skip_space cs in if c == 10 then none else if is_space c then rest else some (c ∷ cs)

unfoldable pub starts_digit : Text → Bool
starts_digit [] = false
starts_digit (c ∷ cs) = is_digit c

-- At most so many digits, behind a number read so far.
unfoldable pub take_digits : ℕ → ℕ → Text → ℕ × Text
take_digits zero n cs = (n, cs)
take_digits (suc w) n [] = (n, [])
take_digits (suc w) n (c ∷ cs) =
    let later = take_digits w (n * 10 + (c - b'0')) cs in if is_digit c then later else (n, c ∷ cs)

unfoldable pub scan_number : Text → Option (ℕ × Text)
unfolding take_digits starts_digit
scan_number cs = if starts_digit cs then some (take_digits 16 0 cs) else none

unfoldable pub scan_extension : Option (ℕ × Text) → Option ℕ
scan_extension none = none
scan_extension (some p) = if text_eq (take 4 p.1) (codes ".log") then some p.0 else none

unfoldable pub scan_rest : Option Text → Option ℕ
unfolding scan_number scan_extension
scan_rest none = none
scan_rest (some cs) = scan_extension (scan_number cs)

-- fmt.Sscanf(name, "%016d.log", &id), which ignores what follows.
unfoldable pub scan_segment_name : Text → Option ℕ
unfolding skip_space scan_rest
scan_segment_name name = scan_rest (skip_space name)

-- The tests of discoverSegments on an entry.
unfoldable pub segment_id_of : DirEntry → Option ℕ
unfolding has_suffix scan_segment_name
segment_id_of e =
    if e.is_dir || not (has_suffix e.name (codes ".log")) then none else scan_segment_name e.name

abbrev ten_to : ℕ → ℕ
ten_to zero = 1
ten_to (suc w) = 10 * ten_to w

starts_digit-fixed_digits :
    (w n : ℕ) (rest : Text) → starts_digit (fixed_digits (suc w) n ++ rest) ≡ true
unfolding starts_digit fixed_digits
starts_digit-fixed_digits zero n rest = ground (arith, n % 10)
starts_digit-fixed_digits (suc w) n rest =
    ap starts_digit (append_assoc (fixed_digits (suc w) (n / 10)) ((b'0' + n % 10) ∷ []) rest)
    ∙ starts_digit-fixed_digits w (n / 10) ((b'0' + n % 10) ∷ rest)

skip_space-digit : (cs : Text) → starts_digit cs ≡ true → skip_space cs ≡ some cs
unfolding starts_digit skip_space is_space
skip_space-digit [] h = refl
skip_space-digit (c ∷ cs) h = ground (arith, h)

take_digits-digit :
    (k n d : ℕ) (rest : Text)
    → d < 10
    → take_digits (suc k) n ((b'0' + d) ∷ rest) ≡ take_digits k (n * 10 + d) rest
unfolding take_digits
take_digits-digit k n d rest h = ground (arith, h)

take_digits-fixed_digits :
    (w k n : ℕ) (rest : Text)
    → n < ten_to w
    → take_digits (w + k) 0 (fixed_digits w n ++ rest) ≡ take_digits k n rest
unfolding fixed_digits
take_digits-fixed_digits zero k n rest h =
    ap (λ j. take_digits j 0 rest) (omega arith) ∙ ap (λ m. take_digits k m rest) (omega (arith, h))
take_digits-fixed_digits (suc w) k n rest h =
    ap (λ t. take_digits (suc w + k) 0 t)
      (append_assoc (fixed_digits w (n / 10)) ((b'0' + n % 10) ∷ []) rest)
    ∙ ap (λ j. take_digits j 0 (fixed_digits w (n / 10) ++ (b'0' + n % 10) ∷ rest)) (omega arith)
    ∙ take_digits-fixed_digits w (suc k) (n / 10) ((b'0' + n % 10) ∷ rest) (omega (arith, h))
    ∙ take_digits-digit k (n / 10) (n % 10) rest (omega arith)
    ∙ ap (λ m. take_digits k m rest) (omega arith)

has_suffix-append : (s suffix : Text) → has_suffix (s ++ suffix) suffix ≡ true
unfolding has_suffix
has_suffix-append s suffix =
    grind (arith, length-append s suffix, drop-append s suffix, text_eq_refl suffix)

take_digits_none : (n : ℕ) (rest : Text) → take_digits 0 n rest ≡ (n, rest)
unfolding take_digits
take_digits_none n rest = refl

scan_number-name :
    (id : ℕ)
    → id < id_limit
    → scan_number (fixed_digits 16 id ++ codes ".log") ≡ some (id, codes ".log")
unfolding scan_number
scan_number-name id h = ground (
  arith,
  starts_digit-fixed_digits 15 id (codes ".log"),
  take_digits-fixed_digits 16 0 id (codes ".log") (omega (arith, h)),
  take_digits_none id (codes ".log"),
)

ltb-true : (a b : ℕ) → a < b → ltb a b ≡ true
ltb-true a b h = ground (arith, h)

scan_segment_name-name :
    (id : ℕ) → id < id_limit → scan_segment_name (fixed_digits 16 id ++ codes ".log") ≡ some id
unfolding scan_segment_name scan_rest scan_extension text_eq
scan_segment_name-name id h =
    ap scan_rest (
      skip_space-digit (fixed_digits 16 id ++ codes ".log")
        (starts_digit-fixed_digits 15 id (codes ".log")))
    ∙ ap scan_extension (scan_number-name id h)

entry_id :
    (name : Text) (found : Option ℕ)
    → has_suffix name (codes ".log") ≡ true
    → scan_segment_name name ≡ found
    → segment_id_of (record { name = name; is_dir = false }) ≡ found
unfolding segment_id_of
entry_id name found named scanned =
    ap (λ b. if false || not b then none else scan_segment_name name) named ∙ scanned

segment_name-short : (id : ℕ) → id < id_limit → segment_name id ≡ fixed_digits 16 id ++ codes ".log"
unfolding segment_name
segment_name-short id h =
    ap (λ b. if b then fixed_digits 16 id ++ codes ".log" else digits id id ++ codes ".log")
      (ltb-true id id_limit h)

-- The name that rotate gives a segment, if its id has at most 16 digits, passes the tests of discoverSegments, and its id comes back.
pub segment_id_of-segment_name :
    (id : ℕ)
    → id < id_limit
    → segment_id_of (record { name = segment_name id; is_dir = false }) ≡ some id
segment_id_of-segment_name id h =
    ap (λ t. segment_id_of (record { name = t; is_dir = false })) (segment_name-short id h)
    ∙ entry_id (fixed_digits 16 id ++ codes ".log") (some id)
        (has_suffix-append (fixed_digits 16 id) (codes ".log")) (scan_segment_name-name id h)
