-- ===== src/Units/Sizes.antt =====
-- crates/virtio-mem-core/src/units.rs: sizes as they are written in settings.
use virtio_mem_windows_servi.Prelude.{
  ℕ, ◌+◌, ◌-◌, ◌*◌, ◌/◌, ◌%◌, ◌^◌, Bool, not, ◌&&◌, ◌||◌, Option, none, some, [], ◌∷◌, ◌++◌, map,
  Result, ok_or, fail_if, ◌>>=◌, ◌>>◌, Text, codes, text_eq, trim, is_empty, byte_len, all, leb,
  ltb, ◌==◌, if◌then◌else◌, u64_mod,
}

pub data SizeError : Type 0 where
  unknown_unit invalid_size too_large not_whole : SizeError

-- `char::is_ascii_digit` and `to_ascii_lowercase`.
unfoldable pub is_digit : ℕ → Bool
is_digit c = leb 0x30 c && leb c 0x39

unfoldable pub lower : ℕ → ℕ
lower c = if leb 0x41 c && leb c 0x5a then c + 0x20 else c

abbrev pub push : ℕ → Text × Text → Text × Text
push c (front, back) = (c ∷ front, back)

-- The number, of digits and points, and the unit behind it.
unfoldable pub split_number : Text → Text × Text
unfolding is_digit
split_number [] = ([], [])
split_number (c ∷ cs) =
    let rest = split_number cs in if is_digit c || c == 0x2e then push c rest else ([], c ∷ cs)

-- `split_once('.')`, with an empty fraction where there is no point.
unfoldable pub split_point : Text → Text × Text
split_point [] = ([], [])
split_point (c ∷ cs) = let rest = split_point cs in if c == 0x2e then ([], cs) else push c rest

abbrev pub is_one_of : Text → Text → Text → Text → Bool
is_one_of unit a b c = text_eq unit a || text_eq unit b || text_eq unit c

unfoldable pub unit_shift : Text → Option ℕ
unit_shift unit =
    if text_eq unit (codes "") || text_eq unit (codes "b")
    then some 0
    else if is_one_of unit (codes "k") (codes "kb") (codes "kib")
    then some 10
    else if is_one_of unit (codes "m") (codes "mb") (codes "mib")
    then some 20
    else if is_one_of unit (codes "g") (codes "gb") (codes "gib")
    then some 30
    else if is_one_of unit (codes "t") (codes "tb") (codes "tib")
    then some 40
    else none

-- The value of decimal digits behind `high`.
unfoldable pub digits_value : ℕ → Text → ℕ
digits_value high [] = high
digits_value high (c ∷ cs) = digits_value (high * 10 + (c - 0x30)) cs

abbrev pub u128_mod : ℕ
u128_mod = 2 ^ 128

-- `parse::<u128>` of digits.
unfoldable pub parse_u128 : Text → Option ℕ
unfolding digits_value
parse_u128 t = let value = digits_value 0 t in if ltb value u128_mod then some value else none

-- `checked_shl`, and the check that no bit was lost.
unfoldable pub shift_u128 : ℕ → ℕ → Option ℕ
shift_u128 digits unit =
    let scaled = digits * unit % u128_mod in if scaled / unit == digits then some scaled else none

unfoldable pub whole_bytes : ℕ → ℕ → Result SizeError ℕ
whole_bytes scaled scale = do
  fail_if (not (scaled % scale == 0)) not_whole
  ok_or (if ltb (scaled / scale) u64_mod then some (scaled / scale) else none) too_large

unfoldable pub size_of : ℕ → ℕ → ℕ → Result SizeError ℕ
unfolding shift_u128 whole_bytes
size_of digits unit scale = do
  scaled ← ok_or (shift_u128 digits unit) too_large
  whole_bytes scaled scale

unfoldable pub is_number : Text → Text → Bool
unfolding is_digit
is_number whole fraction =
    not (is_empty whole && is_empty fraction)
    && all is_digit (whole ++ fraction)
    && leb (byte_len fraction) 18

unfoldable pub parse_number : Text × Text → ℕ → Result SizeError ℕ
unfolding is_number parse_u128 size_of
parse_number (whole, fraction) shift = do
  fail_if (not (is_number whole fraction)) invalid_size
  digits ← ok_or (parse_u128 (whole ++ fraction)) too_large
  size_of digits (2 ^ shift) (10 ^ byte_len fraction)

-- The number and the unit of a trimmed text.
unfoldable pub parse_parts : Text × Text → Result SizeError ℕ
unfolding parse_number split_point unit_shift lower
parse_parts (number, unit) = do
  shift ← ok_or (unit_shift (map lower (trim unit))) unknown_unit
  parse_number (split_point number) shift

unfoldable pub parse_byte_size : Text → Result SizeError ℕ
unfolding parse_parts split_number
parse_byte_size text = parse_parts (split_number (trim text))
