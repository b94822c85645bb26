-- ===== src/Config/Values.antt =====
-- internal/config/config.go: tests on integers that may be negative, `cmp.Or`, sizes and durations,
-- and the texts that validation reads.
use Prim.Native.Char.{code}
use Prim.Native.String.{[], ◌∷◌}
use minicrond.Prelude.{
  ℕ, zero, suc, ◌-◌, ◌*◌, ◌/◌, ◌%◌, ◌^◌, String, Bool, true, false, ◌&&◌, ◌||◌, Option, none, some,
  ℤ, pos, negsuc, ltb, leb, eqb, if◌then◌else◌, ◌==◌, string_eq, nat_eq,
}

-- `z < n`, `z > n` and `z < w`.
abbrev pub lower_than : ℤ → ℕ → Bool
lower_than (pos a) n = ltb a n
lower_than (negsuc a) n = true

abbrev pub above : ℤ → ℕ → Bool
above (pos a) n = ltb n a
above (negsuc a) n = false

abbrev pub less : ℤ → ℤ → Bool
less (pos a) (pos b) = ltb a b
less (pos a) (negsuc b) = false
less (negsuc a) (pos b) = true
less (negsuc a) (negsuc b) = ltb b a

-- The zero value of a type, which `cmp.Or` skips.
pub record Zero (A : Type 0) : Type 0 where
  pub is_zero : A → Bool

abbrev int_zero : ℤ → Bool
int_zero (pos a) = a == 0
int_zero (negsuc a) = false

abbrev text_zero : String → Bool
text_zero [] = true
text_zero (c ∷ s) = false

instance abbrev pub zero_int : Zero ℤ
zero_int = record { is_zero = int_zero }

instance abbrev pub zero_text : Zero String
zero_text = record { is_zero = text_zero }

abbrev pub is_zero : {A : Type 0} ⦃z : Zero A⦄ → A → Bool
is_zero ⦃z⦄ = z.is_zero

-- `cmp.Or(a, b)`.
abbrev pub cmp_or : {A : Type 0} ⦃z : Zero A⦄ → A → A → A
cmp_or a b = if is_zero a then b else a

-- `if a == nil { a = b }`.
abbrev pub or_nil : {A : Type 0} → Option A → Option A → Option A
or_nil none b = b
or_nil (some a) b = some a

abbrev pub max_int64 : ℕ
max_int64 = 9223372036854775807

-- A product in `int64`, which wraps.
unfoldable pub int64 : ℕ → ℤ
int64 n = let m = n % 2 ^ 64 in if ltb m (2 ^ 63) then pos m else negsuc (2 ^ 64 - 1 - m)

-- `math.MaxInt64>>20`, and a shift by 20 bits.
unfoldable pub mebibytes : ℤ → ℤ
mebibytes (negsuc a) = pos 0
mebibytes (pos v) =
    if eqb v 0
    then pos 0
    else if ltb (max_int64 / 2 ^ 20) v
    then pos max_int64
    else int64 (v * 2 ^ 20)

abbrev pub second_ns : ℕ
second_ns = 1000000000

abbrev pub minute_ns : ℕ
minute_ns = 60000000000

abbrev pub day_ns : ℕ
day_ns = 86400000000000

-- `validateDuration` reports that the duration exceeds the supported range.
unfoldable pub too_long : ℤ → ℕ → Bool
too_long z zero = false
too_long z (suc u) = above z (max_int64 / suc u)

-- `strings.CutPrefix`, and the same with the text itself where the prefix is missing.
abbrev pub cut_prefix : String → String → Option String
cut_prefix s [] = some s
cut_prefix [] (d ∷ t) = none
cut_prefix (c ∷ s) (d ∷ t) = let rest = cut_prefix s t in if code c == code d then rest else none

abbrev or_text : String → Option String → String
or_text s none = s
or_text s (some t) = t

abbrev pub trim_prefix : String → String → String
trim_prefix s t = or_text s (cut_prefix s t)

-- `strings.Cut(s, c)`, the text before the byte.
abbrev pub before : ℕ → String → String
before b [] = []
before b (c ∷ s) = let rest = before b s in if code c == b then [] else c ∷ rest

-- `strings.ContainsAny(s, "=\x00")`.
abbrev pub has_any : String → Bool
has_any [] = false
has_any (c ∷ s) = code c == 61 || code c == 0 || has_any s

-- `a <= c && c <= b`, the class `[a-b]` of a pattern.
abbrev pub in_range : ℕ → ℕ → ℕ → Bool
in_range a b c = leb a c && leb c b

abbrev lower_or_digit : ℕ → Bool
lower_or_digit c = in_range 97 122 c || in_range 48 57 c

-- `[a-z0-9_.-]`.
abbrev pub name_byte : ℕ → Bool
name_byte c = lower_or_digit c || c == 95 || c == 46 || c == 45

-- `[a-z0-9_.-]{0,n}$`.
unfoldable pub name_rest : ℕ → String → Bool
name_rest n [] = true
name_rest zero (c ∷ s) = false
name_rest (suc n) (c ∷ s) = name_byte (code c) && name_rest n s

-- `namePattern`.
unfoldable pub name_pattern : String → Bool
name_pattern [] = false
name_pattern (c ∷ s) = lower_or_digit (code c) && name_rest 99 s

-- `clockPattern`.
unfoldable pub validate_clock : String → Bool
validate_clock (a ∷ b ∷ c ∷ d ∷ e ∷ []) =
    ((in_range 48 49 (code a) && in_range 48 57 (code b))
      || (code a == 50 && in_range 48 51 (code b)))
    && (code c == 58)
    && in_range 48 53 (code d)
    && in_range 48 57 (code e)
validate_clock _ = false
