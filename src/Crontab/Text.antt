-- ===== src/Crontab/Text.antt =====
-- The functions of Go's `strings` and `bytes` that cmd/minicrond/crontab.go calls.
use Prim.Native.Char.{Char, code}
use Prim.Native.String.{String, [], ◌∷◌}
use minicrond.Prelude.{
  ℕ, Bool, true, false, ◌&&◌, ◌||◌, not, leb, eqb, if◌then◌else◌, List, Option, none, some,
}
use mathlib.Core.List.{[] as nil, ◌∷◌ as cons}

abbrev pub is_empty : String → Bool
is_empty [] = true
is_empty (c ∷ s) = false

-- `unicode.IsSpace`.
abbrev pub is_space : ℕ → Bool
is_space n =
    (leb 9 n && leb n 13)
    || eqb n 32
    || eqb n 133
    || eqb n 160
    || eqb n 5760
    || (leb 8192 n && leb n 8202)
    || eqb n 8232
    || eqb n 8233
    || eqb n 8239
    || eqb n 8287
    || eqb n 12288

abbrev pub trim_left : String → String
trim_left [] = []
trim_left (c ∷ s) = let rest = trim_left s in if is_space (code c) then rest else c ∷ s

abbrev pub trim_right : String → String
trim_right [] = []
trim_right (c ∷ s) =
    let rest = trim_right s in if is_empty rest && is_space (code c) then [] else c ∷ rest

-- `strings.TrimSpace`.
abbrev pub trim_space : String → String
trim_space s = trim_right (trim_left s)

abbrev pub glue : Char → List String → List String
glue c nil = cons (c ∷ []) nil
glue c (cons w ws) = cons (c ∷ w) ws

-- `strings.Split(s, "\n")`.
abbrev pub split : String → List String
split [] = cons [] nil
split (c ∷ s) = let rest = split s in if eqb (code c) 10 then cons [] rest else glue c rest

-- `bytes.SplitAfter(s, "\n")`.
abbrev pub split_after : String → List String
split_after [] = cons [] nil
split_after (c ∷ s) =
    let rest = split_after s in if eqb (code c) 10 then cons (c ∷ []) rest else glue c rest

-- `append(s, t...)`.
abbrev pub append : String → String → String
append [] t = t
append (c ∷ s) t = c ∷ append s t

-- `bytes.Join(ws, nil)`.
abbrev pub concat : List String → String
concat nil = []
concat (cons w ws) = append w (concat ws)

-- `strings.TrimSuffix(s, "\n")`.
abbrev pub trim_newline : String → String
trim_newline [] = []
trim_newline (c ∷ s) =
    let rest = trim_newline s in if is_empty s && eqb (code c) 10 then [] else c ∷ rest

-- Whether a text begins inside a field.
abbrev in_field : String → Bool
in_field [] = false
in_field (c ∷ s) = not (is_space (code c))

-- `strings.Fields`.
abbrev pub fields : String → List String
fields [] = nil
fields (c ∷ s) =
    let rest = fields s in
    if is_space (code c) then rest else if in_field s then glue c rest else cons (c ∷ []) rest

-- The text behind its first field, where it begins with one: `rest[len(strings.Fields(rest)[0]):]`.
abbrev pub after_field : String → String
after_field [] = []
after_field (c ∷ s) = let rest = after_field s in if is_space (code c) then c ∷ s else rest

-- `strings.Join(ws, " ")`.
abbrev pub join : List String → String
join nil = []
join (cons w nil) = w
join (cons w (cons v ws)) = append w (append " " (join (cons v ws)))

-- Whether a text begins with a byte, and whether it contains one.
abbrev pub begins_with : ℕ → String → Bool
begins_with b [] = false
begins_with b (c ∷ s) = eqb (code c) b

abbrev pub contains : ℕ → String → Bool
contains b [] = false
contains b (c ∷ s) = eqb (code c) b || contains b s

-- `len(value) >= 2` and the same quote at both ends: the text between them.
abbrev ends_with : ℕ → String → Bool
ends_with b [] = false
ends_with b (c ∷ []) = eqb (code c) b
ends_with b (c ∷ d ∷ s) = ends_with b (d ∷ s)

abbrev but_last : String → String
but_last [] = []
but_last (c ∷ []) = []
but_last (c ∷ d ∷ s) = c ∷ but_last (d ∷ s)

abbrev pub unquote : String → String
unquote [] = []
unquote (c ∷ s) =
    if (eqb (code c) 34 || eqb (code c) 39) && ends_with (code c) s then but_last s else c ∷ s

-- The classes of `cronAssignment`: `[A-Za-z_]`, `[A-Za-z_0-9]` and `\s`.
abbrev name_start : ℕ → Bool
name_start n = (leb 65 n && leb n 90) || (leb 97 n && leb n 122) || eqb n 95

abbrev name_part : ℕ → Bool
name_part n = name_start n || (leb 48 n && leb n 57)

abbrev blank : ℕ → Bool
blank n = eqb n 9 || eqb n 10 || eqb n 12 || eqb n 13 || eqb n 32

abbrev skip_blank : String → String
skip_blank [] = []
skip_blank (c ∷ s) = let rest = skip_blank s in if blank (code c) then rest else c ∷ s

abbrev name_of : String → String
name_of [] = []
name_of (c ∷ s) = let rest = name_of s in if name_part (code c) then c ∷ rest else []

abbrev behind_name : String → String
behind_name [] = []
behind_name (c ∷ s) = let rest = behind_name s in if name_part (code c) then rest else c ∷ s

abbrev value_of : String → String → Option (String × String)
value_of name [] = none
value_of name (c ∷ s) = if eqb (code c) 61 then some (name, skip_blank s) else none

-- `cronAssignment.FindStringSubmatch`: the name and the value.
abbrev pub assignment : String → Option (String × String)
assignment [] = none
assignment (c ∷ s) =
    if name_start (code c) then value_of (c ∷ name_of s) (skip_blank (behind_name s)) else none
