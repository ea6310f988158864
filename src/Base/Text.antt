-- ===== src/Base/Text.antt =====
-- What the source takes from Go's `strings`, `strconv` and `fmt`, over the native texts.
use Prim.Native.Nat.{ℕ, zero, suc, ◌/◌, ◌%◌, ◌<◌}
use Prim.Native.Char.{Char, code}
use Prim.Native.String.{String, ◌++◌, len, find}
use mathlib.Core.Path.{◌≡◌, refl, sym, ◌∙◌}
use mathlib.Core.Bool.{Bool, true, false, ◌&&◌, ◌||◌}
use Prim.Native.String.append
use mathlib.Core.List.{List, [], ◌∷◌}
use native.Mathlib.Omega.{arith}
use eyrie.Base.Tests.{leb, ltb, ◌==◌, nat_eq, string_eq, nat_beq_iff, if◌then◌else◌}

-- The texts of a list, one behind the other.
abbrev pub concat : List String → String
concat [] = ""
concat (s ∷ r) = s ++ concat r

-- `strings.Join(parts, sep)`
abbrev pub join : String → List String → String
join sep [] = ""
join sep (s ∷ []) = s
join sep (s ∷ t ∷ r) = s ++ (sep ++ join sep (t ∷ r))

-- `strings.Contains(s, part)`: `find` answers a position past the end where there is none.
unfoldable pub contains_text : String → String → Bool
contains_text s part = leb (find s part) (len s)

unfoldable pub contains_char : Char → String → Bool
contains_char c String.[] = false
contains_char c (String.◌∷◌ d s) = code d == code c || contains_char c s

contains_char-append : (c : Char) (s t : String) → contains_char c (s ++ String.◌∷◌ c t) ≡ true
unfolding contains_char
contains_char-append c String.[] t =
    rw (append.nil, contains_char) (ground (arith, nat_beq_iff (code c) (code c)))
contains_char-append c (String.◌∷◌ d s) t =
    rw (append.cons, contains_char) (ground (arith, contains_char-append c s t))

-- What stands before and after the last separator is determined by the whole text.
pub split_at_last :
    (c : Char) (s s' t t' : String)
    → contains_char c t ≡ false
    → contains_char c t' ≡ false
    → s ++ String.◌∷◌ c t ≡ s' ++ String.◌∷◌ c t'
    → (s ≡ s') × (t ≡ t')
unfolding contains_char
split_at_last c String.[] String.[] t t' h k e =
    let e' : String.◌∷◌ c t ≡ String.◌∷◌ c t' =
      sym (append.nil (String.◌∷◌ c t)) ∙ e ∙ append.nil (String.◌∷◌ c t') in
    (refl, ground arith)
split_at_last c String.[] (String.◌∷◌ d s') t t' h k e =
    let e' : String.◌∷◌ c t ≡ String.◌∷◌ d (s' ++ String.◌∷◌ c t') =
      sym (append.nil (String.◌∷◌ c t)) ∙ e ∙ append.cons d s' (String.◌∷◌ c t') in
    ground (arith, contains_char-append c s' t')
split_at_last c (String.◌∷◌ d s) String.[] t t' h k e =
    let e' : String.◌∷◌ d (s ++ String.◌∷◌ c t) ≡ String.◌∷◌ c t' =
      sym (append.cons d s (String.◌∷◌ c t)) ∙ e ∙ append.nil (String.◌∷◌ c t') in
    ground (arith, contains_char-append c s t)
split_at_last c (String.◌∷◌ d s) (String.◌∷◌ d' s') t t' h k e =
    let e' : String.◌∷◌ d (s ++ String.◌∷◌ c t) ≡ String.◌∷◌ d' (s' ++ String.◌∷◌ c t') =
      sym (append.cons d s (String.◌∷◌ c t)) ∙ e ∙ append.cons d' s' (String.◌∷◌ c t') in
    ground (arith, split_at_last c s s' t t')

-- Go's `unicode.IsSpace`
unfoldable pub is_space : Char → Bool
is_space c =
    let n = code c in
    (leb 9 n && leb n 13)
    || n == 32
    || n == 133
    || n == 160
    || n == 5760
    || (leb 8192 n && leb n 8202)
    || n == 8232
    || n == 8233
    || n == 8239
    || n == 8287
    || n == 12288

unfoldable pub trim_left : String → String
unfolding is_space
trim_left String.[] = ""
trim_left (String.◌∷◌ c s) = let rest = trim_left s in if is_space c then rest else String.◌∷◌ c s

unfoldable pub trim_right : String → String
unfolding is_space
trim_right String.[] = ""
trim_right (String.◌∷◌ c s) =
    let rest = trim_right s in if is_space c && rest == "" then "" else String.◌∷◌ c rest

-- `strings.TrimSpace`
unfoldable pub trim_space : String → String
unfolding trim_left trim_right
trim_space s = trim_right (trim_left s)

lower_table : List (Char × Char)
lower_table =
    ("A", "a")
    ∷ ("B", "b")
    ∷ ("C", "c")
    ∷ ("D", "d")
    ∷ ("E", "e")
    ∷ ("F", "f")
    ∷ ("G", "g")
    ∷ ("H", "h")
    ∷ ("I", "i")
    ∷ ("J", "j")
    ∷ ("K", "k")
    ∷ ("L", "l")
    ∷ ("M", "m")
    ∷ ("N", "n")
    ∷ ("O", "o")
    ∷ ("P", "p")
    ∷ ("Q", "q")
    ∷ ("R", "r")
    ∷ ("S", "s")
    ∷ ("T", "t")
    ∷ ("U", "u")
    ∷ ("V", "v")
    ∷ ("W", "w")
    ∷ ("X", "x")
    ∷ ("Y", "y")
    ∷ ("Z", "z")
    ∷ []

lower_by : List (Char × Char) → Char → Char
lower_by [] c = c
lower_by ((u, l) ∷ r) c = let rest = lower_by r c in if code u == code c then l else rest

-- `strings.ToLower` on texts whose upper case letters are ASCII.
unfoldable pub to_lower : String → String
unfolding lower_by lower_table
to_lower String.[] = ""
to_lower (String.◌∷◌ c s) = String.◌∷◌ (lower_by lower_table c) (to_lower s)

upper_by : List (Char × Char) → Char → Char
upper_by [] c = c
upper_by ((u, l) ∷ r) c = let rest = upper_by r c in if code l == code c then u else rest

-- `strings.ToUpper` on texts whose lower case letters are ASCII.
unfoldable pub to_upper : String → String
unfolding upper_by lower_table
to_upper String.[] = ""
to_upper (String.◌∷◌ c s) = String.◌∷◌ (upper_by lower_table c) (to_upper s)

digit_text : ℕ → String
digit_text n =
    if n == 0
    then "0"
    else if n == 1
    then "1"
    else if n == 2
    then "2"
    else if n == 3
    then "3"
    else if n == 4
    then "4"
    else if n == 5
    then "5"
    else if n == 6
    then "6"
    else if n == 7
    then "7"
    else if n == 8
    then "8"
    else "9"

-- The decimal digits with fuel; a number below the fuel is printed whole.
digits_text : ℕ → ℕ → String
unfolding digit_text
digits_text zero n = ""
digits_text (suc fuel) n =
    let rest = digits_text fuel (n / 10) in
    if ltb n 10 then digit_text n else rest ++ digit_text (n % 10)

-- More fuel than the number changes nothing.
digits_text_fuel : (f g n : ℕ) → n < f → n < g → digits_text f n ≡ digits_text g n
unfolding digits_text
digits_text_fuel zero g n h k = elim h [ ]
digits_text_fuel (suc f) zero n h k = elim k [ ]
digits_text_fuel (suc f) (suc g) n h k = ground (arith, digits_text_fuel f g (n / 10))

-- `%d`
unfoldable pub itoa : ℕ → String
unfolding digits_text
itoa n = digits_text (suc n) n

itoa_120 : itoa 120 ≡ "120"
unfolding itoa
itoa_120 = refl

trim_space_both : trim_space "  a b " ≡ "a b"
unfolding trim_space
trim_space_both = refl

lower_mixed : to_lower "TLS Handshake" ≡ "tls handshake"
unfolding to_lower
lower_mixed = refl

contains_inside : contains_text "i/o timeout" "timeout" ≡ true
unfolding contains_text
contains_inside = refl
