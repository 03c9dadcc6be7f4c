-- ===== src/CText.antt =====
-- The functions of <string.h> and <stdio.h> that components/ uses on texts. A text is the list of
-- its bytes up to the NUL, which is not part of the list.
use Prim.Native.String.{String}
use Prim.Native.Char.{code}
use esp32_iot_products.Prelude.{
  ℕ, zero, suc, ◌+◌, ◌-◌, ◌/◌, ◌%◌, Bool, true, false, ◌&&◌, List, [], ◌∷◌, Option, none, some,
  ◌==◌, if◌then◌else◌, take, ◌++◌,
}
use esp32_iot_products.Prelude.Int.{ℤ, pos, negsuc}

abbrev pub Text : Type 0
Text = List ℕ

-- The bytes of a literal, which is ASCII in all sources.
unfoldable pub codes : String → Text
codes String.[] = []
codes (String.◌∷◌ c s) = code c ∷ codes s

-- `strcmp(s, t) == 0`
unfoldable pub text_eq : Text → Text → Bool
text_eq [] [] = true
text_eq [] (y ∷ ys) = false
text_eq (x ∷ xs) [] = false
text_eq (x ∷ xs) (y ∷ ys) = (x == y) && text_eq xs ys

-- `strncmp(s, p, strlen(p)) == 0`
unfoldable pub starts_with : Text → Text → Bool
starts_with [] s = true
starts_with (x ∷ xs) [] = false
starts_with (x ∷ xs) (y ∷ ys) = (x == y) && starts_with xs ys

-- `strstr(s, p)`: the suffix of `s` at the first occurrence of `p`.
unfoldable pub strstr : Text → Text → Option Text
unfolding starts_with
strstr [] p = if starts_with p [] then some [] else none
strstr (y ∷ ys) p = if starts_with p (y ∷ ys) then some (y ∷ ys) else strstr ys p

-- `strchr(s, c)` for a `c` other than NUL.
unfoldable pub strchr : Text → ℕ → Option Text
strchr [] c = none
strchr (y ∷ ys) c = if y == c then some (y ∷ ys) else strchr ys c

-- `p + strlen(q)`, and `p++`
unfoldable pub advance : ℕ → Text → Text
advance zero s = s
advance (suc n) [] = []
advance (suc n) (x ∷ xs) = advance n xs

-- `while (skipped(*p)) p++;`
unfoldable pub skip_while : (ℕ → Bool) → Text → Text
skip_while skipped [] = []
skip_while skipped (c ∷ s) = if skipped c then skip_while skipped s else c ∷ s

-- What `snprintf(buf, size, …)` leaves in `buf`, for the text `s` that the format gives.
unfoldable pub snprintf : ℕ → Text → Text
snprintf size s = take (size - 1) s

digits_onto : ℕ → ℕ → Text → Text
digits_onto zero n acc = acc
digits_onto (suc fuel) n acc =
    let rest = digits_onto fuel (n / 10) ((48 + n % 10) ∷ acc) in
    if (n / 10) == 0 then (48 + n % 10) ∷ acc else rest

-- `%u`: twenty digits hold every 64-bit value.
unfoldable pub show_u : ℕ → Text
unfolding digits_onto
show_u n = digits_onto 20 n []

-- `%d`
unfoldable pub show_d : ℤ → Text
unfolding show_u
show_d (pos n) = show_u n
show_d (negsuc n) = 45 ∷ show_u (suc n)

pub concat : List Text → Text
concat [] = []
concat (t ∷ ts) = t ++ concat ts
