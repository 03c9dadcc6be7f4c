-- ===== src/Services/Payload.antt =====
-- The texts that travel in a message's payload: how iot_mqtt.c puts them in, and how
-- iot_services.c, iot_uc.c and iot_provision.c read them back.
use esp32_iot_products.Mqtt.{command_of_data}
use esp32_iot_products.Core.Types.{json_small_len, overwrite, text_of, zero_command}
use esp32_iot_products.Prelude.{
  refl, ◌<◌, ◌≤◌, ◌≡◌, ◌∷◌, ◌++◌, ℕ, length, none, some, ◌≢◌, List, arith, [], false, if◌then◌else◌,
  suc, replicate, take, drop, ltb, ◌-◌, zero, true, ◌==◌, ◌&&◌, not, Bool,
}

-- A text as a C string: it holds no NUL.
abbrev pub NoNul : List ℕ → Type 0
NoNul [] = Unit {0}
NoNul (c ∷ cs) = (c ≢ 0) × NoNul cs

-- The test for it.
unfoldable pub no_nul : List ℕ → Bool
no_nul [] = true
no_nul (c ∷ cs) = not (c == 0) && no_nul cs

pub NoNul-no_nul : (t : List ℕ) → no_nul t ≡ true → NoNul t
unfolding no_nul
NoNul-no_nul [] h = tt
NoNul-no_nul (c ∷ t) h = (ground arith, NoNul-no_nul t (ground arith))

-- The bytes of a text, a NUL, and anything behind it are read as that text.
pub text_of-NoNul : (t rest : List ℕ) → NoNul t → text_of (t ++ 0 ∷ rest) ≡ some t
unfolding text_of
text_of-NoNul [] rest h = ground arith
text_of-NoNul (c ∷ t) rest (h, hs) = ground (arith, text_of-NoNul t rest hs, h)

text_of-none : (t : List ℕ) → NoNul t → text_of t ≡ none
unfolding text_of
text_of-none [] h = refl
text_of-none (c ∷ t) (h, hs) = ground (arith, text_of-none t hs, h)

pub take-length : (t : List ℕ) → take (length t) t ≡ t
take-length [] = refl
take-length (c ∷ t) = rw (take-length t)

NoNul-take : (n : ℕ) (t : List ℕ) → NoNul t → NoNul (take n t)
NoNul-take zero t h = tt
NoNul-take (suc n) [] h = tt
NoNul-take (suc n) (c ∷ t) (h, hs) = (h, NoNul-take n t hs)

pub drop-replicate :
    (n m : ℕ) → n < m → drop {A = ℕ} n (replicate m 0) ≡ 0 ∷ replicate (m - suc n) 0
drop-replicate n zero h = ground arith
drop-replicate zero (suc m) h = ground arith
drop-replicate (suc n) (suc m) h = ground (arith, drop-replicate n m (ground arith))

drop-replicate_all : (n : ℕ) → drop {A = ℕ} n (replicate n 0) ≡ []
drop-replicate_all zero = refl
drop-replicate_all (suc n) = drop-replicate_all n

-- What a message shorter than the payload becomes: itself, with NULs behind it.
pub command_of_data-short :
    (t : List ℕ)
    → length t < json_small_len
    → command_of_data (some t) (length t) ≡ record {
      seq = 0;
      opcode = 0x4d51;
      payload_len = length t;
      payload = t ++ 0 ∷ replicate (json_small_len - suc (length t)) 0;
    }
unfolding command_of_data overwrite zero_command
command_of_data-short t short =
    let fits : ltb json_small_len (length t) ≡ false = ground arith in
    rw (fits, take-length t, drop-replicate (length t) json_small_len short)

-- A text shorter than the payload is read back from the command that its message makes.
pub text_of-command_of_data :
    (t : List ℕ)
    → NoNul t
    → length t < json_small_len
    → text_of (command_of_data (some t) (length t)).payload ≡ some t
text_of-command_of_data t h short =
    rw (command_of_data-short t short)
      (text_of-NoNul t (replicate (json_small_len - suc (length t)) 0) h)

append-nil : (t : List ℕ) → t ++ [] ≡ t
append-nil [] = refl
append-nil (c ∷ t) = rw (append-nil t)

-- A message without a NUL that fills the payload leaves no end to read up to.
pub command_of_data-unterminated :
    (t : List ℕ)
    → NoNul t
    → json_small_len ≤ length t
    → text_of (command_of_data (some t) (length t)).payload ≡ none
unfolding command_of_data overwrite zero_command
command_of_data-unterminated t h long =
    let full : (if ltb json_small_len (length t) then json_small_len else length t)
        ≡ json_small_len =
      ground arith in
    rw (full, drop-replicate_all json_small_len, append-nil (take json_small_len t))
      (text_of-none (take json_small_len t) (NoNul-take json_small_len t h))
