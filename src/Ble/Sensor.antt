-- ===== src/Ble/Sensor.antt =====
-- The sensor characteristic of components/iot_ble/src/iot_ble.c.
use esp32_iot_products.Ble.{Ble, cache_len, read_value, ble_notify_sensor, notify}
use esp32_iot_products.Core.Err.{Err}
use esp32_iot_products.Core.Types.{overwrite}
use esp32_iot_products.Prelude.Int.{ℤ}
use esp32_iot_products.Prelude.{
  drop, arith, ◌∙◌, some, ℕ, not, ◌<◌, sym, ap, false, take, ◌++◌, [], if◌then◌else◌, ltb, List,
  Bool-cases, ◌==◌, inr, true, length, ◌∷◌, zero, suc, refl, Bool, ◌≤◌, inl, ◌≡◌,
}

keeps-if : (c : Bool) (b : Ble) (x y : Err × Ble) → x.1 ≡ b → y.1 ≡ b → (if c then x else y).1 ≡ b
keeps-if true b x y p q = p
keeps-if false b x y p q = q

notify-keeps : (buffer : Bool) (rc : ℤ) (b : Ble) → (notify buffer rc b).1 ≡ b
unfolding notify
notify-keeps buffer rc b =
    keeps-if (not b.connected) b _ _ refl (keeps-if (not buffer) b _ _ refl refl)

take-all : {A : Type 0} (n : ℕ) (xs : List A) → length xs ≤ n → take n xs ≡ xs
take-all zero [] h = refl
take-all zero (x ∷ xs) h = absurd (ground arith)
take-all (suc n) [] h = refl
take-all (suc n) (x ∷ xs) h = ap (λ ys. x ∷ ys) (take-all n xs (ground arith))

take-take-append :
    {A : Type 0} (n : ℕ) (xs ys : List A) → n ≤ length xs → take n (take n xs ++ ys) ≡ take n xs
take-take-append zero xs ys h = refl
take-take-append (suc n) [] ys h = absurd (ground arith)
take-take-append (suc n) (x ∷ xs) ys h = ap (λ zs. x ∷ zs) (take-take-append n xs ys (ground arith))

read_value-stored :
    (provisioned : Bool) (bytes : List ℕ) (n : ℕ) (b : Ble)
    → 0 < n
    → n ≤ length bytes
    → read_value 0xff02 provisioned (record b { cache = overwrite bytes n b.cache; sensor_len = n })
      ≡ take n bytes
unfolding read_value overwrite
read_value-stored provisioned bytes n b pos_n within =
    let filled : (n == 0) ≡ false = ground arith in
    rw filled (take-take-append n bytes (drop n b.cache) within)

-- What was notified last is what a client reads from the sensor characteristic, cut to the 64 bytes
-- of the cache, whether or not a client was connected and whatever the stack answered.
pub read_value-ble_notify_sensor :
    (buffer provisioned : Bool) (rc : ℤ) (bytes : List ℕ) (b : Ble)
    → 0 < length bytes
    → read_value 0xff02 provisioned (ble_notify_sensor buffer rc (some bytes) (length bytes) b).1
      ≡ take cache_len bytes
unfolding ble_notify_sensor
read_value-ble_notify_sensor buffer provisioned rc bytes b h =
    let filled : (length bytes == 0) ≡ false = ground arith in
    elim (Bool-cases (ltb cache_len (length bytes))) [
      | inl e ↦
          rw (filled, e)
            (ap (read_value 0xff02 provisioned) (notify-keeps buffer rc _)
              ∙ read_value-stored provisioned bytes cache_len b (ground arith) (ground arith))
      | inr e ↦
          rw (filled, e)
            (ap (read_value 0xff02 provisioned) (notify-keeps buffer rc _)
              ∙ read_value-stored provisioned bytes (length bytes) b h (ground arith)
              ∙ take-all (length bytes) bytes (ground arith)
              ∙ sym (take-all cache_len bytes (ground arith)))
    ]
