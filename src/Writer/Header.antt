-- ===== src/Writer/Header.antt =====
-- The binary header in front of a message's JSON text (readInt32_LittleEndian and the first
-- statements of processData in prototype/Writer.cpp).
use fio_relic.Base.{ℕ, ◌+◌, ◌*◌, ◌/◌, ◌%◌, ◌^◌, ◌<◌, [], ◌∷◌, ◌≡◌, ◌≢◌, refl, All, arith}
use fio_relic.Base.Bytes.{Bytes, c_str}
use fio_relic.Base.Exec.{done}
use fio_relic.Writer.{split_message}

-- A number of 32 bits as the sender writes it, the low byte first.
pub int32_bytes : ℕ → Bytes → Bytes
int32_bytes n rest = (n % 256) ∷ (n / 256 % 256) ∷ (n / 65536 % 256) ∷ (n / 16777216 % 256) ∷ rest

four_bytes :
    (n : ℕ)
    → n < 2 ^ 32
    → n % 256 + 256 * (n / 256 % 256 + 256 * (n / 65536 % 256 + 256 * (n / 16777216 % 256))) ≡ n
four_bytes n h = omega arith

c_str-free : (bs : Bytes) → All (λ b. b ≢ 0) bs → c_str bs ≡ bs
unfolding c_str
c_str-free [] h = refl
c_str-free (b ∷ bs) h = ground (arith, c_str-free bs)

-- A message of a type and options below 2 ^ 32 and a text without NUL is split into exactly these.
pub split_message_lem :
    (msg_type opts : ℕ) (text : Bytes)
    → msg_type < 2 ^ 32
    → opts < 2 ^ 32
    → All (λ b. b ≢ 0) text
    → split_message (int32_bytes msg_type (int32_bytes opts text)) ≡ done (msg_type, opts, text)
unfolding split_message int32_bytes
split_message_lem msg_type opts text h k free =
    ground (arith, four_bytes msg_type h, four_bytes opts k, c_str-free text free)
