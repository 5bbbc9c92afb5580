-- ===== src/Squiggle/Utf8.antt =====
-- The UTF-8 of texts, as `String::into_bytes` and `str::from_utf8` of the standard library, which the
-- squiggle `~b` and the rendering of bytes call (crates/ill-core/src/runtime/squiggle).
use Prim.Native.Nat.{compare}
use Prim.Native.Char.{Char, char, code, IsLt, IsScalar}
use Prim.Native.String.{◌∷◌}
use text.Mathlib.TextEquality.{Char-path}
use i_ll.Prelude.{
  ℕ, zero, suc, ◌+◌, ◌-◌, ◌*◌, ◌/◌, ◌%◌, ◌≤◌, ◌<◌, ◌≡◌, refl, ◌∙◌, ap, String, ◌&&◌, Option, none,
  some, List, arith, ltb, leb, nat_eq, if◌then◌else◌, Ordering,
}

-- The bytes of one character.
unfoldable pub encode : ℕ → List ℕ → List ℕ
encode n r =
    if ltb n 128
    then List.◌∷◌ n r
    else if ltb n 2048
    then List.◌∷◌ (192 + n / 64) (List.◌∷◌ (128 + n % 64) r)
    else if ltb n 65536
    then List.◌∷◌ (224 + n / 4096) (List.◌∷◌ (128 + n / 64 % 64) (List.◌∷◌ (128 + n % 64) r))
    else List.◌∷◌ (240 + n / 262144)
        (List.◌∷◌ (128 + n / 4096 % 64) (List.◌∷◌ (128 + n / 64 % 64) (List.◌∷◌ (128 + n % 64) r)))

-- `String::into_bytes`.
unfoldable pub into_bytes : String → List ℕ
unfolding encode
into_bytes String.[] = List.[]
into_bytes (c ∷ s) = encode (code c) (into_bytes s)

-- `IsScalar n` computes to `Allowed` of three comparisons.
abbrev Within : Ordering → Ordering → Type 0
Within Ordering.lt o = IsLt o
Within Ordering.eq _ = ⊥
Within Ordering.gt _ = ⊥

abbrev Allowed : Ordering → Ordering → Ordering → Type 0
Allowed Ordering.lt _ _ = Unit
Allowed Ordering.eq o p = Within o p
Allowed Ordering.gt o p = Within o p

dec_lt_type : (o : Ordering) → Dec (IsLt o)
dec_lt_type Ordering.lt = yes tt
dec_lt_type Ordering.eq = no (λ h. h)
dec_lt_type Ordering.gt = no (λ h. h)

dec_within : (o p : Ordering) → Dec (Within o p)
dec_within Ordering.lt p = dec_lt_type p
dec_within Ordering.eq _ = no (λ h. h)
dec_within Ordering.gt _ = no (λ h. h)

dec_allowed : (o p q : Ordering) → Dec (Allowed o p q)
dec_allowed Ordering.lt _ _ = yes tt
dec_allowed Ordering.eq p q = dec_within p q
dec_allowed Ordering.gt p q = dec_within p q

dec_scalar : (n : ℕ) → Dec (IsScalar n)
unfolding dec_allowed dec_within dec_lt_type
dec_scalar n = dec_allowed (compare n 55296) (compare 57343 n) (compare n 1114112)

-- `char::from_u32`: a surrogate and a number past U+10FFFF are no characters.
unfoldable pub from_u32 : ℕ → Option Char
unfolding dec_scalar
from_u32 n = elim (dec_scalar n) [ yes p ↦ some (char n p) | no _ ↦ none ]

-- The character at the head of a text that is still to be read.
abbrev push : Option Char → Option String → Option String
push none rest = none
push (some c) none = none
push (some c) (some s) = some (c ∷ s)

-- What a byte that starts a character does: `rest` decodes what follows.
lead : ℕ → (ℕ → ℕ → ℕ → Option String) → Option String
lead b rest =
    if ltb b 128
    then push (from_u32 b) (rest 0 0 0)
    else if ltb b 192
    then none
    else if ltb b 224
    then rest 1 (b - 192) 128
    else if ltb b 240
    then rest 2 (b - 224) 2048
    else if ltb b 248
    then rest 3 (b - 240) 65536
    else none

-- What a continuation byte does. A character that could be shorter is refused.
continuation : ℕ → ℕ → ℕ → ℕ → (ℕ → ℕ → ℕ → Option String) → Option String
continuation need acc low b rest =
    if leb 128 b && ltb b 192
    then (if nat_eq need 0
        then (if leb low (acc * 64 + (b - 128))
            then push (from_u32 (acc * 64 + (b - 128))) (rest 0 0 0)
            else none)
        else rest need (acc * 64 + (b - 128)) low)
    else none

-- `str::from_utf8`: `need` continuation bytes are missing from a character whose bits so far are
-- `acc` and which may not lie below `low`, since it would be too long.
decode : ℕ → ℕ → ℕ → List ℕ → Option String
unfolding lead continuation
decode zero acc low List.[] = some ""
decode (suc need) acc low List.[] = none
decode zero acc low (List.◌∷◌ b r) = lead b (λ n a l. decode n a l r)
decode (suc need) acc low (List.◌∷◌ b r) = continuation need acc low b (λ n a l. decode n a l r)

unfoldable pub from_utf8 : List ℕ → Option String
unfolding decode from_u32
from_utf8 = decode 0 0 0

from_u32-code : (c : Char) → from_u32 (code c) ≡ some c
unfolding from_u32
from_u32-code (char n p) = go (dec_scalar n)
  where
    go :
        (d : Dec (IsScalar n))
        → (elim d as (λ _. Option Char) [ yes q ↦ some (char n q) | no _ ↦ none ]) ≡ some (char n p)
    go (yes q) = ap some (Char-path _ _ refl)
    go (no q) = absurd (q p)

scalar_lt :
    (n : ℕ) (o p q : Ordering)
    → compare n 55296 ≡ o
    → compare n 1114112 ≡ q
    → Allowed o p q
    → n < 1114112
scalar_lt n Ordering.lt p q ho hq a = ground arith
scalar_lt n Ordering.eq p q ho hq a = ground arith
scalar_lt n Ordering.gt Ordering.lt Ordering.lt ho hq a = ground arith
scalar_lt n Ordering.gt Ordering.lt Ordering.eq ho hq a = absurd a
scalar_lt n Ordering.gt Ordering.lt Ordering.gt ho hq a = absurd a
scalar_lt n Ordering.gt Ordering.eq q ho hq a = absurd a
scalar_lt n Ordering.gt Ordering.gt q ho hq a = absurd a

code-lt : (c : Char) → code c < 1114112
code-lt (char n p) = scalar_lt n (compare n 55296) (compare 57343 n) (compare n 1114112) refl refl p

module _ (rest : ℕ → ℕ → ℕ → Option String) where
  lead_2 : (b : ℕ) → b < 32 → lead (192 + b) rest ≡ rest 1 b 128
  unfolding lead
  lead_2 b h = ground arith

  lead_3 : (b : ℕ) → b < 16 → lead (224 + b) rest ≡ rest 2 b 2048
  unfolding lead
  lead_3 b h = ground arith

  lead_4 : (b : ℕ) → b < 8 → lead (240 + b) rest ≡ rest 3 b 65536
  unfolding lead
  lead_4 b h = ground arith

  more :
      (need acc low b : ℕ)
      → b < 64
      → continuation (suc need) acc low (128 + b) rest ≡ rest (suc need) (acc * 64 + b) low
  unfolding continuation
  more need acc low b h = ground arith

  last :
      (acc low b n : ℕ)
      → b < 64
      → acc * 64 + b ≡ n
      → low ≤ n
      → continuation 0 acc low (128 + b) rest ≡ push (from_u32 n) (rest 0 0 0)
  unfolding continuation
  last acc low b n h e k = ground arith

abbrev later : List ℕ → ℕ → ℕ → ℕ → Option String
later r need acc low = decode need acc low r

module _ (n : ℕ) (r : List ℕ) where
  abbrev Decoded : List ℕ → Type 0
  Decoded bytes = decode 0 0 0 bytes ≡ push (from_u32 n) (decode 0 0 0 r)

  decode-one : n < 128 → Decoded (List.◌∷◌ n r)
  unfolding decode
  decode-one h = ground arith

  abbrev one_left : List ℕ
  one_left = List.◌∷◌ (128 + n % 64) r

  abbrev two_left : List ℕ
  two_left = List.◌∷◌ (128 + n / 64 % 64) one_left

  decode-two : 128 ≤ n → n < 2048 → Decoded (List.◌∷◌ (192 + n / 64) one_left)
  unfolding decode
  decode-two h k =
      lead_2 (later one_left) (n / 64) (omega arith)
      ∙ last (later r) (n / 64) 128 (n % 64) n (omega arith) (omega arith) h

  decode-three : 2048 ≤ n → n < 65536 → Decoded (List.◌∷◌ (224 + n / 4096) two_left)
  unfolding decode
  decode-three h k =
      lead_3 (later two_left) (n / 4096) (omega arith)
      ∙ more (later one_left) 0 (n / 4096) 2048 (n / 64 % 64) (omega arith)
      ∙ last (later r) (n / 4096 * 64 + n / 64 % 64) 2048 (n % 64) n (omega arith) (omega arith) h

  decode-four :
      65536 ≤ n
      → n < 1114112
      → Decoded (List.◌∷◌ (240 + n / 262144) (List.◌∷◌ (128 + n / 4096 % 64) two_left))
  unfolding decode
  decode-four h k =
      lead_4 (later (List.◌∷◌ (128 + n / 4096 % 64) two_left)) (n / 262144) (omega arith)
      ∙ more (later two_left) 1 (n / 262144) 65536 (n / 4096 % 64) (omega arith)
      ∙ more (later one_left) 0 (n / 262144 * 64 + n / 4096 % 64) 65536 (n / 64 % 64) (omega arith)
      ∙ last (later r) ((n / 262144 * 64 + n / 4096 % 64) * 64 + n / 64 % 64) 65536 (n % 64) n
          (omega arith) (omega arith) h

  decode-encode_number : n < 1114112 → Decoded (encode n r)
  unfolding encode
  decode-encode_number h = ground (arith, decode-one, decode-two, decode-three, decode-four)

decode-encode :
    (c : Char) (r : List ℕ) → decode 0 0 0 (encode (code c) r) ≡ push (some c) (decode 0 0 0 r)
decode-encode c r = rw (decode-encode_number (code c) r (code-lt c), from_u32-code c)

-- Decoding the bytes of a text gives the text back.
pub from_utf8-into_bytes : (s : String) → from_utf8 (into_bytes s) ≡ some s
unfolding from_utf8 into_bytes
from_utf8-into_bytes String.[] = refl
from_utf8-into_bytes (c ∷ s) = rw (decode-encode c (into_bytes s), from_utf8-into_bytes s)

bytes_of_é :
    into_bytes "é€"
    ≡ List.◌∷◌ 195 (List.◌∷◌ 169 (List.◌∷◌ 226 (List.◌∷◌ 130 (List.◌∷◌ 172 List.[]))))
unfolding into_bytes
bytes_of_é = refl

surrogate_refused : from_utf8 (List.◌∷◌ 237 (List.◌∷◌ 160 (List.◌∷◌ 128 List.[]))) ≡ none
unfolding from_utf8
surrogate_refused = refl

decode_test : from_utf8 (into_bytes "aé€😀") ≡ some "aé€😀"
unfolding from_utf8 into_bytes
decode_test = refl
