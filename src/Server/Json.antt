-- ===== src/Server/Json.antt =====
-- The parts of `encoding/json` and `encoding/base64` that write the HTTP answers made of numbers and byte
-- slices.
use gcosmos.Base.{
  ℕ, ◌+◌, ◌-◌, ◌*◌, ◌/◌, ◌%◌, List, [], ◌∷◌, ◌++◌, Bytes, codes, ltb, nat_eq, if◌then◌else◌,
}
use gcosmos.Strconv.Integer.{format_uint}

-- A number below 64 as a character of the standard alphabet.
abbrev base64_digit : ℕ → ℕ
base64_digit n =
    if ltb n 26
    then b'A' + n
    else if ltb n 52
    then b'a' + (n - 26)
    else if ltb n 62
    then b'0' + (n - 52)
    else if nat_eq n 62
    then b'+'
    else b'/'

-- Three bytes make four digits; a rest of one or two bytes is padded.
unfoldable pub base64 : Bytes → Bytes
base64 [] = []
base64 (a ∷ []) = base64_digit (a / 4) ∷ base64_digit (a % 4 * 16) ∷ codes "=="
base64 (a ∷ b ∷ []) =
    base64_digit (a / 4)
    ∷ base64_digit (a % 4 * 16 + b / 16)
    ∷ base64_digit (b % 16 * 4)
    ∷ codes "="
base64 (a ∷ b ∷ c ∷ s) =
    base64_digit (a / 4)
    ∷ base64_digit (a % 4 * 16 + b / 16)
    ∷ base64_digit (b % 16 * 4 + c / 64)
    ∷ base64_digit (c % 64)
    ∷ base64 s

abbrev json_uint : ℕ → Bytes
json_uint n = format_uint 10 n

-- A byte slice is a string in base64.
abbrev json_bytes : Bytes → Bytes
json_bytes s = codes "\"" ++ (base64 s ++ codes "\"")

-- A field of an object, with its name.
abbrev pub uint_field : Bytes → ℕ → Bytes
uint_field name n = codes "\"" ++ (name ++ (codes "\":" ++ json_uint n))

abbrev pub bytes_field : Bytes → Bytes → Bytes
bytes_field name s = codes "\"" ++ (name ++ (codes "\":" ++ json_bytes s))

abbrev join_rest : List Bytes → Bytes
join_rest [] = []
join_rest (x ∷ xs) = codes "," ++ (x ++ join_rest xs)

-- With commas between.
abbrev join : List Bytes → Bytes
join [] = []
join (x ∷ xs) = x ++ join_rest xs

abbrev pub json_object : List Bytes → Bytes
json_object fields = codes "{" ++ (join fields ++ codes "}")

abbrev pub json_array : List Bytes → Bytes
json_array xs = codes "[" ++ (join xs ++ codes "]")
