-- ===== src/Tests/Wire.antt =====
-- Headers that are their data ID, padded with zeros, and results that state their length.
use gcosmos.Base.{
  ℕ, zero, suc, ◌+◌, ◌-◌, ◌<◌, ◌≤◌, ◌≡◌, refl, ap, arith, List, [], ◌∷◌, ◌++◌, Option, none, some,
  Bytes, length, take, nat_eq, if◌then◌else◌, Bool, true, Result, ok, err, length-append,
  take-length_append,
}
use gcosmos.Tests.Codec.{item}
use gcosmos.Tests.Fixtures.{zeros}
use gcosmos.Catchup.DataHost.{Headers, JsonResult}
use gcosmos.Catchup.Fetch.Served.{IsJson}

length-zeros : (n : ℕ) → length (zeros n) ≡ n
length-zeros zero = refl
length-zeros (suc n) = ap suc (length-zeros n)

length-item : (x s : Bytes) → length (item x s) ≡ suc (length x + length s)
length-item [] s = omega arith
length-item (b ∷ x) s = omega (arith, length-item x s)

abbrev first_item : Bytes → Bytes
first_item [] = []
first_item (zero ∷ s) = []
first_item (suc b ∷ s) = b ∷ first_item s

abbrev after_item : Bytes → Bytes
after_item [] = []
after_item (zero ∷ s) = s
after_item (suc b ∷ s) = after_item s

first_item-item : (x s : Bytes) → first_item (item x s) ≡ x
first_item-item [] s = refl
first_item-item (b ∷ x) s = ap (◌∷◌ b) (first_item-item x s)

after_item-item : (x s : Bytes) → after_item (item x s) ≡ s
after_item-item [] s = refl
after_item-item (b ∷ x) s = after_item-item x s

abbrev pub encoded : Bytes → Bytes → Bytes
encoded result [] = suc (length result) ∷ 0 ∷ result
encoded result (e ∷ error) = suc (length (e ∷ error)) ∷ 1 ∷ e ∷ error

abbrev decoded_rest : Bytes → Option JsonResult
decoded_rest [] = none
decoded_rest (zero ∷ s) = some (record { result = s; error = [] })
decoded_rest (suc n ∷ s) = some (record { result = []; error = s })

abbrev decoded : Bytes → Option JsonResult
decoded [] = none
decoded (n ∷ s) = if nat_eq n (length s) then decoded_rest s else none

-- The server has one header, at height 3.
abbrev at_three : Bytes → ℕ → Result Bool Bytes
at_three id height = if nat_eq height 3 then ok id else err true

abbrev pub headers : ℕ → Bytes → Headers Bytes
headers pad id = record {
  load = at_three id;
  data_id = λ h. h;
  marshal = λ h. some (h ++ zeros pad);
  unmarshal = λ b. some (take (length b - pad) b);
  encode_result = λ res. encoded res.result res.error;
  decode_result = decoded;
  marshal_block = λ fbr. some (item fbr.header fbr.block_data);
  unmarshal_block = λ j. some (record { header = first_item j; block_data = after_item j });
}

unpadded : (pad : ℕ) (h : Bytes) → take (length (h ++ zeros pad) - pad) (h ++ zeros pad) ≡ h
unpadded pad h =
    let same : length (h ++ zeros pad) - pad ≡ length h =
      omega (arith, length-append h (zeros pad), length-zeros pad) in
    rw (same, take-length_append h (zeros pad))

length-take_le {ℓ} : {A : Type ℓ} (n : ℕ) (xs : List A) → length (take n xs) ≤ n
length-take_le zero xs = omega arith
length-take_le (suc n) [] = omega arith
length-take_le (suc n) (x ∷ xs) = omega (arith, length-take_le n xs)

decoded-short : (n m : ℕ) (s : Bytes) → n < suc m → m ≡ length s → decoded (take n (m ∷ s)) ≡ none
decoded-short zero m s h e = refl
decoded-short (suc n) m s h e = ground (arith, length-take_le n s)

decoded-truncated :
    (result error : Bytes) (n : ℕ)
    → suc n < length (encoded result error)
    → decoded (take n (encoded result error)) ≡ none
decoded-truncated result [] n h =
    decoded-short n (suc (length result)) (0 ∷ result) (omega arith) refl
decoded-truncated result (e ∷ error) n h =
    decoded-short n (suc (length (e ∷ error))) (1 ∷ e ∷ error) (omega arith) refl

pub headers-IsJson : (pad : ℕ) (id : Bytes) → IsJson (headers pad id)
headers-IsJson pad id = record {
  result_back = λ fbr j e. ground arith;
  block_back = λ h b bd j marshalled made. (
    h ++ zeros pad,
    ground (arith, first_item-item (h ++ zeros pad) bd, after_item-item (h ++ zeros pad) bd),
    rw (unpadded pad h),
  );
  truncated = λ res n h. decoded-truncated res.result res.error n h;
}

-- A response is longer than its header's padding.
pub padded_length : (pad : ℕ) (h bd : Bytes) → pad < length (encoded (item (h ++ zeros pad) bd) [])
padded_length pad h bd =
    omega (arith, length-item (h ++ zeros pad) bd, length-append h (zeros pad), length-zeros pad)
