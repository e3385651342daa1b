-- ===== src/Order/Shipping.antt =====
-- order/pkg/domain/shipping.go: the recipient and the address of an order, as checkout accepts them.
-- The regular expressions are the tests that they decide.
pub mod Normal
use schick.Prelude.{
  ℕ, Bool, true, false, not, ◌&&◌, ◌||◌, List, [], ◌∷◌, Text, codes, is_empty, trim, to_upper, ltb,
  leb, eqb, length, if◌then◌else◌, Result, ok, err, ◌>>=◌, ◌>>◌, refuse_if,
}
use schick.Order.{Error, invalid_fulfillment, ShippingAddress, Order}

pub record FulfillmentSnapshot : Type 0 where
  pub recipient_name : Text
  pub recipient_phone : Text
  pub shipping_address : ShippingAddress
  pub source_address_id : Text

abbrev pub is_digit : ℕ → Bool
is_digit c = leb b'0' c && leb c b'9'

unfoldable pub all_digits : Text → Bool
all_digits [] = true
all_digits (c ∷ s) = is_digit c && all_digits s

-- ^01[0-9]{8,9}$
unfoldable pub is_kr_phone : Text → Bool
is_kr_phone (c ∷ d ∷ s) =
    eqb c b'0' && eqb d b'1' && all_digits s && (eqb (length s) 8 || eqb (length s) 9)
is_kr_phone _ = false

-- ^\d{5}$
unfoldable pub is_postal_code : Text → Bool
is_postal_code s = all_digits s && eqb (length s) 5

-- ^P\d{12}$
unfoldable pub is_pccc : Text → Bool
is_pccc (c ∷ s) = eqb c b'P' && all_digits s && eqb (length s) 12
is_pccc [] = false

unfoldable pub normalize_person_name : Text → Result Error Text
normalize_person_name name =
    let n = trim name in if is_empty n || ltb 50 (length n) then err invalid_fulfillment else ok n

-- The loop over the runes of a phone number.
unfoldable pub digits_of : Text → Text
digits_of [] = []
digits_of (c ∷ s) = if is_digit c then c ∷ digits_of s else digits_of s

unfoldable pub normalize_kr_phone : Text → Result Error Text
normalize_kr_phone phone =
    let n = digits_of phone in if not (is_kr_phone n) then err invalid_fulfillment else ok n

unfoldable pub normalize_postal_code : Text → Result Error Text
normalize_postal_code code =
    let n = trim code in if not (is_postal_code n) then err invalid_fulfillment else ok n

unfoldable pub normalize_address_line : Text → ℕ → Result Error Text
normalize_address_line line max_len =
    let n = trim line in
    if is_empty n || ltb max_len (length n) then err invalid_fulfillment else ok n

unfoldable pub normalize_optional_line : Text → ℕ → Result Error Text
normalize_optional_line line max_len =
    let n = trim line in
    if is_empty n then ok [] else if ltb max_len (length n) then err invalid_fulfillment else ok n

unfoldable pub normalize_pccc : Text → Result Error Text
normalize_pccc code =
    let n = to_upper (trim code) in
    if is_empty n then ok [] else if not (is_pccc n) then err invalid_fulfillment else ok n

unfoldable pub normalize_shipping_address : ShippingAddress → Result Error ShippingAddress
normalize_shipping_address addr = do
  postal ← normalize_postal_code addr.postal_code
  line1 ← normalize_address_line addr.address_line1 200
  line2 ← normalize_optional_line addr.address_line2 200
  city ← normalize_address_line addr.city 100
  province ← normalize_address_line addr.province 100
  pccc ← normalize_pccc addr.pccc
  ok (record {
    postal_code = postal;
    address_line1 = line1;
    address_line2 = line2;
    city = city;
    province = province;
    pccc = pccc;
  })

-- Every error of name and phone is ErrInvalidFulfillment, which the caller returns in its place.
unfoldable pub validate_fulfillment_snapshot :
    Text → Text → ShippingAddress → Text → Result Error FulfillmentSnapshot
validate_fulfillment_snapshot recipient_name recipient_phone addr source_address_id = do
  name ← normalize_person_name recipient_name
  phone ← normalize_kr_phone recipient_phone
  address ← normalize_shipping_address addr
  ok (record {
    recipient_name = name;
    recipient_phone = phone;
    shipping_address = address;
    source_address_id = trim source_address_id;
  })

-- ApplyFulfillment; the nil cases do not arise, since callers pass what they just built.
unfoldable pub apply_fulfillment : Order → FulfillmentSnapshot → Order
apply_fulfillment o snapshot = record o {
  recipient_name = snapshot.recipient_name;
  recipient_phone = snapshot.recipient_phone;
  shipping_address = snapshot.shipping_address;
  source_address_id = snapshot.source_address_id;
}
