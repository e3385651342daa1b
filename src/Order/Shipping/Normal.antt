-- ===== src/Order/Shipping/Normal.antt =====
-- The normal form of what checkout accepts (order/pkg/domain/shipping.go).
use schick.Prelude.{ℕ, ◌≡◌, refl, true, [], ◌∷◌, arith, Text, trim, to_upper, is_space, ok}
use schick.Prelude.Case.{upper_rune_ascii}
use schick.Prelude.Strings.Trim.{trim_idem, trim-nil, HasNoSpace, trim_of_HasNoSpace}
use schick.Order.{ShippingAddress}
use schick.Order.Shipping.{
  FulfillmentSnapshot, all_digits, is_kr_phone, is_pccc, digits_of, normalize_person_name,
  normalize_kr_phone, normalize_postal_code, normalize_address_line, normalize_optional_line,
  normalize_pccc, normalize_shipping_address, validate_fulfillment_snapshot,
}

person_name_again : (s n : Text) → normalize_person_name s ≡ ok n → normalize_person_name n ≡ ok n
unfolding normalize_person_name
person_name_again s n h = ground (arith, trim_idem s)

postal_code_again : (s n : Text) → normalize_postal_code s ≡ ok n → normalize_postal_code n ≡ ok n
unfolding normalize_postal_code
postal_code_again s n h = ground (arith, trim_idem s)

address_line_again :
    (s n : Text) (max_len : ℕ)
    → normalize_address_line s max_len ≡ ok n
    → normalize_address_line n max_len ≡ ok n
unfolding normalize_address_line
address_line_again s n max_len h = ground (arith, trim_idem s)

optional_line_again :
    (s n : Text) (max_len : ℕ)
    → normalize_optional_line s max_len ≡ ok n
    → normalize_optional_line n max_len ≡ ok n
unfolding normalize_optional_line
optional_line_again s n max_len h = ground (arith, trim_idem s, trim-nil)

digits_of-all_digits : (s : Text) → all_digits s ≡ true → digits_of s ≡ s
unfolding digits_of all_digits
digits_of-all_digits [] h = refl
digits_of-all_digits (c ∷ s) h = ground (arith, digits_of-all_digits s)

digits_of_kr_phone : (s : Text) → is_kr_phone s ≡ true → digits_of s ≡ s
unfolding is_kr_phone digits_of
digits_of_kr_phone (c ∷ d ∷ s) h = ground (arith, digits_of-all_digits s)
digits_of_kr_phone _ h = cc

kr_phone_again : (s n : Text) → normalize_kr_phone s ≡ ok n → normalize_kr_phone n ≡ ok n
unfolding normalize_kr_phone
kr_phone_again s n h = ground (arith, digits_of_kr_phone n)

to_upper-all_digits : (s : Text) → all_digits s ≡ true → to_upper s ≡ s
unfolding all_digits to_upper
to_upper-all_digits [] h = refl
to_upper-all_digits (c ∷ s) h = ground (arith, upper_rune_ascii c, to_upper-all_digits s)

all_digits-HasNoSpace : (s : Text) → all_digits s ≡ true → HasNoSpace s
unfolding all_digits is_space
all_digits-HasNoSpace [] h = tt
all_digits-HasNoSpace (c ∷ s) h = (ground arith, all_digits-HasNoSpace s (ground arith))

to_upper_of_pccc : (s : Text) → is_pccc s ≡ true → to_upper s ≡ s
unfolding is_pccc to_upper
to_upper_of_pccc (c ∷ s) h = ground (arith, upper_rune_ascii c, to_upper-all_digits s)
to_upper_of_pccc [] h = cc

trim_of_pccc : (s : Text) → is_pccc s ≡ true → trim s ≡ s
unfolding is_pccc is_space
trim_of_pccc (c ∷ s) h =
    trim_of_HasNoSpace (c ∷ s) (ground arith, all_digits-HasNoSpace s (ground arith))
trim_of_pccc [] h = cc

to_upper-nil : to_upper [] ≡ []
unfolding to_upper
to_upper-nil = refl

pccc_again : (s n : Text) → normalize_pccc s ≡ ok n → normalize_pccc n ≡ ok n
unfolding normalize_pccc
pccc_again s n h = ground (arith, trim-nil, to_upper_of_pccc n, trim_of_pccc n, to_upper-nil)

shipping_address_again :
    (a n : ShippingAddress)
    → normalize_shipping_address a ≡ ok n
    → normalize_shipping_address n ≡ ok n
unfolding normalize_shipping_address
shipping_address_again a n h = ground (
  arith,
  postal_code_again a.postal_code n.postal_code,
  address_line_again a.address_line1 n.address_line1 200,
  optional_line_again a.address_line2 n.address_line2 200,
  address_line_again a.city n.city 100,
  address_line_again a.province n.province 100,
  pccc_again a.pccc n.pccc,
)

-- Validating what was validated changes nothing.
pub validate_fulfillment_snapshot_idem :
    (name phone : Text) (addr : ShippingAddress) (source : Text) (snap : FulfillmentSnapshot)
    → validate_fulfillment_snapshot name phone addr source ≡ ok snap
    → validate_fulfillment_snapshot snap.recipient_name snap.recipient_phone snap.shipping_address
        snap.source_address_id
      ≡ ok snap
unfolding validate_fulfillment_snapshot
validate_fulfillment_snapshot_idem name phone addr source snap h = ground (
  arith,
  person_name_again name snap.recipient_name,
  kr_phone_again phone snap.recipient_phone,
  shipping_address_again addr snap.shipping_address,
  trim_idem source,
)
