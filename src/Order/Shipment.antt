-- ===== src/Order/Shipment.antt =====
-- order/pkg/domain/shipment.go: parcel tracking, as NormalizeShipmentTracking accepts it.
use schick.Prelude.{
  ◌≤◌, ◌≡◌, ◌≢◌, Bool, true, not, ◌||◌, [], arith, Text, codes, ◌==◌, eq_iff, is_empty, trim,
  to_lower, ltb, length, if◌then◌else◌, Result, ok, err, ◌>>=◌, ◌>>◌, refuse_if,
}
use schick.Prelude.Strings.Trim.{trim_idem, trim-nil}
use schick.Order.{Error, invalid_shipment}

pub record ShipmentTracking : Type 0 where
  pub carrier : Text
  pub tracking_number : Text
  pub carrier_note : Text

abbrev pub carrier_other : Text
carrier_other = codes "other"

-- ValidCarriers, as a membership test
unfoldable pub is_valid_carrier : Text → Bool
is_valid_carrier carrier =
    carrier == codes "cj"
    || carrier == codes "hanjin"
    || carrier == codes "lotte"
    || carrier == codes "logen"
    || carrier == codes "epost"
    || carrier == carrier_other

-- What follows the carrier's checks: the note is checked for "other" and dropped for the rest.
unfoldable pub normalize_note : Text → Text → Result Error Text
normalize_note carrier note =
    if carrier == carrier_other
    then (if is_empty note
        then err invalid_shipment
        else if ltb 120 (length note)
        then err invalid_shipment
        else ok note)
    else ok []

unfoldable pub normalize_shipment_tracking : Text → Text → Text → Result Error ShipmentTracking
normalize_shipment_tracking carrier tracking_number carrier_note = do
  let c = to_lower (trim carrier)
  let t = trim tracking_number
  refuse_if (is_empty c) invalid_shipment
  refuse_if (not (is_valid_carrier c)) invalid_shipment
  refuse_if (is_empty t) invalid_shipment
  refuse_if (ltb 64 (length t)) invalid_shipment
  n ← normalize_note c (trim carrier_note)
  ok (record { carrier = c; tracking_number = t; carrier_note = n })

-- What the order's own check of a tracking asks for, and the limits of the columns.
pub record IsNormal (t : ShipmentTracking) : Type 0 where
  pub known : is_valid_carrier t.carrier ≡ true
  pub numbered : t.tracking_number ≢ []
  pub number_fits : length t.tracking_number ≤ 64
  pub note_fits : length t.carrier_note ≤ 120
  pub noted : t.carrier ≡ carrier_other → t.carrier_note ≢ []
  pub unnoted : t.carrier ≢ carrier_other → t.carrier_note ≡ []
  pub number_trimmed : trim t.tracking_number ≡ t.tracking_number
  pub note_trimmed : trim t.carrier_note ≡ t.carrier_note

normalize_note_lem :
    (c note n : Text)
    → normalize_note c (trim note) ≡ ok n
    → (length n ≤ 120) × (c ≡ carrier_other → n ≢ []) × (c ≢ carrier_other → n ≡ []) × (trim n ≡ n)
unfolding normalize_note
normalize_note_lem c note n h = ground (arith, eq_iff c carrier_other, trim_idem note, trim-nil)

-- A tracking that NormalizeShipmentTracking returns is normal.
pub normalize_shipment_tracking-IsNormal :
    (carrier tracking_number carrier_note : Text) (t : ShipmentTracking)
    → normalize_shipment_tracking carrier tracking_number carrier_note ≡ ok t
    → IsNormal t
unfolding normalize_shipment_tracking
normalize_shipment_tracking-IsNormal carrier tracking_number carrier_note t h = ground (
  arith,
  normalize_note_lem (to_lower (trim carrier)) carrier_note t.carrier_note,
  trim_idem tracking_number,
)
