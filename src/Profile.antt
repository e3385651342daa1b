-- ===== src/Profile.antt =====
-- profile/pkg/domain/profile.go and profile/pkg/infra/memory/profile_repository.go: what customers keep of
-- themselves. A method of the repository runs under its lock; a map is listed in the order of the model.
pub mod Service
pub mod Weights
pub mod Defaults
pub mod Book
mod Tests
use schick.Prelude.{
  ℕ, ◌+◌, ◌≡◌, Bool, true, false, not, ◌&&◌, ◌||◌, List, [], ◌∷◌, Option, none, some, Text, codes,
  ◌==◌, is_empty, trim, to_upper, ltb, eqb, length, if◌then◌else◌, lookup, insert, delete, padded,
  ℤ, pos, Result, ok, err, ◌>>=◌, ◌++◌,
}
use schick.Prelude.Word
use schick.Order.Shipping.{is_kr_phone, is_postal_code, is_pccc, digits_of}

pub data Error : Type 0 where
  invalid_profile invalid_address address_not_found address_limit_reached : Error

pub record Profile : Type 0 where
  pub user_id : Text
  pub display_name : Text
  pub phone : Text
  pub created_at : ℕ
  pub updated_at : ℕ

pub record Address : Type 0 where
  pub id : Text
  pub user_id : Text
  pub label : Text
  pub recipient_name : Text
  pub recipient_phone : Text
  pub postal_code : Text
  pub address_line1 : Text
  pub address_line2 : Text
  pub city : Text
  pub province : Text
  pub pccc : Text
  pub is_default : Bool
  pub created_at : ℕ
  pub updated_at : ℕ

abbrev pub max_addresses_per_user : ℕ
max_addresses_per_user = 10

unfoldable pub normalize_person_name : Text → Result Error Text
normalize_person_name name =
    let n = trim name in if is_empty n || ltb 50 (length n) then err invalid_profile else ok n

unfoldable pub normalize_kr_phone : Text → Result Error Text
normalize_kr_phone phone =
    let n = digits_of phone in if not (is_kr_phone n) then err invalid_profile else ok n

unfoldable pub normalize_postal_code : Text → Result Error Text
normalize_postal_code code =
    let n = trim code in if not (is_postal_code n) then err invalid_address else ok n

unfoldable pub normalize_pccc : Text → Result Error Text
normalize_pccc code =
    let n = to_upper (trim code) in
    if is_empty n then ok [] else if not (is_pccc n) then err invalid_address else ok n

unfoldable pub normalize_address_line : Text → ℕ → Result Error Text
normalize_address_line line max_len =
    let n = trim line in if is_empty n || ltb max_len (length n) then err invalid_address else ok n

unfoldable pub normalize_optional_line : Text → ℕ → Result Error Text
normalize_optional_line line max_len =
    let n = trim line in
    if is_empty n then ok [] else if ltb max_len (length n) then err invalid_address else ok n

-- The caller returns ErrInvalidAddress for each error of name and phone.
abbrev pub as_address_error : Result Error Text → Result Error Text
as_address_error (ok n) = ok n
as_address_error (err e) = err invalid_address

-- The fields of an address that an input gives.
pub record AddressFields : Type 0 where
  pub recipient_name : Text
  pub recipient_phone : Text
  pub postal_code : Text
  pub address_line1 : Text
  pub address_line2 : Text
  pub city : Text
  pub province : Text
  pub pccc : Text

unfoldable pub validate_address_input : AddressFields → Result Error Address
validate_address_input f = do
  name ← as_address_error (normalize_person_name f.recipient_name)
  phone ← as_address_error (normalize_kr_phone f.recipient_phone)
  postal ← normalize_postal_code f.postal_code
  line1 ← normalize_address_line f.address_line1 200
  line2 ← normalize_optional_line f.address_line2 200
  city ← normalize_address_line f.city 100
  province ← normalize_address_line f.province 100
  pccc ← normalize_pccc f.pccc
  ok (record {
    id = [];
    user_id = [];
    label = [];
    recipient_name = name;
    recipient_phone = phone;
    postal_code = postal;
    address_line1 = line1;
    address_line2 = line2;
    city = city;
    province = province;
    pccc = pccc;
    is_default = false;
    created_at = 0;
    updated_at = 0;
  })

pub record ProfileRepository : Type 0 where
  pub profiles : List (Text × Profile)
  pub addresses : List (Text × Address)
  pub addr_seq : ℤ

unfoldable pub get_profile : ProfileRepository → Text → Option Profile
get_profile r user_id = lookup user_id r.profiles

unfoldable pub upsert_profile : ProfileRepository → Profile → ProfileRepository
upsert_profile r p = record r { profiles = insert p.user_id p r.profiles }

-- Default addresses first, then by age.
unfoldable pub comes_before : Address → Address → Bool
comes_before a b =
    if a.is_default
    then not b.is_default || ltb a.created_at b.created_at
    else not b.is_default && ltb a.created_at b.created_at

unfoldable pub insert_address : Address → List Address → List Address
insert_address a [] = a ∷ []
insert_address a (b ∷ sorted) =
    if comes_before a b then a ∷ b ∷ sorted else b ∷ insert_address a sorted

unfoldable pub listed_onto : Text → List Address → List (Text × Address) → List Address
listed_onto user_id sorted [] = sorted
listed_onto user_id sorted ((_, a) ∷ m) =
    if a.user_id == user_id
    then listed_onto user_id (insert_address a sorted) m
    else listed_onto user_id sorted m

unfoldable pub list_addresses : ProfileRepository → Text → List Address
list_addresses r user_id = listed_onto user_id [] r.addresses

unfoldable pub count_of : Text → List (Text × Address) → ℕ
count_of user_id [] = 0
count_of user_id ((_, a) ∷ m) = (if a.user_id == user_id then 1 else 0) + count_of user_id m

unfoldable pub count_addresses : ProfileRepository → Text → ℕ
count_addresses r user_id = count_of user_id r.addresses

abbrev pub own_address : Text → Option Address → Option Address
own_address user_id none = none
own_address user_id (some a) = if a.user_id == user_id then some a else none

unfoldable pub get_address : ProfileRepository → Text → Text → Option Address
get_address r user_id address_id = own_address user_id (lookup address_id r.addresses)

abbrev pub is_of_another : Text → Option Address → Bool
is_of_another user_id none = false
is_of_another user_id (some existing) = not (existing.user_id == user_id)

-- `false` is ErrAddressNotFound.
unfoldable pub save_address : ProfileRepository → Address → ProfileRepository × Bool
save_address r a =
    if is_of_another a.user_id (lookup a.id r.addresses)
    then (r, false)
    else (record r { addresses = insert a.id a r.addresses }, true)

abbrev pub deleted : ProfileRepository → Text → Option Address → ProfileRepository × Bool
deleted r address_id none = (r, false)
deleted r address_id (some _) = (record r { addresses = delete address_id r.addresses }, true)

unfoldable pub delete_address : ProfileRepository → Text → Text → ProfileRepository × Bool
delete_address r user_id address_id = deleted r address_id (get_address r user_id address_id)

abbrev pub cleared_address : Text → ℕ → Address → Address
cleared_address user_id now a =
    if a.user_id == user_id && a.is_default
    then record a { is_default = false; updated_at = now }
    else a

unfoldable pub cleared : Text → ℕ → List (Text × Address) → List (Text × Address)
cleared user_id now [] = []
cleared user_id now ((k, a) ∷ m) = (k, cleared_address user_id now a) ∷ cleared user_id now m

unfoldable pub clear_default_addresses : ProfileRepository → Text → ℕ → ProfileRepository
clear_default_addresses r user_id now = record r { addresses = cleared user_id now r.addresses }

unfoldable pub next_address_id : ProfileRepository → ProfileRepository × Text
next_address_id r =
    let n = Word.add r.addr_seq (pos 1) in (record r { addr_seq = n }, codes "addr_" ++ padded n)

unfoldable pub without_user : Text → List (Text × Address) → List (Text × Address)
without_user user_id [] = []
without_user user_id ((k, a) ∷ m) =
    if a.user_id == user_id then without_user user_id m else (k, a) ∷ without_user user_id m

unfoldable pub delete_user_data : ProfileRepository → Text → ProfileRepository
delete_user_data r user_id = record r {
  profiles = delete user_id r.profiles;
  addresses = without_user user_id r.addresses;
}
