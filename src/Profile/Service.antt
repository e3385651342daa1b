-- ===== src/Profile/Service.antt =====
-- profile/pkg/service/service.go, over a repository that is there; a method runs with no other in between.
use schick.Prelude.{
  ℕ, Bool, true, false, List, [], ◌∷◌, Option, none, some, Text, is_empty, trim, leb, eqb,
  if◌then◌else◌, Result, ok, err, ◌>>=◌,
}
use schick.Profile.{
  Error, address_not_found, address_limit_reached, Profile, Address, AddressFields,
  ProfileRepository, max_addresses_per_user, normalize_person_name, normalize_kr_phone,
  validate_address_input, get_profile, upsert_profile, list_addresses, count_addresses, get_address,
  save_address, clear_default_addresses, next_address_id,
}

pub record ProfileView : Type 0 where
  pub user_id : Text
  pub display_name : Text
  pub phone : Text
  pub default_address_id : Text
  pub addresses : List Address

pub record ProfilePatch : Type 0 where
  pub display_name : Option Text
  pub phone : Option Text

pub record AddressInput : Type 0 where
  pub label : Text
  pub fields : AddressFields
  pub is_default : Option Bool

abbrev pub first_default : List Address → Text
first_default [] = []
first_default (a ∷ as_) = if a.is_default then a.id else first_default as_

abbrev pub view_of : Text → List Address → Option Profile → ProfileView
view_of user_id addresses none = record {
  user_id = user_id;
  display_name = [];
  phone = [];
  default_address_id = first_default addresses;
  addresses = addresses;
}
view_of user_id addresses (some p) = record {
  user_id = user_id;
  display_name = p.display_name;
  phone = p.phone;
  default_address_id = first_default addresses;
  addresses = addresses;
}

-- GetProfileView
unfoldable pub get_profile_view : ProfileRepository → Text → ProfileView
get_profile_view r user_id = view_of user_id (list_addresses r user_id) (get_profile r user_id)

abbrev pub profile_or_new : Text → ℕ → Option Profile → Profile
profile_or_new user_id now none = record {
  user_id = user_id;
  display_name = [];
  phone = [];
  created_at = now;
  updated_at = 0;
}
profile_or_new user_id now (some p) = p

abbrev pub renamed : Profile → Option Text → Result Error Profile
renamed p none = ok p
renamed p (some name) = normalize_person_name name >>= λ n. ok (record p { display_name = n })

abbrev pub rephoned : Profile → Option Text → Result Error Profile
rephoned p none = ok p
rephoned p (some phone) = normalize_kr_phone phone >>= λ n. ok (record p { phone = n })

abbrev pub patched_profile : Profile → ProfilePatch → ℕ → Result Error Profile
patched_profile p patch now = do
  p1 ← renamed p patch.display_name
  p2 ← rephoned p1 patch.phone
  ok (record p2 {
    updated_at = now;
    created_at = if eqb p2.created_at 0 then now else p2.created_at;
  })

abbrev pub is_no_patch : ProfilePatch → Bool
is_no_patch patch = elim patch.display_name [
  | none ↦ elim patch.phone [ none ↦ true | some _ ↦ false ]
  | some _ ↦ false
]

abbrev pub stored_profile :
    ProfileRepository → Text → Result Error Profile → ProfileRepository × Result Error ProfileView
stored_profile r user_id (err e) = (r, err e)
stored_profile r user_id (ok p) =
    (upsert_profile r p, ok (get_profile_view (upsert_profile r p) user_id))

-- PatchProfile
unfoldable pub patch_profile :
    ProfileRepository → Text → ProfilePatch → ℕ → ProfileRepository × Result Error ProfileView
patch_profile r user_id patch now =
    if is_no_patch patch
    then (r, ok (get_profile_view r user_id))
    else stored_profile r user_id
        (patched_profile (profile_or_new user_id now (get_profile r user_id)) patch now)

abbrev pub saved : Address → ProfileRepository × Bool → ProfileRepository × Result Error Address
saved a (r, true) = (r, ok a)
saved a (r, false) = (r, err address_not_found)

abbrev pub is_default_for : Option Bool → ℕ → Bool
is_default_for none count = eqb count 0
is_default_for (some asked) count = asked

abbrev pub cleared_if : Bool → ProfileRepository → Text → ℕ → ProfileRepository
cleared_if test r user_id now = if test then clear_default_addresses r user_id now else r

abbrev pub create_validated :
    ProfileRepository
    → Text
    → AddressInput
    → ℕ
    → ℕ
    → Result Error Address
    → ProfileRepository × Result Error Address
create_validated r user_id input now cleared_at (err e) = (r, err e)
create_validated r user_id input now cleared_at (ok validated) =
    let (next, id) = next_address_id r in
    let is_default = is_default_for input.is_default (count_addresses r user_id) in
    let a = record validated {
      id = id;
      user_id = user_id;
      label = trim input.label;
      is_default = is_default;
      created_at = now;
      updated_at = now;
    } in
    saved a (save_address (cleared_if is_default next user_id cleared_at) a)

-- CreateAddress
unfoldable pub create_address :
    ProfileRepository → Text → AddressInput → ℕ → ℕ → ProfileRepository × Result Error Address
create_address r user_id input now cleared_at =
    if leb max_addresses_per_user (count_addresses r user_id)
    then (r, err address_limit_reached)
    else create_validated r user_id input now cleared_at (validate_address_input input.fields)

abbrev pub or_else : Text → Text → Text
or_else given existing = if is_empty given then existing else given

abbrev pub merged_fields : Address → AddressFields → AddressFields
merged_fields a f = record {
  recipient_name = or_else f.recipient_name a.recipient_name;
  recipient_phone = or_else f.recipient_phone a.recipient_phone;
  postal_code = or_else f.postal_code a.postal_code;
  address_line1 = or_else f.address_line1 a.address_line1;
  address_line2 = or_else f.address_line2 a.address_line2;
  city = or_else f.city a.city;
  province = or_else f.province a.province;
  pccc = or_else f.pccc a.pccc;
}

abbrev pub asks_default : Option Bool → Bool
asks_default none = false
asks_default (some asked) = asked

abbrev pub patch_validated :
    ProfileRepository
    → Text
    → Address
    → AddressInput
    → ℕ
    → ℕ
    → Result Error Address
    → ProfileRepository × Result Error Address
patch_validated r user_id existing input now cleared_at (err e) = (r, err e)
patch_validated r user_id existing input now cleared_at (ok validated) =
    let asked = asks_default input.is_default in
    let a = record validated {
      id = existing.id;
      user_id = user_id;
      label = if is_empty input.label then existing.label else trim input.label;
      is_default = if asked then true else existing.is_default;
      created_at = existing.created_at;
      updated_at = now;
    } in
    saved a (save_address (cleared_if asked r user_id cleared_at) a)

abbrev pub patch_found :
    ProfileRepository
    → Text
    → AddressInput
    → ℕ
    → ℕ
    → Option Address
    → ProfileRepository × Result Error Address
patch_found r user_id input now cleared_at none = (r, err address_not_found)
patch_found r user_id input now cleared_at (some existing) =
    patch_validated r user_id existing input now cleared_at
      (validate_address_input (merged_fields existing input.fields))

-- PatchAddress
unfoldable pub patch_address :
    ProfileRepository
    → Text
    → Text
    → AddressInput
    → ℕ
    → ℕ
    → ProfileRepository × Result Error Address
patch_address r user_id address_id input now cleared_at =
    patch_found r user_id input now cleared_at (get_address r user_id address_id)

abbrev pub default_found :
    ProfileRepository → Text → ℕ → ℕ → Option Address → ProfileRepository × Result Error Address
default_found r user_id now cleared_at none = (r, err address_not_found)
default_found r user_id now cleared_at (some existing) =
    let a = record existing { is_default = true; updated_at = now } in
    saved a (save_address (clear_default_addresses r user_id cleared_at) a)

-- SetDefaultAddress
unfoldable pub set_default_address :
    ProfileRepository → Text → Text → ℕ → ℕ → ProfileRepository × Result Error Address
set_default_address r user_id address_id now cleared_at =
    default_found r user_id now cleared_at (get_address r user_id address_id)

abbrev pub address_or_missing : Option Address → Result Error Address
address_or_missing none = err address_not_found
address_or_missing (some a) = ok a

-- GetAddress
unfoldable pub find_address : ProfileRepository → Text → Text → Result Error Address
find_address r user_id address_id = address_or_missing (get_address r user_id address_id)
